-- ===== src/Main.antt =====
-- `main` of app/main.cc up to the loop, with `splitListenAddr` of app/ChassisHost.cc. The answers of
-- `getopt_long` are a list; the numbers that `atoi`, `atoll` and `atof` read are arguments.
pub mod Options
pub mod Address
pub mod Serves
mod Tests
use chassis_host.Common.{
  ℕ, suc, ◌+◌, ◌-◌, ◌%◌, ◌^◌, Bool, true, false, not, ◌||◌, Option, none, some, List, [], ◌∷◌, ◌++◌,
  length, take, drop, ltb, ◌==◌, if◌then◌else◌,
}
use chassis_host.Common.Int.{ℤ, pos, negsuc}
use chassis_host.Log.Level.{
  LogLevel, num_log_levels, trace, debug, info, warn, error, fatal, level_from_string,
}

-- The values of `ch`; `flag_other` is an option that is not known or lacks its argument.
pub data Flag : Type 0 where
  flag_serial flag_baud flag_listen flag_log_dir flag_log_level : Flag
  flag_repeat_hz flag_odom_hz flag_slow_hz : Flag
  flag_con_retry_ms flag_rx_timeout_ms flag_en_resend_ms : Flag
  flag_flash_dev flag_flash_script flag_firmware_dir flag_flash_tool flag_flash_python : Flag
  flag_help flag_other : Flag

-- The conversions of text to numbers.
pub record Numbers : Type 1 where
  pub Double : Type 0
  pub atoi : List ℕ → ℤ
  pub atoll : List ℕ → ℤ
  pub atof : List ℕ → Double
  pub ten : Double
  pub one : Double
  pub at_most_zero : Double → Bool

-- `opts` and the variables of `main`.
pub record Settings (nums : Numbers) : Type 0 where
  pub serial_dev : List ℕ
  pub serial_baud : ℤ
  pub listen_addr : List ℕ
  pub log_dir : List ℕ
  pub log_level : List ℕ
  pub repeat_hz : nums.Double
  pub odom_hz : nums.Double
  pub slow_hz : nums.Double
  pub con_retry_ms : ℕ
  pub rx_timeout_ms : ℕ
  pub en_resend_ms : ℕ
  pub flash_dev : List ℕ
  pub flash_script : List ℕ
  pub firmware_dir : List ℕ
  pub flash_tool : List ℕ
  pub flash_python : List ℕ

-- `static_cast<uint64_t>` of a long long.
abbrev pub to_u64 : ℤ → ℕ
to_u64 (pos n) = n % 2 ^ 64
to_u64 (negsuc n) = 2 ^ 64 - 1 - n % 2 ^ 64

-- The last ':'.
abbrev pub colon_later : ℕ → Option ℕ → Option ℕ
colon_later c (some n) = some (suc n)
colon_later c none = if c == 58 then some 0 else none

abbrev pub rfind_colon : List ℕ → Option ℕ
rfind_colon [] = none
rfind_colon (c ∷ cs) = colon_later c (rfind_colon cs)

abbrev pub port_of : List ℕ → ℤ → Option (List ℕ × ℕ)
port_of ip (negsuc n) = none
port_of ip (pos p) = if (p == 0) || ltb 65535 p then none else some (ip, p)

abbrev pub split_at_colon : (List ℕ → ℤ) → List ℕ → Option ℕ → Option (List ℕ × ℕ)
split_at_colon atoi addr none = none
split_at_colon atoi addr (some colon) =
    if (colon == 0) || (suc colon == length addr)
    then none
    else port_of (take colon addr) (atoi (drop (suc colon) addr))

-- `splitListenAddr`.
unfoldable pub split_listen_addr : (List ℕ → ℤ) → List ℕ → Option (List ℕ × ℕ)
split_listen_addr atoi addr = split_at_colon atoi addr (rfind_colon addr)

module _ (nums : Numbers) where
  -- The defaults of `HostOptions` and `main`: "/dev/ttyUSB0", "127.0.0.1:9000", "log", "info",
  -- "firmware", "auto" and "python3".
  abbrev pub defaults : Settings nums
  defaults = record {
    serial_dev = 47 ∷ 100 ∷ 101 ∷ 118 ∷ 47 ∷ 116 ∷ 116 ∷ 121 ∷ 85 ∷ 83 ∷ 66 ∷ 48 ∷ [];
    serial_baud = pos 115200;
    listen_addr = 49 ∷ 50 ∷ 55 ∷ 46 ∷ 48 ∷ 46 ∷ 48 ∷ 46 ∷ 49 ∷ 58 ∷ 57 ∷ 48 ∷ 48 ∷ 48 ∷ [];
    log_dir = 108 ∷ 111 ∷ 103 ∷ [];
    log_level = 105 ∷ 110 ∷ 102 ∷ 111 ∷ [];
    repeat_hz = nums.ten;
    odom_hz = nums.ten;
    slow_hz = nums.one;
    con_retry_ms = 2000;
    rx_timeout_ms = 2000;
    en_resend_ms = 1000;
    flash_dev = [];
    flash_script = [];
    firmware_dir = 102 ∷ 105 ∷ 114 ∷ 109 ∷ 119 ∷ 97 ∷ 114 ∷ 101 ∷ [];
    flash_tool = 97 ∷ 117 ∷ 116 ∷ 111 ∷ [];
    flash_python = 112 ∷ 121 ∷ 116 ∷ 104 ∷ 111 ∷ 110 ∷ 51 ∷ [];
  }

  -- The loop ends with the settings, or leaves `main` with an exit code.
  pub data Parsed : Type 0 where
    parsed : Settings nums → Parsed
    left_main : ℕ → Parsed

  unfoldable pub take_option : Flag → List ℕ → Settings nums → Parsed
  take_option flag_serial arg s = parsed (record s { serial_dev = arg })
  take_option flag_baud arg s = parsed (record s { serial_baud = nums.atoi arg })
  take_option flag_listen arg s = parsed (record s { listen_addr = arg })
  take_option flag_log_dir arg s = parsed (record s { log_dir = arg })
  take_option flag_log_level arg s = parsed (record s { log_level = arg })
  take_option flag_repeat_hz arg s = parsed (record s { repeat_hz = nums.atof arg })
  take_option flag_odom_hz arg s = parsed (record s { odom_hz = nums.atof arg })
  take_option flag_slow_hz arg s = parsed (record s { slow_hz = nums.atof arg })
  take_option flag_con_retry_ms arg s = parsed (record s { con_retry_ms = to_u64 (nums.atoll arg) })
  take_option flag_rx_timeout_ms arg s =
      parsed (record s { rx_timeout_ms = to_u64 (nums.atoll arg) })
  take_option flag_en_resend_ms arg s = parsed (record s { en_resend_ms = to_u64 (nums.atoll arg) })
  take_option flag_flash_dev arg s = parsed (record s { flash_dev = arg })
  take_option flag_flash_script arg s = parsed (record s { flash_script = arg })
  take_option flag_firmware_dir arg s = parsed (record s { firmware_dir = arg })
  take_option flag_flash_tool arg s = parsed (record s { flash_tool = arg })
  take_option flag_flash_python arg s = parsed (record s { flash_python = arg })
  take_option flag_help arg s = left_main 0
  take_option flag_other arg s = left_main 1

  abbrev pub after_option : (Settings nums → Parsed) → Parsed → Parsed
  after_option go_on (parsed s) = go_on s
  after_option go_on (left_main code) = left_main code

  unfoldable pub read_options : List (Flag × List ℕ) → Settings nums → Parsed
  unfolding take_option
  read_options [] s = parsed s
  read_options ((flag, arg) ∷ more) s = after_option (read_options more) (take_option flag arg s)

  -- How `main` goes on: it returns, LOG_FATAL aborts it, or it serves an address and a port, with a
  -- level and perhaps a file for its log.
  pub data Outcome : Type 0 where
    returned : ℕ → Outcome
    aborted : Outcome
    serves : Settings nums → List ℕ → ℕ → LogLevel → Option (List ℕ) → Outcome

  abbrev pub log_basename : List ℕ → Option (List ℕ)
  log_basename [] = none
  log_basename (c ∷ cs) =
      some
        ((c ∷ cs) ++ (47 ∷ 99 ∷ 104 ∷ 97 ∷ 115 ∷ 115 ∷ 105 ∷ 115 ∷ 95 ∷ 104 ∷ 111 ∷ 115 ∷ 116 ∷ []))

  -- The constructor of the host.
  abbrev pub listen_on : Settings nums → LogLevel → Option (List ℕ × ℕ) → Outcome
  listen_on s level none = aborted
  listen_on s level (some (ip, port)) = serves s ip port level (log_basename s.log_dir)

  abbrev pub with_level : Settings nums → LogLevel → Outcome
  unfolding split_listen_addr
  with_level s num_log_levels = returned 1
  with_level s level = listen_on s level (split_listen_addr nums.atoi s.listen_addr)

  -- `<= 0.0` for one of the rates.
  abbrev pub wrong_rate : Settings nums → Bool
  wrong_rate s =
      nums.at_most_zero s.repeat_hz || nums.at_most_zero s.odom_hz || nums.at_most_zero s.slow_hz

  abbrev pub start_with : Parsed → Outcome
  unfolding level_from_string
  start_with (left_main code) = returned code
  start_with (parsed s) =
      if wrong_rate s then returned 1 else with_level s (level_from_string (some s.log_level))

  unfoldable pub main : List (Flag × List ℕ) → Outcome
  unfolding read_options start_with
  main options = start_with (read_options options defaults)
