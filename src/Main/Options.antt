-- ===== src/Main/Options.antt =====
-- What the options come to, read as a whole: the first one that ends `main`, and for each setting the
-- last value that was given.
use chassis_host.Common.{ℕ, ◌≡◌, refl, Option, none, some, List, [], ◌∷◌, ◌==◌, if◌then◌else◌}
use chassis_host.Main.{
  Flag, flag_serial, flag_baud, flag_listen, flag_log_dir, flag_log_level, flag_repeat_hz,
  flag_odom_hz, flag_slow_hz, flag_con_retry_ms, flag_rx_timeout_ms, flag_en_resend_ms,
  flag_flash_dev, flag_flash_script, flag_firmware_dir, flag_flash_tool, flag_flash_python,
  flag_help, flag_other, Numbers, Settings, to_u64, parsed, left_main, read_options, take_option,
}

-- A number for each option, to compare them by.
abbrev flag_number : Flag → ℕ
flag_number flag_serial = 0
flag_number flag_baud = 1
flag_number flag_listen = 2
flag_number flag_log_dir = 3
flag_number flag_log_level = 4
flag_number flag_repeat_hz = 5
flag_number flag_odom_hz = 6
flag_number flag_slow_hz = 7
flag_number flag_con_retry_ms = 8
flag_number flag_rx_timeout_ms = 9
flag_number flag_en_resend_ms = 10
flag_number flag_flash_dev = 11
flag_number flag_flash_script = 12
flag_number flag_firmware_dir = 13
flag_number flag_flash_tool = 14
flag_number flag_flash_python = 15
flag_number flag_help = 16
flag_number flag_other = 17

-- The exit code of an option that ends `main`, and of the first such option.
abbrev pub ends_with : Flag → Option ℕ
ends_with flag_help = some 0
ends_with flag_other = some 1
ends_with _ = none

abbrev pub first_of : Option ℕ → Option ℕ → Option ℕ
first_of none later = later
first_of (some code) later = some code

abbrev pub first_end : List (Flag × List ℕ) → Option ℕ
first_end [] = none
first_end ((flag, arg) ∷ more) = first_of (ends_with flag) (first_end more)

-- The value of the last option `flag`, or the default.
abbrev pub last_given {ℓ} : {A : Type ℓ} → Flag → (List ℕ → A) → List (Flag × List ℕ) → A → A
last_given flag read [] default = default
last_given flag read ((given, arg) ∷ more) default =
    last_given flag read more (if flag_number given == flag_number flag then read arg else default)

module _ (nums : Numbers) where
  -- Every setting as it was last given.
  abbrev pub settings_of : List (Flag × List ℕ) → Settings nums → Settings nums
  settings_of ops s =
      let text : List ℕ → List ℕ = λ arg. arg in
      let millis : List ℕ → ℕ = λ arg. to_u64 (nums.atoll arg) in
      record {
        serial_dev = last_given flag_serial text ops s.serial_dev;
        serial_baud = last_given flag_baud nums.atoi ops s.serial_baud;
        listen_addr = last_given flag_listen text ops s.listen_addr;
        log_dir = last_given flag_log_dir text ops s.log_dir;
        log_level = last_given flag_log_level text ops s.log_level;
        repeat_hz = last_given flag_repeat_hz nums.atof ops s.repeat_hz;
        odom_hz = last_given flag_odom_hz nums.atof ops s.odom_hz;
        slow_hz = last_given flag_slow_hz nums.atof ops s.slow_hz;
        con_retry_ms = last_given flag_con_retry_ms millis ops s.con_retry_ms;
        rx_timeout_ms = last_given flag_rx_timeout_ms millis ops s.rx_timeout_ms;
        en_resend_ms = last_given flag_en_resend_ms millis ops s.en_resend_ms;
        flash_dev = last_given flag_flash_dev text ops s.flash_dev;
        flash_script = last_given flag_flash_script text ops s.flash_script;
        firmware_dir = last_given flag_firmware_dir text ops s.firmware_dir;
        flash_tool = last_given flag_flash_tool text ops s.flash_tool;
        flash_python = last_given flag_flash_python text ops s.flash_python;
      }

  -- Where the first option that ends `main` has the code, or there is none.
  abbrev pub ReadAs : List (Flag × List ℕ) → Settings nums → Option ℕ → Type 0
  ReadAs ops s (some code) = read_options nums ops s ≡ left_main code
  ReadAs ops s none = read_options nums ops s ≡ parsed (settings_of ops s)

  -- The loop over the options has read them so.
  pub read_options-ReadAs :
      (ops : List (Flag × List ℕ)) (s : Settings nums) → ReadAs ops s (first_end ops)
  unfolding read_options take_option
  read_options-ReadAs [] s = refl
  read_options-ReadAs ((flag_serial, arg) ∷ more) s =
      read_options-ReadAs more (record s { serial_dev = arg })
  read_options-ReadAs ((flag_baud, arg) ∷ more) s =
      read_options-ReadAs more (record s { serial_baud = nums.atoi arg })
  read_options-ReadAs ((flag_listen, arg) ∷ more) s =
      read_options-ReadAs more (record s { listen_addr = arg })
  read_options-ReadAs ((flag_log_dir, arg) ∷ more) s =
      read_options-ReadAs more (record s { log_dir = arg })
  read_options-ReadAs ((flag_log_level, arg) ∷ more) s =
      read_options-ReadAs more (record s { log_level = arg })
  read_options-ReadAs ((flag_repeat_hz, arg) ∷ more) s =
      read_options-ReadAs more (record s { repeat_hz = nums.atof arg })
  read_options-ReadAs ((flag_odom_hz, arg) ∷ more) s =
      read_options-ReadAs more (record s { odom_hz = nums.atof arg })
  read_options-ReadAs ((flag_slow_hz, arg) ∷ more) s =
      read_options-ReadAs more (record s { slow_hz = nums.atof arg })
  read_options-ReadAs ((flag_con_retry_ms, arg) ∷ more) s =
      read_options-ReadAs more (record s { con_retry_ms = to_u64 (nums.atoll arg) })
  read_options-ReadAs ((flag_rx_timeout_ms, arg) ∷ more) s =
      read_options-ReadAs more (record s { rx_timeout_ms = to_u64 (nums.atoll arg) })
  read_options-ReadAs ((flag_en_resend_ms, arg) ∷ more) s =
      read_options-ReadAs more (record s { en_resend_ms = to_u64 (nums.atoll arg) })
  read_options-ReadAs ((flag_flash_dev, arg) ∷ more) s =
      read_options-ReadAs more (record s { flash_dev = arg })
  read_options-ReadAs ((flag_flash_script, arg) ∷ more) s =
      read_options-ReadAs more (record s { flash_script = arg })
  read_options-ReadAs ((flag_firmware_dir, arg) ∷ more) s =
      read_options-ReadAs more (record s { firmware_dir = arg })
  read_options-ReadAs ((flag_flash_tool, arg) ∷ more) s =
      read_options-ReadAs more (record s { flash_tool = arg })
  read_options-ReadAs ((flag_flash_python, arg) ∷ more) s =
      read_options-ReadAs more (record s { flash_python = arg })
  read_options-ReadAs ((flag_help, arg) ∷ more) s = refl
  read_options-ReadAs ((flag_other, arg) ∷ more) s = refl
