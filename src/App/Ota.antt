-- ===== src/App/Ota.antt =====
-- The life of a firmware update in app/ChassisHost.cc: its start once the board has stopped, the
-- lines and the end of the child process.
pub mod Laws
use Prim.Native.Char.{code}
use Prim.Native.String.{String, [], ◌∷◌, len, slice, find}
use chassis_host.Common.{
  ℕ, ◌+◌, ◌-◌, ◌/◌, ◌%◌, Bool, true, false, not, ◌&&◌, ◌||◌, ltb, leb, ◌==◌, if◌then◌else◌,
}
use chassis_host.Link.ConSm.{ConSm}
use chassis_host.Link.ConSm.Api.{reset}
use chassis_host.Ota.Status.{exited, exit_status}
use chassis_host.App.Defs.{
  same, Platform, Msg, text, text_of, ota_state_is, ota_started, child_failed, Host, OtaState,
  ota_flashing, ota_recovering, HostOptions, flash_argv,
}
use chassis_host.App.Output.{broadcast_all, ota_send_progress, ota_finish, callbacks}

-- `std::isalnum` in the C locale, of a byte, and the three other characters of a file name.
abbrev pub between : ℕ → ℕ → ℕ → Bool
between a b n = leb a n && leb n b

unfoldable pub is_name_char : ℕ → Bool
is_name_char n =
    between 0x30 0x39 n
    || between 0x41 0x5A n
    || between 0x61 0x7A n
    || (n == 0x2E)
    || (n == 0x5F)
    || (n == 0x2D)

unfoldable pub all_name_chars : String → Bool
unfolding is_name_char
all_name_chars [] = true
all_name_chars (c ∷ s) = is_name_char (code c) && all_name_chars s

-- Whether the text is the beginning of the other.
abbrev pub begins : String → String → Bool
begins [] s = true
begins (c ∷ t) [] = false
begins (c ∷ t) (d ∷ s) = (code c == code d) && begins t s

-- `s.find(t) != npos`: t stands somewhere in s.
abbrev pub has : String → String → Bool
has [] t = begins t []
has (c ∷ s) t = begins t (c ∷ s) || has s t

unfoldable pub is_safe_firmware_name : String → Bool
is_safe_firmware_name name =
    if ltb (len name) 5 || not (same (slice name (len name - 4) (len name)) ".hex")
    then false
    else if all_name_chars name
    then not (has name "..")
    else false

-- `line.rfind(prefix, 0) == 0`.
abbrev pub starts_with : String → String → Bool
starts_with line prefix = same (slice line 0 (len prefix)) prefix

abbrev pub after : String → String → String
after prefix line = slice line (len prefix) (len line)

-- A line of the tool's own progress output.
abbrev pub is_progress : String → Bool
is_progress line =
    starts_with line "cli| " && (has line "Wrote and verified address" || has line "%")

abbrev pub is_flashing : OtaState → Bool
is_flashing ota_flashing = true
is_flashing _ = false

module _ (pl : Platform) where
  unfoldable pub ota_begin_flasher : HostOptions → ConSm × Host pl → ConSm × Host pl
  ota_begin_flasher opts (s, h) =
      let h1 = record h { ota = record h.ota { phase = ota_flashing; phase_start = h.clock } } in
      let (s', h2) = reset (callbacks pl) (s, h1) in
      let (ok, child) = (pl.flasher).start (flash_argv opts h2.ota.file) h2.ota.child in
      let h3 = record h2 { ota = record h2.ota { child = child } } in
      if ok
      then (
        s',
        broadcast_all pl (ota_state_is "flashing")
            (ota_send_progress pl (ota_started h3.ota.file) h3),
      )
      else (s', ota_finish pl (text "err flash: start") h3)

  unfoldable pub ota_on_child_line : String → Host pl → Host pl
  ota_on_child_line line h =
      let h1 = record h { ota = record h.ota { last_line = line } } in
      if starts_with line "STAGE: "
      then (let h2 = record h1 {
        ota = record h1.ota { stage = after "STAGE: " line; cli_lines = 0 };
      } in
          ota_send_progress pl (text_of "flash stage" h2.ota.stage) h2)
      else if starts_with line "OK: "
      then ota_send_progress pl (text_of "flash ok" (after "OK: " line)) h1
      else if starts_with line "FAIL: "
      then ota_send_progress pl (text_of "flash fail" (after "FAIL: " line)) h1
      else if is_progress line
      then (let h2 = record h1 { ota = record h1.ota { cli_lines = h1.ota.cli_lines + 1 } } in
          if h2.ota.cli_lines % 20 == 0
          then ota_send_progress pl (text_of "flash line" line) h2
          else h2)
      else ota_send_progress pl (text_of "flash line" line) h1

  -- Which of the three texts a child that failed is told by.
  pub failure : ℕ → Host pl → Msg pl
  failure status h =
      if exited status && (exit_status status == 6)
      then child_failed "port" status h.ota.last_line
      else if same h.ota.stage "check"
      then child_failed "check" status h.ota.last_line
      else child_failed "flash" status h.ota.last_line

  unfoldable pub ota_on_child_exit : Bool → ℕ → Host pl → Host pl
  unfolding failure
  ota_on_child_exit ok status h =
      if not (is_flashing h.ota.phase)
      then h
      else if ok
      then (let h1 = ota_send_progress pl (text "flash verified") h in
          broadcast_all pl (ota_state_is "recovering") (record h1 {
            ota = record h1.ota { phase = ota_recovering; phase_start = h1.clock };
            watch = record h1.watch { last_retry = 0 };
          }))
      else ota_finish pl (failure status h) h
