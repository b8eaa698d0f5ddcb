-- ===== src/App/Commands.antt =====
-- The commands of a client (app/ChassisHost.cc): the function of each command but those of
-- the update. Logging is left out.
use Prim.Native.String.{String, len}
use chassis_host.Common.{
  ℕ, Bool, true, false, not, ◌||◌, List, [], ◌∷◌, Option, none, some, if◌then◌else◌, ◌==◌, u32,
}
use chassis_host.Common.Int.{ℤ, pos, negsuc}
use chassis_host.Link.ConSm.{State, disconnected, ConSm}
use chassis_host.Link.ConSm.Api.{connect, disconnect}
use chassis_host.Proto.Command.{pack_cmd_en, pack_cmd_pid, pack_cmd_sign, pack_ping}
use chassis_host.Proto.Defs.{pt_cmd_stop, pt_cmd_en, pt_cmd_pid, pt_cmd_sign, pt_cmd_ping}
use chassis_host.Proto.Float32.{Triple}
use chassis_host.App.Defs.{
  same, elapsed, contains, insert, erase, Platform, text, text_of, ok_twist, ok_rpm, ok_pid,
  ok_sign, ok_watch, ok_con, Host, mode_none, mode_twist, mode_rpm,
}
use chassis_host.App.Output.{send_to, send_frame_to_board, transmit, callbacks}

abbrev pub is_disconnected : State → Bool
is_disconnected disconnected = true
is_disconnected _ = false

module _ (pl : Platform) where
  open pl use {fl, Double, strtod, zero_double, to_float, at_least_zero}

  -- `parseDouble`: all of the text is a number.
  unfoldable pub parse_double : String → Option Double
  parse_double s =
      if len s == 0
      then none
      else (let (v, rest) = strtod s in if same rest s || not (same rest "") then none else some v)

  -- The loops over up to three arguments: the values, or the argument that is no number.
  pub data Parsed : Type 0 where
    bad_argument : String → Parsed
    values : Triple Double → Parsed

  parse_one : String → (Double → Parsed) → Parsed
  unfolding parse_double
  parse_one s k = elim (parse_double s) [ none ↦ bad_argument s | some v ↦ k v ]

  -- `none` where the number of arguments is wrong.
  unfoldable pub parse_speeds : List String → Option Parsed
  unfolding parse_one
  parse_speeds (a ∷ []) =
      some (parse_one a (λ v. values (record { e0 = v; e1 = zero_double; e2 = zero_double })))
  parse_speeds (a ∷ b ∷ []) =
      some
        (parse_one a (λ v. parse_one b (λ w. values (record { e0 = v; e1 = w; e2 = zero_double }))))
  parse_speeds (a ∷ b ∷ c ∷ []) = some (
      parse_one a
        (λ v. parse_one b (λ w. parse_one c (λ x. values (record { e0 = v; e1 = w; e2 = x })))))
  parse_speeds _ = none

  abbrev pub to_floats : Triple Double → Triple fl.Float
  to_floats v = record { e0 = to_float v.e0; e1 = to_float v.e1; e2 = to_float v.e2 }

  -- The commands take the tokens behind the command word.
  unfoldable pub set_twist : Option Parsed → ℕ → ConSm × Host pl → ConSm × Host pl
  set_twist none c (s, h) = (s, send_to pl c (text "err usage: v") h)
  set_twist (some (bad_argument a)) c (s, h) = (s, send_to pl c (text_of "err argument" a) h)
  set_twist (some (values v)) c (s, h) =
      let motion = record h.motion {
        twist = to_floats v;
        cmd_mode = mode_twist;
        speed_conn = some c;
      } in
      (s, send_to pl c (ok_twist (to_floats v) s.comm) (record h { motion = motion }))

  unfoldable pub cmd_twist : ℕ → List String → ConSm × Host pl → ConSm × Host pl
  unfolding parse_speeds set_twist
  cmd_twist c args x = set_twist (parse_speeds args) c x

  unfoldable pub set_rpm : Option Parsed → ℕ → ConSm × Host pl → ConSm × Host pl
  set_rpm none c (s, h) = (s, send_to pl c (text "err usage: rpm") h)
  set_rpm (some (bad_argument a)) c (s, h) = (s, send_to pl c (text_of "err argument" a) h)
  set_rpm (some (values v)) c (s, h) =
      let motion = record h.motion {
        rpm = to_floats v;
        cmd_mode = mode_rpm;
        speed_conn = some c;
      } in
      (s, send_to pl c (ok_rpm (to_floats v)) (record h { motion = motion }))

  unfoldable pub cmd_rpm : ℕ → List String → ConSm × Host pl → ConSm × Host pl
  unfolding parse_speeds set_rpm
  cmd_rpm c args x = set_rpm (parse_speeds args) c x

  unfoldable pub cmd_stop : ℕ → ConSm × Host pl → ConSm × Host pl
  cmd_stop c (s, h) =
      let h1 = record h { motion = record h.motion { cmd_mode = mode_none; speed_conn = none } } in
      let (ok, h2) = send_frame_to_board pl pt_cmd_stop [] h1 in
      (s, send_to pl c (if ok then text "ok stop" else text "err stop") h2)

  -- `en 1`: the sticky flag falls, CMD_EN goes out, and the link is asked for.
  unfoldable pub enable : ℕ → ConSm × Host pl → ConSm × Host pl
  enable c (s, h) =
      let h1 = record h {
        motion = record h.motion { user_disabled = false };
        watch = record h.watch { last_en_sent = h.clock };
      } in
      let h2 = transmit pl pt_cmd_en (pack_cmd_en true) h1 in
      let (s', h3) =
        if is_disconnected s.state then (connect (callbacks pl) h2.clock (s, h2)).1 else (s, h2) in
      (s', send_to pl c (text "ok en=1") h3)

  -- `en 0`: the sticky flag, no repeated speed, and the link is taken down.
  unfoldable pub disable : ℕ → ConSm × Host pl → ConSm × Host pl
  disable c (s, h) =
      let h1 = record h {
        motion = record h.motion { user_disabled = true; cmd_mode = mode_none };
      } in
      let h2 = transmit pl pt_cmd_en (pack_cmd_en false) h1 in
      let (s', h3) = (disconnect (callbacks pl) h2.clock (s, h2)).1 in
      (s', send_to pl c (text "ok en=0") h3)

  unfoldable pub cmd_enable : ℕ → List String → ConSm × Host pl → ConSm × Host pl
  unfolding enable disable
  cmd_enable c (a ∷ []) (s, h) =
      if same a "1"
      then enable c (s, h)
      else if same a "0"
      then disable c (s, h)
      else (s, send_to pl c (text "err usage: en") h)
  cmd_enable c _ (s, h) = (s, send_to pl c (text "err usage: en") h)

  unfoldable pub send_pid : Option Parsed → ℕ → ConSm × Host pl → ConSm × Host pl
  send_pid (some (values v)) c (s, h) =
      let (ok, h1) =
        send_frame_to_board pl pt_cmd_pid
          (pack_cmd_pid fl (to_float v.e0) (to_float v.e1) (to_float v.e2)) h in
      (s, send_to pl c (if ok then ok_pid v.e0 v.e1 v.e2 else text "err pid") h1)
  send_pid _ c (s, h) = (s, send_to pl c (text "err usage: pid") h)

  -- Three arguments, and no other number of them.
  unfoldable pub three : List String → Option Parsed
  unfolding parse_speeds
  three (x ∷ y ∷ z ∷ []) = parse_speeds (x ∷ y ∷ z ∷ [])
  three _ = none

  unfoldable pub cmd_pid : ℕ → List String → ConSm × Host pl → ConSm × Host pl
  unfolding send_pid three
  cmd_pid c args x = send_pid (three args) c x

  -- `v >= 0 ? 1 : -1`.
  abbrev pub sign_of : Double → ℤ
  sign_of v = if at_least_zero v then pos 1 else negsuc 0

  unfoldable pub send_sign : Option Parsed → ℕ → ConSm × Host pl → ConSm × Host pl
  send_sign (some (values v)) c (s, h) =
      let signs : Triple ℤ = record { e0 = sign_of v.e0; e1 = sign_of v.e1; e2 = sign_of v.e2 } in
      let (ok, h1) = send_frame_to_board pl pt_cmd_sign (pack_cmd_sign signs) h in
      (s, send_to pl c (if ok then ok_sign signs else text "err sign") h1)
  send_sign (some (bad_argument a)) c (s, h) = (s, send_to pl c (text_of "err argument" a) h)
  send_sign none c (s, h) = (s, send_to pl c (text "err usage: sign") h)

  unfoldable pub cmd_sign : ℕ → List String → ConSm × Host pl → ConSm × Host pl
  unfolding send_sign three
  cmd_sign c args x = send_sign (three args) c x

  unfoldable pub cmd_ping : ℕ → ConSm × Host pl → ConSm × Host pl
  cmd_ping c (s, h) =
      if not h.radio.port.is_open
      then (s, send_to pl c (text "err ping") h)
      else (let h1 = record h {
        ping = record { last_ping_id = u32 h.clock; last_ping_sent = h.clock; ping_conn = some c };
      } in
          (s, transmit pl pt_cmd_ping (pack_ping h1.ping.last_ping_id) h1))

  -- Without an argument the subscription is turned over.
  unfoldable pub cmd_watch : ℕ → String → ConSm × Host pl → ConSm × Host pl
  cmd_watch c arg (s, h) =
      let on =
        if same arg "on"
        then true
        else if same arg "off"
        then false
        else not (contains c h.tcp.watchers) in
      let ws = if on then insert c h.tcp.watchers else erase c h.tcp.watchers in
      (s, send_to pl c (ok_watch on) (record h { tcp = record h.tcp { watchers = ws } }))

  unfoldable pub cmd_con : ℕ → ConSm × Host pl → ConSm × Host pl
  cmd_con c (s, h) = (
    s,
    send_to pl c
        (ok_con s.state s.comm
          (if h.watch.last_frame == 0 then none else some (elapsed h.clock h.watch.last_frame)))
        h,
  )
