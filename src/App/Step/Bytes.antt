-- ===== src/App/Step/Bytes.antt =====
-- The host as a machine on bytes: what a client sends comes in pieces of any size, and the serial line
-- is read by `handleRead`.
use Prim.Native.String.{String}
use chassis_host.Common.{
  ℕ, ◌≡◌, refl, sym, ap, ◌∙◌, List, [], ◌∷◌, ◌++◌, map, All, ◌==◌, if◌then◌else◌, arith,
}
use mathlib.Core.Path.{subst}
use chassis_host.Link.ConSm.{ConSm}
use chassis_host.Serial.{Read, read_loop}
use chassis_host.App.Defs.{Platform, Host, HostOptions}
use chassis_host.App.Events.{on_serial_data}
use chassis_host.App.Lines.Chunks.{Split, split, ShortFrom, read_pieces, joined, read_pieces-split}
use chassis_host.App.Lines.Words.{WordLine, line_bytes, line_words, IsWordLine, line_tokens-words}
use chassis_host.App.Lines.{
  max_line_len, command_of, read_lines, handle_line, handle_lines, on_message,
}
use chassis_host.App.Step.{HostEvent, command, connection, port_lost, step, steps}

-- A connection's buffer.
abbrev pub Buffers : Type 0
Buffers = ℕ → List ℕ

abbrev pub set_buffer : ℕ → List ℕ → Buffers → Buffers
set_buffer c bytes bufs = λ k. if k == c then bytes else bufs k

pub data ByteEvent : Type 0 where
  client_bytes : ℕ → List ℕ → ByteEvent
  tty_readable : List Read → ByteEvent
  host_event : HostEvent → ByteEvent

-- A connection starts with an empty buffer.
abbrev pub new_buffers : HostEvent → Buffers → Buffers
new_buffers (connection c up) bufs = set_buffer c [] bufs
new_buffers _ bufs = bufs

-- The pieces of one client, one after the other.
abbrev pub sends : ℕ → List (List ℕ) → List ByteEvent
sends c [] = []
sends c (piece ∷ more) = client_bytes c piece ∷ sends c more

module _ (pl : Platform) (opts : HostOptions) (to_text : List ℕ → String) where
  -- `handleRead` of the port with the host's callbacks.
  unfoldable pub handle_read : List Read → ConSm × Host pl → ConSm × Host pl
  unfolding read_loop
  handle_read reads (s, h) =
      if h.radio.port.is_open
      then read_loop (on_serial_data pl opts) (λ reason x. (x.0, port_lost pl opts reason x.1))
          reads (s, h)
      else (s, h)

  unfoldable pub byte_step : ByteEvent → Buffers × (ConSm × Host pl) → Buffers × (ConSm × Host pl)
  unfolding on_message handle_read
  byte_step (client_bytes c bytes) (bufs, x) =
      let (rest, x') = on_message pl opts to_text c (bufs c ++ bytes) x in
      (set_buffer c rest bufs, x')
  byte_step (tty_readable reads) (bufs, x) = (bufs, handle_read reads x)
  byte_step (host_event ev) (bufs, x) = (new_buffers ev bufs, step pl opts ev x)

  unfoldable pub byte_steps :
      List ByteEvent → Buffers × (ConSm × Host pl) → Buffers × (ConSm × Host pl)
  unfolding byte_step
  byte_steps [] x = x
  byte_steps (ev ∷ evs) x = byte_steps evs (byte_step ev x)

  -- What `handleLine` does for a line of words.
  handle_line-command :
      (c : ℕ) (l : WordLine) (x : ConSm × Host pl)
      → IsWordLine l
      → handle_line pl opts to_text c (line_bytes l) x
        ≡ step pl opts (command c (map to_text (line_words l))) x
  unfolding handle_line step
  handle_line-command c l x h = ap (λ t. command_of pl opts to_text c t x) (line_tokens-words l h)

  abbrev pub commands_of : ℕ → List WordLine → List HostEvent
  commands_of c [] = []
  commands_of c (l ∷ ls) = command c (map to_text (line_words l)) ∷ commands_of c ls

  handle_lines-commands :
      (c : ℕ) (ls : List WordLine) (x : ConSm × Host pl)
      → All IsWordLine ls
      → handle_lines pl opts to_text c (map line_bytes ls) x ≡ steps pl opts (commands_of c ls) x
  unfolding steps
  handle_lines-commands c [] x h = refl
  handle_lines-commands c (l ∷ ls) x h =
      ap (handle_lines pl opts to_text c (map line_bytes ls)) (handle_line-command c l x h.0)
      ∙ handle_lines-commands c ls (step pl opts (command c (map to_text (line_words l))) x) h.1

  handle_lines-append :
      (c : ℕ) (xs ys : List (List ℕ)) (x : ConSm × Host pl)
      → handle_lines pl opts to_text c (xs ++ ys) x
        ≡ handle_lines pl opts to_text c ys (handle_lines pl opts to_text c xs x)
  handle_lines-append c [] ys x = refl
  handle_lines-append c (l ∷ xs) ys x =
      handle_lines-append c xs ys (handle_line pl opts to_text c l x)

  set_buffer-same : (c : ℕ) (bytes : List ℕ) (bufs : Buffers) → set_buffer c bytes bufs c ≡ bytes
  set_buffer-same c bytes bufs = ground arith

  -- The pieces of one client, by the lines that are found in them.
  Found : ℕ → Split → ConSm × Host pl → Buffers × (ConSm × Host pl) → Type 0
  Found c q x y = (y.1 ≡ handle_lines pl opts to_text c q.0 x) × (y.0 c ≡ q.1)

  byte_steps-Found :
      (c : ℕ) (pieces : List (List ℕ)) (bufs : Buffers) (buf : List ℕ) (x : ConSm × Host pl)
      → bufs c ≡ buf
      → Found c (read_pieces pieces buf) x (byte_steps (sends c pieces) (bufs, x))
  unfolding byte_steps byte_step on_message Found
  byte_steps-Found c [] bufs buf x e = (refl, e)
  byte_steps-Found c (piece ∷ more) bufs buf x e =
      let (lines, rest) = read_lines (bufs c ++ piece) in
      let x' = handle_lines pl opts to_text c lines x in
      let bufs' : Buffers = set_buffer c rest bufs in
      let later = byte_steps-Found c more bufs' rest x' (set_buffer-same c rest bufs) in
      subst
        (λ b.
          Found c (read_pieces (piece ∷ more) b) x (byte_steps (sends c (piece ∷ more)) (bufs, x)))
        e (later.0 ∙ sym (handle_lines-append c lines (read_pieces more rest).0 x), later.1)

  -- A client with an empty buffer sends lines of words and perhaps the beginning of one more, cut into
  -- pieces anywhere, no line longer than 512 bytes. Each line's words may have any white space between
  -- them and spaces and '\r' behind, and the first one does not begin with '#'. Then the host does
  -- exactly what these words say as commands of this client, in order, and the beginning of the next
  -- line waits in the client's buffer.
  pub byte_steps-steps :
      (c : ℕ) (pieces : List (List ℕ)) (lines : List WordLine) (rest : List ℕ) (bufs : Buffers)
      (x : ConSm × Host pl)
      → bufs c ≡ []
      → All IsWordLine lines
      → split (joined pieces) ≡ (map line_bytes lines, rest)
      → ShortFrom max_line_len (split (joined pieces))
      → let y = byte_steps (sends c pieces) (bufs, x) in
        (y.1 ≡ steps pl opts (commands_of c lines) x) × (y.0 c ≡ rest)
  unfolding Found
  byte_steps-steps c pieces lines rest bufs x empty words cut short =
      let found = byte_steps-Found c pieces bufs [] x empty in
      let parts = read_pieces-split pieces short ∙ cut in
      (
        found.0
            ∙ ap (λ q. handle_lines pl opts to_text c q.0 x) parts
            ∙ handle_lines-commands c lines x words,
        found.1 ∙ ap (λ q. q.1) parts,
      )
