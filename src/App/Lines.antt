-- ===== src/App/Lines.antt =====
-- The text protocol of app/ChassisHost.cc from bytes to tokens: onMessage, handleLine and splitTokens.
-- A std::string is a list of bytes here, and its text in the commands' modules is `to_text`.
pub mod Chunks
pub mod LongLines
pub mod Words
mod Tests
use Prim.Native.String.{String}
use chassis_host.Common.{
  ℕ, zero, suc, ◌+◌, ◌-◌, Bool, true, false, ◌&&◌, ◌||◌, Option, none, some, List, [], ◌∷◌, ◌++◌,
  map, length, take, drop, ltb, leb, ◌==◌, if◌then◌else◌,
}
use chassis_host.Link.ConSm.{ConSm}
use chassis_host.App.Defs.{Platform, Host, HostOptions}
use chassis_host.App.Dispatch.{handle_command}

abbrev pub max_line_len : ℕ
max_line_len = 512

abbrev pub one_later : Option ℕ → Option ℕ
one_later none = none
one_later (some n) = some (suc n)

-- `buf->findEOL()`: how many bytes stand in front of the first '\n'.
abbrev pub find_eol : List ℕ → Option ℕ
find_eol [] = none
find_eol (c ∷ cs) = if c == 10 then some 0 else one_later (find_eol cs)

-- One turn of the loop of `onMessage`, with what the turns from the next line on give.
abbrev pub message_turn : Option ℕ → List ℕ → (ℕ → List (List ℕ) × List ℕ) → List (List ℕ) × List ℕ
message_turn none buf go_on = ([], if ltb max_line_len (length buf) then [] else buf)
message_turn (some len) buf go_on =
    let (lines, rest) = go_on len in
    (if leb len max_line_len then take len buf ∷ lines else lines, rest)

-- The lines that go to `handleLine`, and what stays in the buffer. Each turn that goes on retrieves at
-- least one byte.
unfoldable pub message_loop : ℕ → List ℕ → List (List ℕ) × List ℕ
message_loop zero buf = ([], buf)
message_loop (suc fuel) buf =
    message_turn (find_eol buf) buf (λ len. message_loop fuel (drop (suc len) buf))

unfoldable pub read_lines : List ℕ → List (List ℕ) × List ℕ
unfolding message_loop
read_lines buf = message_loop (suc (length buf)) buf

abbrev pub is_blank_end : ℕ → Bool
is_blank_end c = (c == 13) || (c == 32)

-- `while (… line.back() == '\r' || line.back() == ' ') line.pop_back()`.
abbrev pub strip_end : List ℕ → List ℕ
strip_end [] = []
strip_end (c ∷ cs) = elim (strip_end cs) [
  | [] ↦ if is_blank_end c then [] else c ∷ []
  | d ∷ ds ↦ c ∷ (d ∷ ds)
]

-- From `find_first_not_of(" \t")` on.
abbrev pub strip_start : List ℕ → List ℕ
strip_start [] = []
strip_start (c ∷ cs) = let rest = strip_start cs in if (c == 32) || (c == 9) then rest else c ∷ cs

-- White space for `iss >> w` in the C locale.
abbrev pub is_space : ℕ → Bool
is_space c = (c == 32) || (leb 9 c && leb c 13)

abbrev pub add_word : List ℕ → List (List ℕ) → List (List ℕ)
add_word [] words = words
add_word (c ∷ cs) words = (c ∷ cs) ∷ words

-- The word that is being read, and the text.
abbrev pub words_from : List ℕ → List ℕ → List (List ℕ)
words_from word [] = add_word word []
words_from word (c ∷ cs) = elim (is_space c) [
  | true ↦ add_word word (words_from [] cs)
  | false ↦ words_from (word ++ (c ∷ [])) cs
]

unfoldable pub split_tokens : List ℕ → List (List ℕ)
split_tokens line = words_from [] line

-- The tokens that `handleLine` hands on; `none` for an empty line or a comment.
abbrev tokens_from : List ℕ → Option (List (List ℕ))
unfolding split_tokens
tokens_from [] = none
tokens_from (c ∷ cs) = if c == 35 then none else some (split_tokens (c ∷ cs))

unfoldable pub line_tokens : List ℕ → Option (List (List ℕ))
unfolding tokens_from
line_tokens line = tokens_from (strip_start (strip_end line))

module _ (pl : Platform) (opts : HostOptions) (to_text : List ℕ → String) where
  abbrev pub command_of : ℕ → Option (List (List ℕ)) → ConSm × Host pl → ConSm × Host pl
  command_of c none x = x
  command_of c (some tok) x = handle_command pl opts c (map to_text tok) x

  unfoldable pub handle_line : ℕ → List ℕ → ConSm × Host pl → ConSm × Host pl
  unfolding line_tokens
  handle_line c line x = command_of c (line_tokens line) x

  abbrev pub handle_lines : ℕ → List (List ℕ) → ConSm × Host pl → ConSm × Host pl
  handle_lines c [] x = x
  handle_lines c (line ∷ lines) x = handle_lines c lines (handle_line c line x)

  -- What is left in the connection's buffer, and the host.
  unfoldable pub on_message : ℕ → List ℕ → ConSm × Host pl → List ℕ × (ConSm × Host pl)
  unfolding read_lines
  on_message c buf x = let (lines, rest) = read_lines buf in (rest, handle_lines c lines x)
