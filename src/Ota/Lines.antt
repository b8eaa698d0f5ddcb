-- ===== src/Ota/Lines.antt =====
-- The loop over the bytes of one `read` in `onReadable` of ota/OtaFlasher.cc. `lineBuf_` is a list
-- of bytes.
pub mod Split
use chassis_host.Common.{
  ℕ, Bool, true, false, ◌||◌, List, [], ◌∷◌, ◌++◌, Option, none, some, length, ltb, ◌==◌,
  if◌then◌else◌,
}

-- 8192: the longest line that is kept.
abbrev pub line_limit : ℕ
line_limit = 8192

abbrev pub is_eol : ℕ → Bool
is_eol c = (c == 0x0A) || (c == 0x0D)

-- `if (!lineBuf_.empty()) lineCb_(lineBuf_);`, in front of the lines that follow.
abbrev pub emit : List ℕ → List (List ℕ) → List (List ℕ)
emit [] lines = lines
emit (b ∷ bs) lines = (b ∷ bs) ∷ lines

-- `lineBuf_ += c;`, and the whole buffer goes when it has grown past the limit.
unfoldable pub add_char : ℕ → List ℕ → List ℕ
add_char c buf = let buf' = buf ++ (c ∷ []) in if ltb line_limit (length buf') then [] else buf'

-- What is left in the buffer, and the lines handed to `lineCb_`.
unfoldable pub take_chars : List ℕ → List ℕ → List ℕ × List (List ℕ)
unfolding add_char
take_chars [] buf = (buf, [])
take_chars (c ∷ cs) buf = elim (is_eol c) [
  | true ↦ (let (rest, lines) = take_chars cs [] in (rest, emit buf lines))
  | false ↦ take_chars cs (add_char c buf)
]

-- The reads of `for (;;)`, one after the other.
unfoldable pub take_reads : List (List ℕ) → List ℕ → List ℕ × List (List ℕ)
take_reads [] buf = (buf, [])
take_reads (bytes ∷ more) buf =
    let (buf', lines) = take_chars bytes buf in
    let (rest, lines') = take_reads more buf' in (rest, lines ++ lines')
