-- ===== src/Log/Stream.antt =====
-- `LogStream` of log/LogStream.h and log/LogStream.cc: one function per `operator<<`, on the buffer of
-- the stream. The text that `snprintf` makes of a double is an argument.
pub mod Pointer
pub mod Whole
use Prim.Native.Nat.{bit_and}
use chassis_host.Common.{
  ℕ, zero, suc, ◌+◌, ◌-◌, ◌*◌, ◌/◌, ◌^◌, Bool, true, false, Option, none, some, List, [], ◌∷◌, ◌++◌,
  length, get_or, ltb, leb, ◌==◌, if◌then◌else◌, u8,
}
use chassis_host.Common.Int.{ℤ, pos, negsuc}
use chassis_host.Log.Buffer.{FixedBuffer, avail, append, reset}
use chassis_host.Log.Convert.{convert}

abbrev pub max_numeric_size : ℕ
max_numeric_size = 32

abbrev pub put_bool : Bool → FixedBuffer → FixedBuffer
put_bool v b = append (if v then 49 ∷ [] else 48 ∷ []) b

abbrev pub put_char : ℕ → FixedBuffer → FixedBuffer
put_char c b = append (c ∷ []) b

-- "(null)" for a null pointer.
abbrev pub put_string : Option (List ℕ) → FixedBuffer → FixedBuffer
put_string (some str) b = append str b
put_string none b = append (40 ∷ 110 ∷ 117 ∷ 108 ∷ 108 ∷ 41 ∷ []) b

-- Text written into `tmp` if `kMaxNumericSize` bytes are free.
abbrev pub put_numeric : List ℕ → FixedBuffer → FixedBuffer
put_numeric text b = if leb max_numeric_size (avail b) then append text b else b

-- `formatInteger`, for every integer type; `signed char` and `unsigned char` are numbers here.
abbrev pub put_int : ℤ → FixedBuffer → FixedBuffer
put_int v b = put_numeric (convert v) b

abbrev pub hex_chars : List ℕ
hex_chars = 48 ∷ 49 ∷ 50 ∷ 51 ∷ 52 ∷ 53 ∷ 54 ∷ 55 ∷ 56 ∷ 57 ∷ 97 ∷ 98 ∷ 99 ∷ 100 ∷ 101 ∷ 102 ∷ []

abbrev pub nibble : ℕ → ℕ → ℕ
nibble v shift = bit_and (v / 2 ^ shift) 0xF

-- `k` half-bytes are left: `shift` is `4 * (k - 1)`, and below 0 when none is.
abbrev pub skip_zeros : ℕ → ℕ → ℕ
skip_zeros v zero = zero
skip_zeros v (suc k) = let rest = skip_zeros v k in if nibble v (4 * k) == 0 then rest else suc k

abbrev pub hex_text : ℕ → ℕ → List ℕ
hex_text v zero = []
hex_text v (suc k) = get_or hex_chars (nibble v (4 * k)) 0 ∷ hex_text v k

abbrev pub pointer_text : ℕ → List ℕ
pointer_text v = 48 ∷ 120 ∷ (if v == 0 then 48 ∷ [] else hex_text v (skip_zeros v 16))

abbrev pub put_pointer : ℕ → FixedBuffer → FixedBuffer
put_pointer v b = put_numeric (pointer_text v) b

-- `text` is what `snprintf` writes for "%.12g", empty when it fails.
abbrev pub put_double : List ℕ → FixedBuffer → FixedBuffer
put_double text b = put_numeric text b

-- The values that a line is put together from.
pub data Item : Type 0 where
  bool : Bool → Item
  char : ℕ → Item
  string : Option (List ℕ) → Item
  integer : ℤ → Item
  pointer : ℕ → Item
  double : List ℕ → Item

unfoldable pub put : FixedBuffer → Item → FixedBuffer
put b (bool v) = put_bool v b
put b (char c) = put_char c b
put b (string s) = put_string s b
put b (integer v) = put_int v b
put b (pointer v) = put_pointer v b
put b (double text) = put_double text b

-- A log line: one `operator<<` after the other.
unfoldable pub put_all : FixedBuffer → List Item → FixedBuffer
unfolding put
put_all b [] = b
put_all b (x ∷ xs) = put_all (put b x) xs
