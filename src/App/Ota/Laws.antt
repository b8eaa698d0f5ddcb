-- ===== src/App/Ota/Laws.antt =====
-- What a firmware name that is accepted looks like.
use Prim.Native.Char.{Char, code}
use Prim.Native.String.{String, [], ◌∷◌}
use chassis_host.Common.{ℕ, ◌≡◌, true, false, arith}
use chassis_host.App.Ota.{is_name_char, all_name_chars, begins, has, is_safe_firmware_name}

-- No character of the text is a slash.
abbrev pub SlashFree : String → Type 0
SlashFree [] = Unit {0}
SlashFree (c ∷ s) = ¬ (code c ≡ 0x2F) × SlashFree s

name_char-no_slash : (n : ℕ) → is_name_char n ≡ true → ¬ (n ≡ 0x2F)
unfolding is_name_char
name_char-no_slash n h e = ground arith

name_chars-SlashFree : (s : String) → all_name_chars s ≡ true → SlashFree s
unfolding all_name_chars
name_chars-SlashFree [] h = tt
name_chars-SlashFree (c ∷ s) h =
    (name_char-no_slash (code c) (ground (arith, h)), name_chars-SlashFree s (ground (arith, h)))

-- The text does not begin with a point.
abbrev pub NoDotFirst : String → Type 0
NoDotFirst [] = Unit {0}
NoDotFirst (c ∷ s) = ¬ (code c ≡ 0x2E)

-- No point of the text is followed by another one.
abbrev pub DotsApart : String → Type 0
DotsApart [] = Unit {0}
DotsApart (c ∷ s) = (code c ≡ 0x2E → NoDotFirst s) × DotsApart s

no_dot_after : (c : Char) (s : String) → begins ".." (c ∷ s) ≡ false → code c ≡ 0x2E → NoDotFirst s
no_dot_after c [] h e = tt
no_dot_after c (d ∷ s) h e = λ e'. ground (arith, h)

has-DotsApart : (s : String) → has s ".." ≡ false → DotsApart s
has-DotsApart [] h = tt
has-DotsApart (c ∷ s) h =
    (no_dot_after c s (ground (arith, h)), has-DotsApart s (ground (arith, h)))

-- A firmware name that `isSafeFirmwareName` accepts has no slash, and nowhere two points in a row.
pub safe_name-SlashFree :
    (name : String) → is_safe_firmware_name name ≡ true → SlashFree name × DotsApart name
unfolding is_safe_firmware_name
safe_name-SlashFree name h =
    (name_chars-SlashFree name (ground (arith, h)), has-DotsApart name (ground (arith, h)))
