-- ===== src/Log/Level/Names.antt =====
-- `levelFromString` by the names of the levels.
use chassis_host.Common.{
  ℕ, zero, suc, ◌≡◌, ◌↔◌, ◌≤◌, refl, sym, ap, ap₂, ◌∙◌, Bool, true, ◌&&◌, some, List, [], ◌∷◌,
  length, map, take, ◌==◌, if◌then◌else◌, arith, Bool-cases, inl, inr, All,
}
use chassis_host.Log.Level.{
  LogLevel, trace, debug, info, warn, error, fatal, num_log_levels, lower, same_prefix, trimmed,
  is_name, level_names, find_level, level_from_string,
}

-- The names in lower case, without the spaces behind them.
abbrev pub word : LogLevel → List ℕ
word trace = 116 ∷ 114 ∷ 97 ∷ 99 ∷ 101 ∷ []
word debug = 100 ∷ 101 ∷ 98 ∷ 117 ∷ 103 ∷ []
word info = 105 ∷ 110 ∷ 102 ∷ 111 ∷ []
word warn = 119 ∷ 97 ∷ 114 ∷ 110 ∷ []
word error = 101 ∷ 114 ∷ 114 ∷ 111 ∷ 114 ∷ []
word fatal = 102 ∷ 97 ∷ 116 ∷ 97 ∷ 108 ∷ []
word num_log_levels = []

and_true : (a b : Bool) → (a && b) ≡ true → (a ≡ true) × (b ≡ true)
and_true a b h = ground (arith, h)

lower_idem : (c : ℕ) → lower (lower c) ≡ lower c
lower_idem c = ground arith

same_prefix-lower : (n : ℕ) (xs ys : List ℕ) → same_prefix n (map lower xs) ys ≡ same_prefix n xs ys
same_prefix-lower zero xs ys = refl
same_prefix-lower (suc n) [] [] = refl
same_prefix-lower (suc n) [] (y ∷ ys) = refl
same_prefix-lower (suc n) (x ∷ xs) [] = refl
same_prefix-lower (suc n) (x ∷ xs) (y ∷ ys) =
    ap₂ (λ c b. (c == lower y) && b) (lower_idem x) (same_prefix-lower n xs ys)

length-lower : (xs : List ℕ) → length (map lower xs) ≡ length xs
length-lower [] = refl
length-lower (x ∷ xs) = ap suc (length-lower xs)

is_name-lower :
    (name level_name : List ℕ) → is_name (map lower name) level_name ≡ is_name name level_name
unfolding is_name
is_name-lower name level_name =
    let len = trimmed level_name (length level_name) in
    ap₂ (λ b n. b && (n == len)) (same_prefix-lower len name level_name) (length-lower name)

find_level-lower :
    (ls : List (LogLevel × List ℕ)) (name : List ℕ)
    → find_level ls (map lower name) ≡ find_level ls name
find_level-lower [] name = refl
find_level-lower ((l, text) ∷ ls) name =
    ap₂ (λ b l'. if b then l else l') (is_name-lower name text) (find_level-lower ls name)

same_prefix-eq :
    (n : ℕ) (xs ys : List ℕ)
    → same_prefix n xs ys ≡ true
    → length xs ≡ n
    → n ≤ length ys
    → map lower xs ≡ map lower (take n ys)
same_prefix-eq zero [] ys h e fits = refl
same_prefix-eq zero (x ∷ xs) ys h e fits = absurd (omega (arith, e))
same_prefix-eq (suc n) [] ys h e fits = absurd (omega (arith, e))
same_prefix-eq (suc n) (x ∷ xs) [] h e fits = absurd (omega (arith, fits))
same_prefix-eq (suc n) (x ∷ xs) (y ∷ ys) h e fits =
    ap₂ (λ c cs. c ∷ cs) {x = lower x} {y = lower y} (ground (arith, h))
      (same_prefix-eq n xs ys (ground (arith, h)) (omega (arith, e)) (omega (arith, fits)))

abbrev table_name : LogLevel → List ℕ
table_name trace = 84 ∷ 82 ∷ 65 ∷ 67 ∷ 69 ∷ 32 ∷ []
table_name debug = 68 ∷ 69 ∷ 66 ∷ 85 ∷ 71 ∷ 32 ∷ []
table_name info = 73 ∷ 78 ∷ 70 ∷ 79 ∷ 32 ∷ 32 ∷ []
table_name warn = 87 ∷ 65 ∷ 82 ∷ 78 ∷ 32 ∷ 32 ∷ []
table_name error = 69 ∷ 82 ∷ 82 ∷ 79 ∷ 82 ∷ 32 ∷ []
table_name fatal = 70 ∷ 65 ∷ 84 ∷ 65 ∷ 76 ∷ 32 ∷ []
table_name num_log_levels = []

find_level-name :
    (ls : List (LogLevel × List ℕ)) (name : List ℕ) (l : LogLevel)
    → All (λ e. e.1 ≡ table_name e.0) ls
    → ¬ (l ≡ num_log_levels)
    → find_level ls name ≡ l
    → is_name name (table_name l) ≡ true
find_level-name [] name l h valid e = absurd (valid (sym e))
find_level-name ((l', text) ∷ ls) name l h valid e = elim (Bool-cases (is_name name text)) [
  | inl found ↦
      sym (
        ap (is_name name) (
          h.0 ∙ ap table_name (sym (sym e ∙ ap (λ b. if b then l' else find_level ls name) found))))
      ∙ found
  | inr other ↦
      find_level-name ls name l h.1 valid
        (sym (ap (λ b. if b then l' else find_level ls name) other) ∙ e)
]

abbrev name_length : LogLevel → ℕ
name_length l = trimmed (table_name l) (length (table_name l))

table_name-word : (l : LogLevel) → map lower (take (name_length l) (table_name l)) ≡ word l
table_name-word trace = refl
table_name-word debug = refl
table_name-word info = refl
table_name-word warn = refl
table_name-word error = refl
table_name-word fatal = refl
table_name-word num_log_levels = refl

name_length_le : (l : LogLevel) → name_length l ≤ length (table_name l)
name_length_le trace = omega arith
name_length_le debug = omega arith
name_length_le info = omega arith
name_length_le warn = omega arith
name_length_le error = omega arith
name_length_le fatal = omega arith
name_length_le num_log_levels = omega arith

is_name-word :
    (name : List ℕ) (l : LogLevel) → is_name name (table_name l) ≡ true → map lower name ≡ word l
unfolding is_name
is_name-word name l h =
    let (prefix, len) =
      and_true (same_prefix (name_length l) name (table_name l)) (length name == name_length l) h in
    same_prefix-eq (name_length l) name (table_name l) prefix (ground (arith, len))
      (name_length_le l)
    ∙ table_name-word l

find_level-word : (l : LogLevel) → find_level level_names (word l) ≡ l
unfolding is_name
find_level-word trace = refl
find_level-word debug = refl
find_level-word info = refl
find_level-word warn = refl
find_level-word error = refl
find_level-word fatal = refl
find_level-word num_log_levels = refl

-- A text is read as a level just when it is the name of the level in any mixture of cases.
pub level_from_string-word :
    (name : List ℕ) (l : LogLevel)
    → ¬ (l ≡ num_log_levels)
    → (level_from_string (some name) ≡ l) ↔ (map lower name ≡ word l)
unfolding level_from_string
level_from_string-word name l valid = (
  λ h. is_name-word name l (
      find_level-name level_names name l (refl, (refl, (refl, (refl, (refl, (refl, tt)))))) valid
        h),
  λ e. sym (find_level-lower level_names name) ∙ ap (find_level level_names) e ∙ find_level-word l,
)
