-- ===== src/Log/Logger/Text.antt =====
-- The text of a line as its format is described, and that the items of a statement make it.
use mathlib.Core.List.{append_assoc}
use chassis_host.Common.{
  ℕ, zero, suc, ◌+◌, ◌/◌, ◌%◌, ◌≡◌, refl, sym, ap, ap₂, ◌∙◌, Option, none, some, List, [], ◌∷◌,
  ◌++◌, arith,
}
use chassis_host.Common.Int.{pos}
use chassis_host.Log.Convert.{convert}
use chassis_host.Log.Stream.{Item}
use chassis_host.Log.Stream.Whole.{text_of, line_of}
use chassis_host.Log.Logger.{
  base_name, level_name, micro_text, Statement, errno_items, func_items, end_items, statement_items,
}

-- The last k decimal digits of n.
abbrev pub digits : ℕ → ℕ → List ℕ
digits zero n = []
digits (suc k) n = digits k (n / 10) ++ (48 + n % 10) ∷ []

-- "text (errno=n) " for an error, nothing for 0.
abbrev pub errno_part : ℕ → List ℕ → List ℕ
errno_part zero text = []
errno_part (suc n) text =
    text
    ++ ((32 ∷ 40 ∷ 101 ∷ 114 ∷ 114 ∷ 110 ∷ 111 ∷ 61 ∷ [])
        ++ (convert (pos (suc n)) ++ (41 ∷ 32 ∷ [])))

-- "[func] ", where there is a name.
abbrev pub func_part : Option (List ℕ) → List ℕ
func_part none = []
func_part (some func) = 91 ∷ (func ++ (93 ∷ 32 ∷ []))

-- " - file:line" and the end of the line.
abbrev pub place_part : List ℕ → ℕ → List ℕ
place_part file line = 32 ∷ 45 ∷ 32 ∷ (base_name file ++ (58 ∷ (convert (pos line) ++ (10 ∷ []))))

-- "YYYYmmdd HH:MM:SS.uuuuuu tid LEVEL " with the error and the function, then the values and the place.
abbrev pub line_text : List ℕ → ℕ → ℕ → Statement → List ℕ
line_text second micro tid s =
    second
    ++ ((46 ∷ (digits 6 (micro % 1000000) ++ (32 ∷ [])))
        ++ (convert (pos tid)
            ++ (32
                ∷ (level_name s.level
                    ++ (errno_part s.saved_errno s.errno_text
                        ++ (func_part s.func ++ (line_of s.values ++ place_part s.file s.line)))))))

micro_text-digits : (n : ℕ) → micro_text n ≡ 46 ∷ (digits 6 n ++ (32 ∷ []))
micro_text-digits n =
    let tail : List ℕ = (48 + n / 10 % 10) ∷ (48 + n % 10) ∷ 32 ∷ [] in
    ap₂ (λ (a b : ℕ × ℕ). 46 ∷ (48 + a.0) ∷ (48 + a.1) ∷ (48 + b.0) ∷ (48 + b.1) ∷ tail)
      (ap₂ (λ (a b : ℕ). (a, b)) (omega arith) (omega arith))
      (ap₂ (λ (a b : ℕ). (a, b)) (omega arith) (omega arith))

line_of-append : (xs ys : List Item) → line_of (xs ++ ys) ≡ line_of xs ++ line_of ys
line_of-append [] ys = refl
line_of-append (x ∷ xs) ys =
    ap (λ t. text_of x ++ t) (line_of-append xs ys)
    ∙ sym (append_assoc (text_of x) (line_of xs) (line_of ys))

errno_items-part : (n : ℕ) (text : List ℕ) → line_of (errno_items n text) ≡ errno_part n text
errno_items-part zero text = refl
errno_items-part (suc n) text = ground arith

func_items-part : (func : Option (List ℕ)) → line_of (func_items func) ≡ func_part func
func_items-part none = refl
func_items-part (some func) = refl

end_items-place : (s : Statement) → line_of (end_items s) ≡ place_part s.file s.line
unfolding end_items
end_items-place s = refl

rest_text :
    (s : Statement)
    → line_of
        (errno_items s.saved_errno s.errno_text ++ (func_items s.func ++ (s.values ++ end_items s)))
      ≡ errno_part s.saved_errno s.errno_text
        ++ (func_part s.func ++ (line_of s.values ++ place_part s.file s.line))
rest_text s =
    line_of-append (errno_items s.saved_errno s.errno_text) _
    ∙ ap₂ (λ (a b : List ℕ). a ++ b) (errno_items-part s.saved_errno s.errno_text)
        (line_of-append (func_items s.func) _
          ∙ ap₂ (λ (a b : List ℕ). a ++ b) (func_items-part s.func)
              (line_of-append s.values (end_items s)
                ∙ ap (λ t. line_of s.values ++ t) (end_items-place s)))

items_text-raw :
    (second : List ℕ) (micro tid : ℕ) (s : Statement)
    → line_of (statement_items second micro tid s)
      ≡ second
        ++ (micro_text (micro % 1000000)
            ++ (convert (pos tid)
                ++ (32
                    ∷ (level_name s.level
                        ++ line_of (
                            errno_items s.saved_errno s.errno_text
                            ++ (func_items s.func ++ (s.values ++ end_items s)))))))
items_text-raw second micro tid s = refl

pub statement_items-text :
    (second : List ℕ) (micro tid : ℕ) (s : Statement)
    → line_of (statement_items second micro tid s) ≡ line_text second micro tid s
statement_items-text second micro tid s =
    items_text-raw second micro tid s
    ∙ ap₂
        (λ (m r : List ℕ). second ++ (m ++ (convert (pos tid) ++ (32 ∷ (level_name s.level ++ r)))))
        (micro_text-digits (micro % 1000000)) (rest_text s)
