-- ===== src/App/Lines/Words.antt =====
-- What a client means by a line, and that `handleLine` takes it so: the words of a line of words.
use mathlib.Core.List.{append_assoc, append-nil}
use chassis_host.Common.{
  ℕ, ◌≡◌, refl, sym, ap, ◌∙◌, true, false, some, List, [], ◌∷◌, ◌++◌, All, arith,
}
use chassis_host.App.Lines.{
  is_blank_end, strip_end, strip_start, is_space, add_word, words_from, split_tokens, tokens_from,
  line_tokens,
}

-- A word has no white space.
abbrev pub IsLetter : ℕ → Type 0
IsLetter c = is_space c ≡ false

abbrev IsGap : ℕ → Type 0
IsGap c = is_space c ≡ true

abbrev IsEnd : ℕ → Type 0
IsEnd c = is_blank_end c ≡ true

-- A line of words: the first word, by its first byte and its others; then the white space in front of
-- each further word, by its first byte and its others, with the word; and what ends the line.
pub record WordLine : Type 0 where
  pub first : ℕ
  pub letters : List ℕ
  pub more : List ((ℕ × List ℕ) × (ℕ × List ℕ))
  pub end : List ℕ

abbrev pub bytes_of : List ((ℕ × List ℕ) × (ℕ × List ℕ)) → List ℕ
bytes_of [] = []
bytes_of (((g, gap), (c, word)) ∷ more) = g ∷ (gap ++ (c ∷ (word ++ bytes_of more)))

-- The bytes of the line, and its words.
abbrev pub line_bytes : WordLine → List ℕ
line_bytes l = l.first ∷ (l.letters ++ (bytes_of l.more ++ l.end))

abbrev pub words_of : List ((ℕ × List ℕ) × (ℕ × List ℕ)) → List (List ℕ)
words_of [] = []
words_of ((gap, (c, word)) ∷ more) = (c ∷ word) ∷ words_of more

abbrev pub line_words : WordLine → List (List ℕ)
line_words l = (l.first ∷ l.letters) ∷ words_of l.more

abbrev pub AreWords : List ((ℕ × List ℕ) × (ℕ × List ℕ)) → Type 0
AreWords [] = Unit {0}
AreWords (((g, gap), (c, word)) ∷ more) =
    IsGap g × (All IsGap gap × (IsLetter c × (All IsLetter word × AreWords more)))

-- The words are words, the first one does not begin with '#', and the line ends with spaces and '\r' at
-- most.
abbrev pub IsWordLine : WordLine → Type 0
IsWordLine l =
    IsLetter l.first
    × (¬ (l.first ≡ 35) × (All IsLetter l.letters × (AreWords l.more × All IsEnd l.end)))

letter-read :
    (c : ℕ) (acc rest : List ℕ)
    → IsLetter c
    → words_from acc (c ∷ rest) ≡ words_from (acc ++ (c ∷ [])) rest
letter-read c acc rest h =
    ap
      (λ b. elim b [
        | true ↦ add_word acc (words_from [] rest)
        | false ↦ words_from (acc ++ (c ∷ [])) rest
      ])
      h

space-read :
    (c : ℕ) (acc rest : List ℕ)
    → IsGap c
    → words_from acc (c ∷ rest) ≡ add_word acc (words_from [] rest)
space-read c acc rest h =
    ap
      (λ b. elim b [
        | true ↦ add_word acc (words_from [] rest)
        | false ↦ words_from (acc ++ (c ∷ [])) rest
      ])
      h

letters-read :
    (w acc rest : List ℕ) → All IsLetter w → words_from acc (w ++ rest) ≡ words_from (acc ++ w) rest
letters-read [] acc rest h = ap (λ a. words_from a rest) (sym (append-nil acc))
letters-read (c ∷ w) acc rest h =
    letter-read c acc (w ++ rest) h.0
    ∙ letters-read w (acc ++ (c ∷ [])) rest h.1
    ∙ ap (λ a. words_from a rest) (append_assoc acc (c ∷ []) w)

gap-read : (gap rest : List ℕ) → All IsGap gap → words_from [] (gap ++ rest) ≡ words_from [] rest
gap-read [] rest h = refl
gap-read (g ∷ gap) rest h = space-read g [] (gap ++ rest) h.0 ∙ gap-read gap rest h.1

word-read :
    (c : ℕ) (word : List ℕ) (more : List ((ℕ × List ℕ) × (ℕ × List ℕ)))
    → IsLetter c
    → All IsLetter word
    → AreWords more
    → words_from [] (c ∷ (word ++ bytes_of more)) ≡ (c ∷ word) ∷ words_of more
word-read c word [] hc hw hm = letters-read (c ∷ word) [] [] (hc, hw)
word-read c word (((g, gap), (d, next)) ∷ more) hc hw (hg, (hgap, (hd, (hn, hm)))) =
    letters-read (c ∷ word) [] (bytes_of (((g, gap), (d, next)) ∷ more)) (hc, hw)
    ∙ space-read g (c ∷ word) (gap ++ (d ∷ (next ++ bytes_of more))) hg
    ∙ ap (λ ws. (c ∷ word) ∷ ws)
        (gap-read gap (d ∷ (next ++ bytes_of more)) hgap ∙ word-read d next more hd hn hm)

strip_end-blank : (end : List ℕ) → All IsEnd end → strip_end end ≡ []
strip_end-blank [] h = refl
strip_end-blank (c ∷ cs) h = rw (strip_end-blank cs h.1) (rw h.0 refl)

-- What has something left at its end keeps what stands in front.
strip_end-behind :
    (c : ℕ) (rest : List ℕ) (d : ℕ) (ds : List ℕ)
    → strip_end rest ≡ d ∷ ds
    → strip_end (c ∷ rest) ≡ c ∷ (d ∷ ds)
strip_end-behind c rest d ds h = rw h refl

strip_end-last :
    (c : ℕ) (rest : List ℕ)
    → strip_end rest ≡ []
    → is_blank_end c ≡ false
    → strip_end (c ∷ rest) ≡ c ∷ []
strip_end-last c rest h k = rw h (rw k refl)

letter_no_end : (c : ℕ) → IsLetter c → is_blank_end c ≡ false
letter_no_end c h = ground (arith, h)

strip_end-word :
    (c : ℕ) (word end : List ℕ)
    → IsLetter c
    → All IsLetter word
    → All IsEnd end
    → strip_end (c ∷ (word ++ end)) ≡ c ∷ word
strip_end-word c [] end hc hw he =
    strip_end-last c end (strip_end-blank end he) (letter_no_end c hc)
strip_end-word c (d ∷ word) end hc hw he =
    strip_end-behind c (d ∷ (word ++ end)) d word (strip_end-word d word end hw.0 hw.1 he)

strip_end-front :
    (xs rest : List ℕ) (d : ℕ) (ds : List ℕ)
    → strip_end rest ≡ d ∷ ds
    → strip_end (xs ++ rest) ≡ xs ++ (d ∷ ds)
strip_end-front [] rest d ds h = h
strip_end-front (x ∷ []) rest d ds h = strip_end-behind x rest d ds h
strip_end-front (x ∷ (y ∷ xs)) rest d ds h =
    strip_end-behind x (y ∷ (xs ++ rest)) y (xs ++ (d ∷ ds)) (strip_end-front (y ∷ xs) rest d ds h)

strip_end-words :
    (c : ℕ) (word : List ℕ) (more : List ((ℕ × List ℕ) × (ℕ × List ℕ))) (end : List ℕ)
    → IsLetter c
    → All IsLetter word
    → AreWords more
    → All IsEnd end
    → strip_end (c ∷ (word ++ (bytes_of more ++ end))) ≡ c ∷ (word ++ bytes_of more)
strip_end-words c word [] end hc hw hm he =
    strip_end-word c word end hc hw he ∙ ap (λ w. c ∷ w) (sym (append-nil word))
strip_end-words c word (((g, gap), (d, next)) ∷ more) end hc hw (hg, (hgap, (hd, (hn, hm)))) he =
    let rest : List ℕ = d ∷ (next ++ bytes_of more) in
    let rest_end : List ℕ = d ∷ (next ++ (bytes_of more ++ end)) in
    let regroup : g ∷ ((gap ++ rest) ++ end) ≡ g ∷ (gap ++ rest_end) =
      ap (λ t. g ∷ t)
        (append_assoc gap rest end
          ∙ ap (λ t. gap ++ (d ∷ t)) (append_assoc next (bytes_of more) end)) in
    ap (λ t. strip_end ((c ∷ word) ++ t)) regroup
    ∙ strip_end-front (c ∷ word) (g ∷ (gap ++ rest_end)) g (gap ++ rest) (
        strip_end-front (g ∷ gap) rest_end d (next ++ bytes_of more)
          (strip_end-words d next more end hd hn hm he))

strip_start-letter : (c : ℕ) (cs : List ℕ) → IsLetter c → strip_start (c ∷ cs) ≡ c ∷ cs
strip_start-letter c cs h = ground (arith, h)

tokens_from-letter :
    (c : ℕ) (cs : List ℕ) → ¬ (c ≡ 35) → tokens_from (c ∷ cs) ≡ some (split_tokens (c ∷ cs))
unfolding tokens_from
tokens_from-letter c cs h = ground (arith, h)

-- The tokens of a line of words are its words.
pub line_tokens-words :
    (l : WordLine) → IsWordLine l → line_tokens (line_bytes l) ≡ some (line_words l)
unfolding line_tokens split_tokens
line_tokens-words l (hc, (no_comment, (hw, (hm, he)))) =
    let body : List ℕ = l.letters ++ bytes_of l.more in
    ap (λ t. tokens_from (strip_start t))
      (strip_end-words l.first l.letters l.more l.end hc hw hm he)
    ∙ ap tokens_from (strip_start-letter l.first body hc)
    ∙ tokens_from-letter l.first body no_comment
    ∙ ap (λ t. some t) (word-read l.first l.letters l.more hc hw hm)
