-- ===== src/App/Lines/Tests.antt =====
-- Runs of the text protocol on small inputs, and the theorems at concrete inputs.
use chassis_host.Common.{ℕ, ◌≡◌, refl, none, some, List, [], ◌∷◌, ◌++◌, replicate, arith}
use chassis_host.App.Lines.{split_tokens, line_tokens}
use chassis_host.App.Lines.Chunks.{split, joined, read_pieces, read_pieces-split}
use chassis_host.App.Lines.LongLines.{read_pieces-late_part}

-- " v 1\t2 \r" and "  # v".
line_tokens_v :
    line_tokens (32 ∷ 118 ∷ 32 ∷ 49 ∷ 9 ∷ 50 ∷ 32 ∷ 13 ∷ [])
    ≡ some ((118 ∷ []) ∷ (49 ∷ []) ∷ (50 ∷ []) ∷ [])
unfolding line_tokens split_tokens
line_tokens_v = refl

line_tokens_comment : line_tokens (32 ∷ 32 ∷ 35 ∷ 32 ∷ 118 ∷ []) ≡ none
unfolding line_tokens
line_tokens_comment = refl

-- "st", "op\nv 1", "\nen".
abbrev three_pieces : List (List ℕ)
three_pieces = (115 ∷ 116 ∷ []) ∷ (111 ∷ 112 ∷ 10 ∷ 118 ∷ 32 ∷ 49 ∷ []) ∷ (10 ∷ 101 ∷ 110 ∷ []) ∷ []

read_pieces-split_example : read_pieces three_pieces [] ≡ split (joined three_pieces)
read_pieces-split_example = read_pieces-split three_pieces (omega arith, (omega arith, omega arith))

-- 600 bytes "x", and then "stop" and the end of the line.
abbrev six_hundred : List ℕ
six_hundred = replicate 600 120

abbrev late_stop : List ℕ
late_stop = 115 ∷ 116 ∷ 111 ∷ 112 ∷ []

read_pieces-late_part_example :
    (read_pieces ((six_hundred ++ (late_stop ++ (10 ∷ []))) ∷ []) [] ≡ ([], []))
    × (read_pieces (six_hundred ∷ ((late_stop ++ (10 ∷ [])) ∷ [])) [] ≡ (late_stop ∷ [], []))
read_pieces-late_part_example =
    read_pieces-late_part six_hundred late_stop refl refl (omega arith) (omega arith)
