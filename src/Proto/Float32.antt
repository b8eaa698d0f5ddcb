-- ===== src/Proto/Float32.antt =====
-- `float`, `lround` and the float literals of proto/FrameCodec.cc: the language's, not the program's,
-- so they are a parameter. What the program relies on is that `memcpy` to and from a 32-bit word
-- loses nothing.
use chassis_host.Common.{ℕ, ◌^◌, ◌<◌, ◌≡◌, Bool}
use chassis_host.Common.Int.{ℤ}

pub record Float32 : Type 1 where
  pub Float : Type 0
  -- The object representation, and the float that has it.
  pub bits : Float → ℕ
  pub of_bits : ℕ → Float
  -- `static_cast<float>` of an int16_t, `/`, `*`, `>`, `<` and `lround`.
  pub of_int : ℤ → Float
  pub divide : Float → Float → Float
  pub times : Float → Float → Float
  pub greater : Float → Float → Bool
  pub less : Float → Float → Bool
  pub lround : Float → ℤ
  -- 10.0f, 100.0f, 1000.0f, 3276.7f and -3276.8f.
  pub ten : Float
  pub hundred : Float
  pub thousand : Float
  pub rpm_top : Float
  pub rpm_bottom : Float
  pub bits-lt : (x : Float) → bits x < 2 ^ 32
  pub of_bits-bits : (x : Float) → of_bits (bits x) ≡ x

-- Three elements of a C array.
pub record Triple {ℓ} (A : Type ℓ) : Type ℓ where
  pub e0 : A
  pub e1 : A
  pub e2 : A

-- `for (int i = 0; i < 3; ++i)` over an array that each round sets at i.
abbrev pub triple {ℓ} : {A : Type ℓ} → (ℕ → A) → Triple A
triple g = record { e0 = g 0; e1 = g 1; e2 = g 2 }
