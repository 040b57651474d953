-- ===== src/Float/Exact.antt =====
-- Whole numbers up to 2^53 are float64 values, and arithmetic on them that stays in that range is
-- not rounded.
use token_bucket_rate_limite.Prelude.{ℕ, ◌+◌, ◌-◌, ◌*◌, ◌^◌, ◌≤◌, ◌<◌, ◌≡◌, pos, ltb, leb}
use token_bucket_rate_limite.Float.Defs.{Float, num}

abbrev pub exact_max : ℕ
exact_max = 2 ^ 53

pub record IsExact (F : Type 0) ⦃fl : Float F⦄ : Type 0 where
  pub lt-num : (a b : ℕ) → a ≤ exact_max → b ≤ exact_max → fl.lt (num a) (num b) ≡ ltb a b
  pub le-num : (a b : ℕ) → a ≤ exact_max → b ≤ exact_max → fl.le (num a) (num b) ≡ leb a b
  pub add-num : (a b : ℕ) → a + b ≤ exact_max → fl.add (num a) (num b) ≡ num (a + b)
  pub sub-num : (a b : ℕ) → a ≤ exact_max → b ≤ a → fl.sub (num a) (num b) ≡ num (a - b)
  pub mul-num : (a b : ℕ) → a * b ≤ exact_max → fl.mul (num a) (num b) ≡ num (a * b)
  pub div-num : (a b : ℕ) → a * b ≤ exact_max → 0 < b → fl.div (num (a * b)) (num b) ≡ num a
  pub floor-num : (a : ℕ) → a ≤ exact_max → fl.floor (num a) ≡ num a
  pub to_ℤ-num : (a : ℕ) → a ≤ exact_max → fl.to_ℤ (num a) ≡ pos a
  -- A whole number of seconds, in nanoseconds.
  pub seconds-num :
      (s : ℕ) → s * 1_000_000_000 < 2 ^ 63 → fl.seconds (pos (s * 1_000_000_000)) ≡ num s
