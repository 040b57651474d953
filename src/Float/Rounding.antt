-- ===== src/Float/Rounding.antt =====
-- What IEEE 754 and Go say of quotients, of math.Ceil and of the conversion to an int64, for numbers
-- that have one.
use token_bucket_rate_limite.Prelude.{ℕ, ◌^◌, ◌≤◌, ◌<◌, ◌≡◌, ◌≤ℤ◌}
use token_bucket_rate_limite.Float.Defs.{Float, num, ◌≼◌}
use token_bucket_rate_limite.Float.Exact.{exact_max}

pub record IsMonotone (F : Type 0) ⦃fl : Float F⦄ : Type 0 where
  pub div_mono :
      (a b c : ℕ)
      → a ≤ b
      → b < 2 ^ 63
      → 0 < c
      → c < 2 ^ 63
      → fl.div (num a) (num c) ≼ fl.div (num b) (num c)
  pub ceil_mono : (x y : F) → x ≼ y → fl.ceil x ≼ fl.ceil y
  pub ceil-num : (a : ℕ) → a ≤ exact_max → fl.ceil (num a) ≡ num a
  pub to_ℤ_mono : (x y : F) → num 0 ≼ x → x ≼ y → y ≼ num exact_max → fl.to_ℤ x ≤ℤ fl.to_ℤ y
