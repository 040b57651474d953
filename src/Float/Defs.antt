-- ===== src/Float/Defs.antt =====
-- The operations on float64 that the code uses.
use token_bucket_rate_limite.Prelude.{ℕ, ◌≡◌, Bool, true, false, ℤ}

pub record Float (F : Type 0) : Type 0 where
  pub add : F → F → F
  pub sub : F → F → F
  pub mul : F → F → F
  pub div : F → F → F
  -- `a < b` and `a <= b`: false where one side is NaN. `a > b` is `lt b a`.
  pub lt : F → F → Bool
  pub le : F → F → Bool
  -- math.Floor, math.Ceil and math.Max
  pub floor : F → F
  pub ceil : F → F
  pub max : F → F → F
  -- float64(n) of an int64, and the int64 of the conversion back, which is left open where the
  -- value is NaN or out of range
  pub of_ℤ : ℤ → F
  pub to_ℤ : F → ℤ
  -- time.Duration.Seconds
  pub seconds : ℤ → F

-- The numeric constants of the code.
module _ {F : Type 0} ⦃fl : Float F⦄ where
  abbrev pub num : ℕ → F
  num n = fl.of_ℤ (ℤ.pos n)

  -- The comparisons as statements.
  infix 4 ◌≼◌ ◌≺◌
  abbrev pub ◌≼◌ : F → F → Type 0
  x ≼ y = fl.le x y ≡ true

  abbrev pub ◌≺◌ : F → F → Type 0
  x ≺ y = fl.lt x y ≡ true

  -- NaN is the value that is not `<=` itself.
  abbrev pub IsNan : F → Type 0
  IsNan x = fl.le x x ≡ false
