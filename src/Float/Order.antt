-- ===== src/Float/Order.antt =====
-- The failed comparisons: what holds where a test of the code is false, NaN included.
use token_bucket_rate_limite.Prelude.{
  ◌≡◌, ◌↔◌, ◌⊎◌, if◌then◌else◌, inl, inr, false, arith, Bool-cases,
}
use token_bucket_rate_limite.Float.Defs.{Float, num, ◌≼◌, ◌≺◌, IsNan}
use token_bucket_rate_limite.Float.Laws.{IsOrdered}

module _ {F : Type 0} ⦃fl : Float F⦄ (laws : IsOrdered F) where
  open laws use {
    le_or_lt, refl_of_le, lt-eq-false, le-eq-false, le_nan, lt_nan, zero-le-one, le_trans, le_of_lt,
  }

  pub zero_refl : ◌≼◌ {F = F} (num 0) (num 0)
  zero_refl = (refl_of_le (num 0) (num 1) zero-le-one).0

  pub one_refl : ◌≼◌ {F = F} (num 1) (num 1)
  one_refl = (refl_of_le (num 0) (num 1) zero-le-one).1

  pub le-eq-false_iff : (x y : F) → y ≼ y → (fl.le x y ≡ false) ↔ ((y ≺ x) ⊎ IsNan x)
  le-eq-false_iff x y r = elim (Bool-cases (fl.le x x)) [
    | inl num ↦ ground (arith, le_or_lt x y num r, le-eq-false y x, le_nan x y)
    | inr nan ↦ ground (arith, le_nan x y nan)
  ]

  lt_of_lt_of_le : (x y z : F) → x ≺ y → y ≼ z → x ≺ z
  lt_of_lt_of_le x y z h k = ground (
    arith,
    refl_of_le y z k,
    refl_of_le x y (le_of_lt x y h),
    le_or_lt z x,
    le_trans y z x,
    le-eq-false x y,
  )

  pub lt_of_le_of_lt : (x y z : F) → x ≼ y → y ≺ z → x ≺ z
  lt_of_le_of_lt x y z h k = ground (
    arith,
    refl_of_le x y h,
    refl_of_le y z (le_of_lt y z k),
    le_or_lt z x,
    le_trans z x y,
    le-eq-false y z,
  )

  pub lt-eq-false_iff : (x y : F) → y ≼ y → (fl.lt x y ≡ false) ↔ ((y ≼ x) ⊎ IsNan x)
  lt-eq-false_iff x y r = elim (Bool-cases (fl.le x x)) [
    | inl num ↦ ground (arith, le_or_lt y x r num, lt-eq-false x y, lt_nan x y)
    | inr nan ↦ ground (arith, lt_nan x y nan)
  ]

  -- `if g > c { g = c }`
  pub capped_bounds :
      (t c g : F) → t ≼ c → t ≼ g → let r = if fl.lt c g then c else g in (t ≼ r) × (r ≼ c)
  capped_bounds t c g h k =
      ground (arith, refl_of_le t c h, refl_of_le t g k, le_or_lt g c, lt-eq-false_iff c g)

  -- A larger value stays larger when both are capped.
  pub capped_mono :
      (c g h : F) → c ≼ c → g ≼ h → (if fl.lt c g then c else g) ≼ (if fl.lt c h then c else h)
  capped_mono c g h r k = ground (
    arith,
    refl_of_le g h k,
    le_or_lt g c,
    le_or_lt h c,
    le_of_lt c h,
    le_trans g c h,
    le_trans c g h,
    lt-eq-false_iff c g,
    lt-eq-false_iff c h,
    lt_of_lt_of_le c g h,
  )
