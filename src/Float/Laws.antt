-- ===== src/Float/Laws.antt =====
-- What IEEE 754 says of the comparisons, and of rounded arithmetic: rounding is monotone, so signs
-- and orders survive it.
use token_bucket_rate_limite.Prelude.{ℕ, ◌^◌, ◌≤◌, ◌<◌, ◌≡◌, ◌⊎◌, false, pos}
use token_bucket_rate_limite.Float.Defs.{Float, num, ◌≼◌, ◌≺◌, IsNan}

pub record IsOrdered (F : Type 0) ⦃fl : Float F⦄ : Type 0 where
  -- The order is total away from NaN.
  pub le_trans : (x y z : F) → x ≼ y → y ≼ z → x ≼ z
  pub refl_of_le : (x y : F) → x ≼ y → (x ≼ x) × (y ≼ y)
  pub le_of_lt : (x y : F) → x ≺ y → x ≼ y
  pub le_or_lt : (x y : F) → x ≼ x → y ≼ y → (x ≼ y) ⊎ (y ≺ x)
  pub lt-eq-false : (x y : F) → y ≼ x → fl.lt x y ≡ false
  pub le-eq-false : (x y : F) → x ≺ y → fl.le y x ≡ false
  -- NaN compares with nothing and spreads.
  pub lt_nan : (x y : F) → IsNan x → fl.lt x y ≡ false
  pub le_nan : (x y : F) → IsNan x → fl.le x y ≡ false
  pub add_nan : (x y : F) → IsNan x → IsNan (fl.add x y)
  pub mul_nan : (x y : F) → IsNan y → IsNan (fl.mul x y)
  -- Signs. `+Inf` is +∞, and 0 * +∞ is NaN.
  pub infinity : F
  pub zero-le-one : ◌≼◌ {F = F} (num 0) (num 1)
  pub zero-lt-one : ◌≺◌ {F = F} (num 0) (num 1)
  pub le-add_left : (x y : F) → num 0 ≼ x → num 0 ≼ y → x ≼ fl.add x y
  pub le-add_right : (x y : F) → num 0 ≼ x → num 0 ≼ y → y ≼ fl.add x y
  pub zero-le-mul :
      (x y : F) → num 0 ≼ x → num 0 ≼ y → x ≺ infinity → y ≺ infinity → num 0 ≼ fl.mul x y
  pub add_mono : (x y z : F) → num 0 ≼ x → num 0 ≼ y → y ≼ z → fl.add x y ≼ fl.add x z
  pub mul_mono :
      (x y z : F)
      → num 0 ≼ x
      → x ≼ y
      → num 0 ≼ z
      → y ≺ infinity
      → z ≺ infinity
      → fl.mul x z ≼ fl.mul y z
  pub add-le_left : (x y : F) → num 0 ≼ x → num 0 ≼ y → y ≼ num 0 → fl.add x y ≼ x
  pub mul-le-zero :
      (x y : F) → num 0 ≼ x → num 0 ≼ y → y ≼ num 0 → x ≺ infinity → fl.mul x y ≼ num 0
  pub zero-le-sub_one : (x : F) → num 1 ≼ x → num 0 ≼ fl.sub x (num 1)
  pub sub_one-le : (x : F) → num 1 ≼ x → fl.sub x (num 1) ≼ x
  -- Durations that are not negative, in seconds.
  pub zero-le-seconds : (d : ℕ) → d < 2 ^ 63 → num 0 ≼ fl.seconds (pos d)
  pub seconds-lt-infinity : (d : ℕ) → d < 2 ^ 63 → fl.seconds (pos d) ≺ infinity
  pub seconds_mono : (d e : ℕ) → d ≤ e → e < 2 ^ 63 → fl.seconds (pos d) ≼ fl.seconds (pos e)
  -- Neutral elements, and quotients of equal numbers.
  pub mul_one : (x : F) → fl.mul x (num 1) ≡ x
  pub add_zero : (x : F) → num 0 ≺ x → fl.add x (num 0) ≡ x
  pub zero-add-zero : fl.add (num 0) (num 0) ≡ num 0
  pub div_self : (n : ℕ) → 0 < n → n < 2 ^ 63 → fl.div (num n) (num n) ≡ num 1
  -- The weight of a window: a quotient of int64 values.
  pub zero-le-div : (a b : ℕ) → a < 2 ^ 63 → 0 < b → b < 2 ^ 63 → num 0 ≼ fl.div (num a) (num b)
  pub div-lt-infinity :
      (a b : ℕ) → a < 2 ^ 63 → 0 < b → b < 2 ^ 63 → fl.div (num a) (num b) ≺ infinity
  pub num-lt-infinity : (a : ℕ) → a < 2 ^ 63 → num a ≺ infinity
  pub zero-div-zero : IsNan (fl.div (num 0) (num 0))
