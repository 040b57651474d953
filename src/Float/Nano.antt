-- ===== src/Float/Nano.antt =====
-- A type of numbers that has the laws of `IsOrdered` and `IsExact`: billionths, rounded down and
-- stopped at 0, with +∞ and NaN. The tests run on it.
use token_bucket_rate_limite.Prelude.{
  ℕ, ◌+◌, ◌-◌, ◌*◌, ◌/◌, ◌≤◌, ◌<◌, ◌≡◌, refl, Bool, true, false, ℤ, pos, negsuc, arith, ltb, leb,
  ◌==◌, if◌then◌else◌,
}
use native.Mathlib.Nat.{div-eq_of_eq-mul_left, le-div_iff_mul-le, mul-div-le, mul-le-mul, le_refl}
use token_bucket_rate_limite.Float.Defs.{Float}
use token_bucket_rate_limite.Float.Laws.{IsOrdered}
use token_bucket_rate_limite.Float.Exact.{IsExact}
use token_bucket_rate_limite.Float.Rounding.{IsMonotone}

pub data Nano : Type 0 where
  nan inf : Nano
  fin : ℕ → Nano

abbrev giga : ℕ
giga = 1_000_000_000

abbrev add : Nano → Nano → Nano
add nan y = nan
add x nan = nan
add (fin a) (fin b) = fin (a + b)
add _ _ = inf

abbrev sub : Nano → Nano → Nano
sub nan y = nan
sub x nan = nan
sub (fin a) (fin b) = fin (a - b)
sub (fin a) inf = fin 0
sub inf (fin b) = inf
sub inf inf = nan

abbrev times_inf : ℕ → Nano
times_inf a = if a == 0 then nan else inf

abbrev mul : Nano → Nano → Nano
mul nan y = nan
mul x nan = nan
mul (fin a) (fin b) = fin (a * b / giga)
mul (fin a) inf = times_inf a
mul inf (fin b) = times_inf b
mul inf inf = inf

abbrev div : Nano → Nano → Nano
div nan y = nan
div x nan = nan
div (fin a) (fin b) = if b == 0 then (if a == 0 then nan else inf) else fin (a * giga / b)
div (fin a) inf = fin 0
div inf (fin b) = inf
div inf inf = nan

abbrev lt : Nano → Nano → Bool
lt (fin a) (fin b) = ltb a b
lt (fin a) inf = true
lt _ _ = false

abbrev le : Nano → Nano → Bool
le (fin a) (fin b) = leb a b
le (fin a) inf = true
le inf inf = true
le _ _ = false

abbrev floor : Nano → Nano
floor (fin a) = fin (a / giga * giga)
floor x = x

abbrev ceil : Nano → Nano
ceil (fin a) = fin ((a + (giga - 1)) / giga * giga)
ceil x = x

abbrev max : Nano → Nano → Nano
max nan y = nan
max x nan = nan
max (fin a) (fin b) = if ltb a b then fin b else fin a
max _ _ = inf

abbrev of_ℤ : ℤ → Nano
of_ℤ (pos n) = fin (n * giga)
of_ℤ (negsuc n) = fin 0

abbrev to_ℤ : Nano → ℤ
to_ℤ (fin a) = pos (a / giga)
to_ℤ _ = negsuc (9_223_372_036_854_775_807)

abbrev seconds : ℤ → Nano
seconds (pos d) = fin d
seconds (negsuc d) = fin 0

instance abbrev pub nano_float : Float Nano
nano_float = record {
  add = add;
  sub = sub;
  mul = mul;
  div = div;
  lt = lt;
  le = le;
  floor = floor;
  ceil = ceil;
  max = max;
  of_ℤ = of_ℤ;
  to_ℤ = to_ℤ;
  seconds = seconds;
}

div-num_lem : (a b : ℕ) → 0 < b → a * b * giga * giga / (b * giga) ≡ a * giga
div-num_lem a b h =
    div-eq_of_eq-mul_left {n = b * giga} {m = a * b * giga * giga} {k = a * giga} (omega arith)
      (omega arith)

div_self_lem : (n : ℕ) → 0 < n → n * giga * giga / (n * giga) ≡ giga
div_self_lem n h =
    div-eq_of_eq-mul_left {n = n * giga} {m = n * giga * giga} {k = giga} (omega arith)
      (omega arith)

mul-div_mono : (a b c : ℕ) → a ≤ b → a * c / giga ≤ b * c / giga
mul-div_mono a b c h = omega (arith, mul-le-mul h (le_refl c))

mul_mono_lem :
    (x y z : Nano)
    → le (fin 0) x ≡ true
    → le x y ≡ true
    → le (fin 0) z ≡ true
    → lt y inf ≡ true
    → lt z inf ≡ true
    → le (mul x z) (mul y z) ≡ true
mul_mono_lem (fin a) (fin b) (fin c) p q r s t = ground (arith, mul-div_mono a b c)
mul_mono_lem x y z p q r s t = ground arith

pub Nano-IsOrdered : IsOrdered Nano
Nano-IsOrdered = record {
  le_trans = ground arith;
  refl_of_le = ground arith;
  le_of_lt = ground arith;
  le_or_lt = ground arith;
  lt-eq-false = ground arith;
  le-eq-false = ground arith;
  lt_nan = ground arith;
  le_nan = ground arith;
  add_nan = ground arith;
  mul_nan = ground arith;
  infinity = inf;
  zero-le-one = refl;
  zero-lt-one = refl;
  le-add_left = ground arith;
  le-add_right = ground arith;
  zero-le-mul = ground arith;
  add_mono = ground arith;
  mul_mono = mul_mono_lem;
  add-le_left = ground arith;
  mul-le-zero = ground arith;
  zero-le-sub_one = ground arith;
  sub_one-le = ground arith;
  zero-le-seconds = ground arith;
  seconds-lt-infinity = ground arith;
  seconds_mono = ground arith;
  mul_one = ground arith;
  add_zero = ground arith;
  zero-add-zero = refl;
  div_self = λ n h lt. ground (arith, div_self_lem n h);
  zero-le-div = ground arith;
  div-lt-infinity = ground arith;
  num-lt-infinity = ground arith;
  zero-div-zero = refl;
}

pub Nano-IsExact : IsExact Nano
Nano-IsExact = record {
  lt-num = ground arith;
  le-num = ground arith;
  add-num = ground arith;
  sub-num = ground arith;
  mul-num = ground arith;
  div-num = λ a b e h. ground (arith, div-num_lem a b h);
  floor-num = ground arith;
  to_ℤ-num = ground arith;
  seconds-num = ground arith;
}

div_mono_lem : (x y k : ℕ) → 0 < k → x ≤ y → x / k ≤ y / k
div_mono_lem x y k h le =
    (le-div_iff_mul-le {k = k} {x = x / k} {y = y} h).1 (omega (arith, mul-div-le x k))

pub Nano-IsMonotone : IsMonotone Nano
Nano-IsMonotone = record {
  div_mono = λ a b c le fits some small. ground (
    arith,
    div_mono_lem (a * giga * giga) (b * giga * giga) (c * giga) (omega arith) (omega arith),
  );
  ceil_mono = ground arith;
  ceil-num = ground arith;
  to_ℤ_mono = ground arith;
}
