-- ===== src/Clock.antt =====
-- The parts of Go's package time that the limiters use. A time.Time is a number of nanoseconds from
-- a fixed instant, a time.Duration an int64 of nanoseconds.
use token_bucket_rate_limite.Prelude.{
  ℕ, ◌+◌, ◌-◌, ◌*◌, ◌^◌, ◌≤◌, ◌<◌, ◌≡◌, ℤ, pos, negsuc, pos_part, neg_part, ◌+ℤ◌, ◌-ℤ◌, ◌≤ℤ◌, List,
  [], ◌∷◌, arith, ltb, if◌then◌else◌,
}

abbrev pub Time : Type 0
Time = ℤ

abbrev pub Duration : Type 0
Duration = ℤ

abbrev pub max_duration : ℕ
max_duration = 2 ^ 63 - 1

-- A difference that is no int64 becomes the nearest one.
unfoldable pub saturate : ℤ → Duration
saturate (pos n) = if ltb n (2 ^ 63) then pos n else pos max_duration
saturate (negsuc n) = if ltb n (2 ^ 63) then negsuc n else negsuc max_duration

-- `now.Sub(then)`
unfoldable pub time_sub : Time → Time → Duration
unfolding saturate ◌-ℤ◌
time_sub now before = saturate (now -ℤ before)

-- `t.Add(d)`
unfoldable pub time_add : Time → Duration → Time
unfolding ◌+ℤ◌
time_add t d = t +ℤ d

-- The nanoseconds that a clock which has not gone back measures.
pub gap : Time → Time → ℕ
gap now before =
    let d = pos_part now + neg_part before - (neg_part now + pos_part before) in
    if ltb d (2 ^ 63) then d else max_duration

pub gap-lt : (now before : Time) → gap now before < 2 ^ 63
unfolding gap
gap-lt now before = ground arith

pub time_sub-eq-gap :
    (now before : Time) → before ≤ℤ now → time_sub now before ≡ pos (gap now before)
unfolding time_sub gap
time_sub-eq-gap now before h = ground arith

-- The longer one waits, the longer the difference.
pub gap_mono : (before t u : Time) → t ≤ℤ u → gap t before ≤ gap u before
unfolding gap
gap_mono before t u h = ground arith

-- The difference after `d`, of a time reached by `d`.
pub time_sub-time_add : (t : Time) (d : ℕ) → d < 2 ^ 63 → time_sub (time_add t (pos d)) t ≡ pos d
unfolding time_sub time_add
time_sub-time_add t d h = ground arith

-- The time `s` whole seconds after the fixed instant.
abbrev pub at_second : ℕ → Time
at_second s = pos (s * 1_000_000_000)

pub time_sub-at_second :
    (s t : ℕ)
    → s ≤ t
    → t * 1_000_000_000 < 2 ^ 63
    → time_sub (at_second t) (at_second s) ≡ pos ((t - s) * 1_000_000_000)
unfolding time_sub
time_sub-at_second s t h lt = ground arith

-- The two parts of a sum and of a gap, as numbers.
pub time_add_parts :
    (t : Time) (d : Duration)
    → pos_part (time_add t d) + neg_part t + neg_part d
      ≡ neg_part (time_add t d) + pos_part t + pos_part d
unfolding time_add
time_add_parts t d = ground arith

pub gap_parts :
    (now before : Time)
    → before ≤ℤ now
    → gap now before < max_duration
    → pos_part before + neg_part now + gap now before ≡ pos_part now + neg_part before
unfolding gap
gap_parts now before h lt = ground arith

pub gap-le :
    (now before : Time)
    → before ≤ℤ now
    → pos_part before + neg_part now + gap now before ≤ pos_part now + neg_part before
unfolding gap
gap-le now before h = ground arith

pub time_sub_self : (t : Time) → time_sub t t ≡ pos 0
unfolding time_sub
time_sub_self t = ground arith

-- The times come in order from `from` on.
abbrev pub IsOrderedFrom : Time → List Time → Type 0
IsOrderedFrom from [] = Unit
IsOrderedFrom from (t ∷ ts) = (from ≤ℤ t) × IsOrderedFrom t ts

-- A wait of `k` shows in the gap.
pub le-gap :
    (now before : Time) (k : ℕ) → k < 2 ^ 63 → time_add before (pos k) ≤ℤ now → k ≤ gap now before
unfolding gap time_add
le-gap now before k h late = ground arith
