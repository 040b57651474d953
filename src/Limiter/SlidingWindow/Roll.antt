-- ===== src/Limiter/SlidingWindow/Roll.antt =====
-- The windows of internal/limiter/slidingwindow.go: where `Allow` moves the start of the current one.
use token_bucket_rate_limite.Prelude.{
  ℕ, ◌+◌, ◌-◌, ◌^◌, ◌≤◌, ◌<◌, ◌≡◌, ◌⊎◌, inl, inr, refl, pos, pos_part, neg_part, ◌≤ℤ◌, ◌<ℤ◌, arith,
  add64, sub64, leb_ℤ, leb, if◌then◌else◌, Bool-cases,
}
use token_bucket_rate_limite.Float.{Float}
use token_bucket_rate_limite.Clock.{
  Time, Duration, time_sub, time_add, time_sub-eq-gap, gap, gap_parts, gap-le, time_add_parts,
}
use token_bucket_rate_limite.Limiter.SlidingWindow.{SlidingWindow, roll, allow}

-- A window for which twice its length is an int64.
abbrev pub IsRegular : Duration → Type 0
IsRegular w = (pos 0 <ℤ w) × (w <ℤ pos (2 ^ 62))

-- The start of the window that `roll` moves to, which the counts have no part in.
unfoldable pub next_start : Duration → Time → Time → Time
next_start window start now =
    let elapsed = time_sub now start in
    if leb_ℤ (add64 window window) elapsed
    then now
    else if leb_ℤ window elapsed
    then time_add start window
    else start

next_start_cases :
    (w : Duration) (start now : Time)
    → let new = next_start w start now in (new ≡ start) ⊎ (new ≡ time_add start w) ⊎ (new ≡ now)
unfolding next_start
next_start_cases w start now = ground arith

-- `2*s.window` does not overflow.
pub add64_self : (w : ℕ) → w < 2 ^ 62 → add64 (pos w) (pos w) ≡ pos (w + w)
unfolding add64
add64_self w h = ground arith

pub sub64_small : (w g : ℕ) → w < 2 ^ 62 → g ≤ w → sub64 (pos w) (pos g) ≡ pos (w - g)
unfolding sub64
sub64_small w g h k = ground arith

module _ (w : ℕ) (start now : Time) (h : IsRegular (pos w)) (le : start ≤ℤ now) where
  abbrev passed : ℕ
  passed = gap now start

  next_start-passed :
      next_start (pos w) start now
      ≡ (if leb (w + w) passed then now else if leb w passed then time_add start (pos w) else start)
  unfolding next_start
  next_start-passed = rw (time_sub-eq-gap now start le, add64_self w (omega arith)) (ground arith)

  -- A window of `w` from `new` on holds `now`.
  abbrev Holds : Time → Type 0
  Holds new = (new ≤ℤ now) × (now <ℤ time_add new (pos w)) × (gap now new < w)

  Holds-near :
      (new : Time)
      → new ≤ℤ now
      → pos_part now + neg_part new < pos_part new + neg_part now + w
      → Holds new
  Holds-near new from near =
      (from, omega (arith, time_add_parts new (pos w)), omega (arith, gap-le now new from))

  module _ (busy : passed < w + w) where
    exact : pos_part start + neg_part now + passed ≡ pos_part now + neg_part start
    exact = gap_parts now start le (omega arith)

    over : w ≤ passed → Holds (time_add start (pos w))
    over k =
        Holds-near (time_add start (pos w)) (omega (arith, exact, time_add_parts start (pos w)))
          (omega (arith, exact, time_add_parts start (pos w)))

    within : Holds (if leb w passed then time_add start (pos w) else start)
    within = elim (Bool-cases (leb w passed)) [
      | inl e ↦ rw e (over (ground arith))
      | inr e ↦
          let k : passed < w = ground arith in rw e (Holds-near start le (omega (arith, exact)))
    ]

  -- The window that `roll` moves to holds `now`.
  next_start-Holds : Holds (next_start (pos w) start now)
  next_start-Holds = rw next_start-passed (elim (Bool-cases (leb (w + w) passed)) [
    | inl idle ↦ rw idle (Holds-near now (omega arith) (omega arith))
    | inr busy ↦ rw busy (within (ground arith))
  ])

  -- What is left of the window, as an int64.
  next_start_rest :
      let rest = sub64 (pos w) (time_sub now (next_start (pos w) start now)) in
      (pos 0 <ℤ rest) × (rest ≤ℤ pos w)
  unfolding sub64
  next_start_rest =
      let (from, _, lt) = next_start-Holds in
      rw (time_sub-eq-gap now (next_start (pos w) start now) from) (ground arith)

module _ {F : Type 0} ⦃fl : Float F⦄ where
  roll-next_start :
      (s : SlidingWindow F) (now : Time)
      → ((roll s now).window_start ≡ next_start s.window s.window_start now)
        × ((roll s now).window ≡ s.window)
        × ((roll s now).limit ≡ s.limit)
  unfolding roll next_start
  roll-next_start s now = ground arith

  -- Where the window is above 0, twice the window is an int64 and the clock has not gone back, the
  -- window of the request holds its time: it starts at the old start, one window later, or at the
  -- request itself. Then `ResetAfter` lies above 0 and within the window, and `RetryAfter` is it or
  -- 0.
  pub allow_window :
      (s : SlidingWindow F) (now : Time) (w : ℕ)
      → s.window ≡ pos w
      → IsRegular (pos w)
      → s.window_start ≤ℤ now
      → let (after, d) = allow s now in
        (after.window ≡ s.window)
        × (after.limit ≡ s.limit)
        × (after.window_start ≤ℤ now)
        × (now <ℤ time_add after.window_start s.window)
        × ((after.window_start ≡ s.window_start)
            ⊎ (after.window_start ≡ time_add s.window_start s.window)
            ⊎ (after.window_start ≡ now))
        × (pos 0 <ℤ d.reset_after)
        × (d.reset_after ≤ℤ s.window)
        × (d.retry_after ≡ (if d.allowed then pos 0 else d.reset_after))
  unfolding allow
  allow_window s now w is_w h le =
      let (start, window, limit) = roll-next_start s now in
      rw (window, limit, start, is_w)
        (let (low, high, _) = next_start-Holds w s.window_start now h le in
          let (above, within) = next_start_rest w s.window_start now h le in
          (refl, refl, low, high, next_start_cases (pos w) s.window_start now, above, within, refl))
