-- ===== src/Limiter/SlidingWindow/Tests.antt =====
-- The sliding window on concrete requests, and the theorems at them.
use token_bucket_rate_limite.Prelude.{
  ℕ, ◌≡◌, refl, ◌+◌, ◌≤◌, true, false, pos, [], ◌∷◌, All, arith, add64, sub64, ◌≤ℤ◌, ◌<ℤ◌, ◌⊎◌,
  if◌then◌else◌, ◌^◌,
}
use token_bucket_rate_limite.Float.{num}
use token_bucket_rate_limite.Float.Nano.{Nano, nano_float, Nano-IsOrdered, Nano-IsExact}
use token_bucket_rate_limite.Clock.{time_sub, time_add}
use token_bucket_rate_limite.Limiter.Decision.{count_allowed}
use token_bucket_rate_limite.Limiter.SlidingWindow.{SlidingWindow, allow, roll, estimate}
use token_bucket_rate_limite.Limiter.SlidingWindow.Start.{decisions}
use token_bucket_rate_limite.Limiter.SlidingWindow.Roll.{allow_window}
use token_bucket_rate_limite.Limiter.SlidingWindow.Counts.{window-le-limit}
use token_bucket_rate_limite.Limiter.SlidingWindow.Retry.{retry_denied, allowed_after_two_windows}
use token_bucket_rate_limite.Limiter.SlidingWindow.Extremes.{zero_window_denies, huge_window_allows}

-- Three requests per 1000 ns, with `c` counted in the window from 50 on and `p` in the one before.
abbrev three_per_1000 : ℕ → ℕ → SlidingWindow Nano
three_per_1000 p c = record {
  limit = num 3;
  window = pos 1000;
  window_start = pos 50;
  current_count = num c;
  previous_count = num p;
}

abbrev of_length : ℕ → SlidingWindow Nano
of_length w = record (three_per_1000 0 0) { window = pos w }

-- Half of the two requests of the last window and the one of this leave room for a third.
half_weight :
    let (after, d) = allow (three_per_1000 2 1) (pos 550) in
    (d.allowed ≡ true) × (d.remaining ≡ num 0) × (after.current_count ≡ num 2)
unfolding allow roll estimate time_sub time_add add64 sub64
half_weight = (refl, refl, refl)

window-le-limit_example :
    1 + count_allowed (decisions (three_per_1000 2 1) (pos 60 ∷ pos 700 ∷ pos 1049 ∷ [])) ≤ 3
unfolding time_add
window-le-limit_example =
    window-le-limit Nano-IsOrdered Nano-IsExact (three_per_1000 2 1) 1000 3 1
      (pos 60 ∷ pos 700 ∷ pos 1049 ∷ [])
      (record {
        window = refl;
        regular = ground arith;
        limit = refl;
        count = refl;
        count-le = omega arith;
        limit_exact = omega arith;
        previous_nonneg = refl;
        previous_finite = Nano-IsOrdered.num-lt-infinity 2 (omega arith);
      })
      (ground arith)

-- A request in the next window.
allow_window_example :
    let (after, d) = allow (three_per_1000 2 1) (pos 1300) in
    (after.window ≡ pos 1000)
    × (after.limit ≡ num 3)
    × (after.window_start ≤ℤ pos 1300)
    × (pos 1300 <ℤ time_add after.window_start (pos 1000))
    × ((after.window_start ≡ pos 50)
        ⊎ (after.window_start ≡ time_add (pos 50) (pos 1000))
        ⊎ (after.window_start ≡ pos 1300))
    × (pos 0 <ℤ d.reset_after)
    × (d.reset_after ≤ℤ pos 1000)
    × (d.retry_after ≡ (if d.allowed then pos 0 else d.reset_after))
allow_window_example =
    allow_window (three_per_1000 2 1) (pos 1300) 1000 refl (ground arith) (omega arith)

full_denies : (allow (three_per_1000 0 3) (pos 150)).1.allowed ≡ false
unfolding allow roll estimate time_sub time_add add64 sub64
full_denies = refl

full_counts : (allow (three_per_1000 0 3) (pos 150)).0.current_count ≡ num 3
unfolding allow roll estimate time_sub time_add add64 sub64
full_counts = refl

retry_denied_example :
    let (after, d) = allow (three_per_1000 0 3) (pos 150) in
    (allow after (time_add (pos 150) d.retry_after)).1.allowed ≡ false
retry_denied_example =
    retry_denied Nano-IsOrdered (three_per_1000 0 3) (pos 150) 1000 refl (ground arith)
      (omega arith) full_denies (rw full_counts refl) (rw full_counts refl)

allowed_after_two_windows_example : (allow (three_per_1000 3 3) (pos 2050)).1.allowed ≡ true
unfolding time_add
allowed_after_two_windows_example =
    allowed_after_two_windows Nano-IsOrdered (three_per_1000 3 3) (pos 2050) 1000 refl
      (ground arith) refl (omega arith)

zero_window_denies_example :
    All (λ d. d.allowed ≡ false) (decisions (of_length 0) (pos 50 ∷ pos 60 ∷ []))
zero_window_denies_example =
    zero_window_denies Nano-IsOrdered (of_length 0) (pos 50 ∷ pos 60 ∷ []) refl (ground arith)

huge_window_allows_example :
    All
      (λ d. d.allowed ≡ true)
      (decisions (of_length (2 ^ 62)) (pos 50 ∷ pos 50 ∷ pos 51 ∷ pos 52 ∷ []))
huge_window_allows_example =
    huge_window_allows Nano-IsOrdered (of_length (2 ^ 62)) (pos 50 ∷ pos 50 ∷ pos 51 ∷ pos 52 ∷ [])
      (2 ^ 62) refl (omega arith, omega arith) refl (ground arith)
