-- ===== src/Limiter/SlidingWindow/Extremes.antt =====
-- `Allow` of internal/limiter/slidingwindow.go with windows of 0 nanoseconds, where the weight is
-- 0/0, and of 2^62 nanoseconds and more, where `2*s.window` is negative.
use token_bucket_rate_limite.Prelude.{
  ℕ, ◌^◌, ◌≤◌, ◌<◌, ◌≡◌, refl, true, false, pos, ◌≤ℤ◌, leb_ℤ, arith, add64, ◌∙◌, List, [], ◌∷◌, All,
}
use token_bucket_rate_limite.Float.{Float, num, ◌≺◌, IsNan}
use token_bucket_rate_limite.Float.Laws.{IsOrdered}
use token_bucket_rate_limite.Clock.{Time, time_sub, time_sub_self, time_sub-eq-gap, IsOrderedFrom}
use token_bucket_rate_limite.Limiter.SlidingWindow.{SlidingWindow, estimate, allow}
use token_bucket_rate_limite.Limiter.SlidingWindow.Start.{
  decisions, sub64_zero, restarted, roll_restarts, estimate_at_start,
}

module _ {F : Type 0} ⦃fl : Float F⦄ (laws : IsOrdered F) where
  open laws use {mul_one, mul_nan, add_nan, lt_nan, div_self, zero-div-zero, zero-add-zero}

  -- 0/0
  estimate-IsNan : (s : SlidingWindow F) → s.window ≡ pos 0 → IsNan (estimate s s.window_start)
  unfolding estimate
  estimate-IsNan s e =
      rw (estimate, time_sub_self s.window_start, e, sub64_zero 0 (omega arith))
        (add_nan _ _ (mul_nan _ _ zero-div-zero))

  zero_idle :
      (s : SlidingWindow F) (now : Time)
      → s.window ≡ pos 0
      → s.window_start ≤ℤ now
      → leb_ℤ (add64 s.window s.window) (time_sub now s.window_start) ≡ true
  unfolding add64
  zero_idle s now e le = rw (e, time_sub-eq-gap now s.window_start le) (ground arith)

  huge_idle :
      (s : SlidingWindow F) (now : Time) (w : ℕ)
      → s.window ≡ pos w
      → (2 ^ 62 ≤ w) × (w < 2 ^ 63)
      → s.window_start ≤ℤ now
      → leb_ℤ (add64 s.window s.window) (time_sub now s.window_start) ≡ true
  unfolding add64
  huge_idle s now w e h le = rw (e, time_sub-eq-gap now s.window_start le) (ground arith)

  -- A window of 0 nanoseconds denies a request at any time.
  denied_at_zero :
      (s : SlidingWindow F) (now : Time)
      → s.window ≡ pos 0
      → s.window_start ≤ℤ now
      → let (after, d) = allow s now in
        (d.allowed ≡ false) × (after.window ≡ s.window) × (after.window_start ≡ now)
  unfolding allow
  denied_at_zero s now e le = rw (roll_restarts s now (zero_idle s now e le)) (
      rw (lt_nan (estimate (restarted s now) now) s.limit (estimate-IsNan (restarted s now) e))
        (refl, refl, refl))

  -- A window of 2^62 nanoseconds or more starts anew with each request and allows it.
  allowed_at_huge :
      (s : SlidingWindow F) (now : Time) (w : ℕ)
      → s.window ≡ pos w
      → (2 ^ 62 ≤ w) × (w < 2 ^ 63)
      → num 0 ≺ s.limit
      → s.window_start ≤ℤ now
      → let (after, d) = allow s now in
        (d.allowed ≡ true)
        × (after.window ≡ s.window)
        × (after.limit ≡ s.limit)
        × (after.window_start ≡ now)
  unfolding allow
  allowed_at_huge s now w e h some_limit le = rw (roll_restarts s now (huge_idle s now w e h le)) (
      rw (estimate_at_start laws (restarted s now) w e (omega arith) h.1, zero-add-zero, some_limit)
        (refl, refl, refl, refl))

  -- With a window of 0 nanoseconds every request of a sequence in order of time, from the start of
  -- the window on, is denied.
  pub zero_window_denies :
      (s : SlidingWindow F) (ts : List Time)
      → s.window ≡ pos 0
      → IsOrderedFrom s.window_start ts
      → All (λ d. d.allowed ≡ false) (decisions s ts)
  unfolding decisions
  zero_window_denies s [] e h = tt
  zero_window_denies s (t ∷ ts) e h =
      let (denied, window, start) = denied_at_zero s t e h.0 in
      (denied, zero_window_denies (allow s t).0 ts (window ∙ e) (rw start h.1))

  -- With a window from 2^62 nanoseconds on and a limit above 0, every request of a sequence in order
  -- of time, from the start of the window on, is allowed, however many come.
  pub huge_window_allows :
      (s : SlidingWindow F) (ts : List Time) (w : ℕ)
      → s.window ≡ pos w
      → (2 ^ 62 ≤ w) × (w < 2 ^ 63)
      → num 0 ≺ s.limit
      → IsOrderedFrom s.window_start ts
      → All (λ d. d.allowed ≡ true) (decisions s ts)
  unfolding decisions
  huge_window_allows s [] w e h l r = tt
  huge_window_allows s (t ∷ ts) w e h l r =
      let (allowed, window, limit, start) = allowed_at_huge s t w e h l r.0 in
      (allowed, huge_window_allows (allow s t).0 ts w (window ∙ e) h (rw limit l) (rw start r.1))
