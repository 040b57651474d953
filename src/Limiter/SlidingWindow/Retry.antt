-- ===== src/Limiter/SlidingWindow/Retry.antt =====
-- The wait that a denial of internal/limiter/slidingwindow.go reports, and longer waits.
use token_bucket_rate_limite.Prelude.{
  ℕ, ◌+◌, ◌-◌, ◌^◌, ◌≤◌, ◌<◌, ◌≡◌, refl, true, false, pos, ◌≤ℤ◌, ◌<ℤ◌, pos_part, neg_part, leb_ℤ,
  arith, add64, sub64, ◌∙◌, subst,
}
use token_bucket_rate_limite.Float.{Float, num, ◌≺◌, ◌≼◌}
use token_bucket_rate_limite.Float.Laws.{IsOrdered}
use token_bucket_rate_limite.Clock.{
  Time, time_sub, time_add, time_sub-eq-gap, time_sub-time_add, gap, gap-le, le-gap, gap_parts,
  time_add_parts,
}
use token_bucket_rate_limite.Limiter.SlidingWindow.{SlidingWindow, roll, allow}
use token_bucket_rate_limite.Limiter.SlidingWindow.Roll.{
  add64_self, sub64_small, IsRegular, allow_window,
}
use token_bucket_rate_limite.Limiter.SlidingWindow.Start.{
  restarted, roll_restarts, estimate_at_start,
}

time_add_shift :
    (start now : Time) (w g : ℕ)
    → pos_part start + neg_part now + g ≡ pos_part now + neg_part start
    → g ≤ w
    → time_add now (pos (w - g)) ≡ time_add start (pos w)
unfolding time_add
time_add_shift start now w g e h = ground arith

-- `ResetAfter` from now is the end of the window.
end_of_window :
    (w : ℕ) (start now : Time)
    → w < 2 ^ 62
    → start ≤ℤ now
    → now <ℤ time_add start (pos w)
    → time_add now (sub64 (pos w) (time_sub now start)) ≡ time_add start (pos w)
end_of_window w start now h le lt =
    let g = gap now start in
    let small : g < w = omega (arith, gap-le now start le, time_add_parts start (pos w)) in
    rw (time_sub-eq-gap now start le, sub64_small w g h (omega arith))
      (time_add_shift start now w g (gap_parts now start le (omega arith)) (omega arith))

module _ {F : Type 0} ⦃fl : Float F⦄ (laws : IsOrdered F) where
  open laws use {lt-eq-false, add_zero, zero-add-zero}

  -- One window after its start, the current count becomes the previous one.
  abbrev shifted : SlidingWindow F → ℕ → SlidingWindow F
  shifted s w = record s {
    previous_count = s.current_count;
    current_count = num 0;
    window_start = time_add s.window_start (pos w);
  }

  roll_shifts :
      (s : SlidingWindow F) (w : ℕ)
      → s.window ≡ pos w
      → IsRegular (pos w)
      → roll s (time_add s.window_start (pos w)) ≡ shifted s w
  unfolding roll
  roll_shifts s w e h =
      rw (time_sub-time_add s.window_start w (omega arith), e, add64_self w (omega arith))
        (ground arith)

  idle :
      (s : SlidingWindow F) (now : Time) (w : ℕ)
      → s.window ≡ pos w
      → IsRegular (pos w)
      → s.window_start ≤ℤ now
      → time_add s.window_start (pos (w + w)) ≤ℤ now
      → leb_ℤ (add64 s.window s.window) (time_sub now s.window_start) ≡ true
  idle s now w e h le late =
      let start = s.window_start in
      let enough : w + w ≤ gap now start = le-gap now start (w + w) (omega arith) late in
      rw (time_sub-eq-gap now start le, e, add64_self w (omega arith)) (ground arith)

  -- At the end of a window that is full, the next request is denied.
  full_window_denies :
      (s : SlidingWindow F) (w : ℕ)
      → s.window ≡ pos w
      → IsRegular (pos w)
      → num 0 ≺ s.current_count
      → s.limit ≼ s.current_count
      → (allow s (time_add s.window_start (pos w))).1.allowed ≡ false
  unfolding allow
  full_window_denies s w e h some_count full = rw (roll_shifts s w e h) (
      rw
        (
          estimate_at_start laws (shifted s w) w e (omega arith) (omega arith),
          add_zero s.current_count some_count,
        )
        (lt-eq-false s.current_count s.limit full))

  reset_after_lem :
      (s : SlidingWindow F) (now : Time)
      → let (after, d) = allow s now in
        d.reset_after ≡ sub64 after.window (time_sub now after.window_start)
  unfolding allow
  reset_after_lem s now = refl

  -- Where twice the window is an int64 and the clock has not gone back: a request that is denied
  -- while the current count is above 0 and alone at least the limit, and that is made again after
  -- exactly the `RetryAfter` of its denial, is denied again.
  pub retry_denied :
      (s : SlidingWindow F) (now : Time) (w : ℕ)
      → s.window ≡ pos w
      → IsRegular (pos w)
      → s.window_start ≤ℤ now
      → (allow s now).1.allowed ≡ false
      → num 0 ≺ (allow s now).0.current_count
      → s.limit ≼ (allow s now).0.current_count
      → let (after, d) = allow s now in (allow after (time_add now d.retry_after)).1.allowed ≡ false
  retry_denied s now w e h le denied some_count full =
      let (window, limit, from, until, _, _, _, retry) = allow_window s now w e h le in
      let (after, d) = allow s now in
      let at_end : time_add now d.retry_after ≡ time_add after.window_start (pos w) =
        rw (retry, denied, reset_after_lem s now, window ∙ e)
          (end_of_window w after.window_start now (omega arith) from
            (subst (λ x. now <ℤ time_add after.window_start x) e until)) in
      rw at_end (full_window_denies after w (window ∙ e) h some_count (rw limit full))

  -- Two windows or more after the start of the current one, a request is allowed again, whatever
  -- was counted, if the limit is above 0 and twice the window is an int64.
  pub allowed_after_two_windows :
      (s : SlidingWindow F) (now : Time) (w : ℕ)
      → s.window ≡ pos w
      → IsRegular (pos w)
      → num 0 ≺ s.limit
      → time_add s.window_start (pos (w + w)) ≤ℤ now
      → (allow s now).1.allowed ≡ true
  unfolding allow
  allowed_after_two_windows s now w e h some_limit late =
      let le : s.window_start ≤ℤ now = omega (arith, time_add_parts s.window_start (pos (w + w))) in
      rw (roll_restarts s now (idle s now w e h le late)) (
        rw (estimate_at_start laws (restarted s now) w e (omega arith) (omega arith), zero-add-zero)
          some_limit)
