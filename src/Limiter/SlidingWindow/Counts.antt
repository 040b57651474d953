-- ===== src/Limiter/SlidingWindow/Counts.antt =====
-- The requests that a sliding window of internal/limiter/slidingwindow.go counts.
use token_bucket_rate_limite.Prelude.{
  ℕ, ◌+◌, ◌-◌, ◌≤◌, ◌<◌, ◌≡◌, refl, true, pos, ◌≤ℤ◌, ◌<ℤ◌, arith, ◌∙◌, subst, ap, if◌then◌else◌,
  List, [], ◌∷◌, Bool-cases, inl, inr,
}
use token_bucket_rate_limite.Float.{Float, num, ◌≺◌, ◌≼◌}
use token_bucket_rate_limite.Float.Laws.{IsOrdered}
use token_bucket_rate_limite.Float.Exact.{IsExact, exact_max}
use token_bucket_rate_limite.Float.Order.{lt_of_le_of_lt}
use token_bucket_rate_limite.Clock.{Time, time_add, time_sub-eq-gap, gap, gap-le, time_add_parts}
use token_bucket_rate_limite.Limiter.Decision.{count_allowed}
use token_bucket_rate_limite.Limiter.SlidingWindow.{SlidingWindow, roll, estimate, allow}
use token_bucket_rate_limite.Limiter.SlidingWindow.Roll.{add64_self, sub64_small, IsRegular}
use token_bucket_rate_limite.Limiter.SlidingWindow.Start.{decisions}

-- The times lie in the window of `w` from `start` on, and none before `from`.
abbrev pub AreWithin : Time → ℕ → List Time → Type 0
AreWithin start w [] = Unit
AreWithin start w (t ∷ ts) = (start ≤ℤ t) × (t <ℤ time_add start (pos w)) × AreWithin start w ts

module _ {F : Type 0} ⦃fl : Float F⦄ (laws : IsOrdered F) (exact : IsExact F) where
  open laws use {infinity, le-add_right, zero-le-mul, zero-le-div, div-lt-infinity}
  open exact use {lt-num, le-num, add-num}

  -- A window of `w` nanoseconds, above 0 and below 2^62, that has counted `c` requests of at most `l`.
  pub record HasCounted (s : SlidingWindow F) (w l c : ℕ) : Type 0 where
    pub window : s.window ≡ pos w
    pub regular : IsRegular (pos w)
    pub limit : s.limit ≡ num l
    pub count : s.current_count ≡ num c
    pub count-le : c ≤ l
    pub limit_exact : l < exact_max
    pub previous_nonneg : num 0 ≼ s.previous_count
    pub previous_finite : s.previous_count ≺ infinity

  module _ (s : SlidingWindow F) (w l c : ℕ) (h : HasCounted s w l c) (t : Time)
      (from : s.window_start ≤ℤ t) (until : t <ℤ time_add s.window_start (pos w)) where
    gap-lt-window : gap t s.window_start < w
    gap-lt-window =
        omega (arith, gap-le t s.window_start from, time_add_parts s.window_start (pos w))

    roll_stays : roll s t ≡ s
    unfolding roll
    roll_stays =
        rw (h.window, time_sub-eq-gap t s.window_start from, add64_self w (omega arith))
          (ground (arith, gap-lt-window))

    -- The estimate is at least the count.
    count-le-estimate : num c ≼ estimate s t
    unfolding estimate
    count-le-estimate =
        let d = w - gap t s.window_start in
        let lt = gap-lt-window in
        rw
          (
            estimate,
            h.window,
            time_sub-eq-gap t s.window_start from,
            sub64_small w (gap t s.window_start) (omega arith) (omega arith),
            h.count,
          )
          (le-add_right _ (num c)
            (zero-le-mul s.previous_count (fl.div (num d) (num w)) h.previous_nonneg
              (zero-le-div d w (omega arith) (omega arith) (omega arith)) h.previous_finite
              (div-lt-infinity d w (omega arith) (omega arith) (omega arith)))
            (rw (le-num 0 c (omega arith) (omega arith)) (ground arith)))

    allowed-lt : fl.lt (estimate s t) s.limit ≡ true → c < l
    allowed-lt ok =
        let lt = lt_of_le_of_lt laws (num c) (estimate s t) s.limit count-le-estimate ok in
        let le = h.count-le in
        let fits = h.limit_exact in
        ground (arith, subst (λ x. num c ≺ x) h.limit lt, lt-num c l (omega arith) (omega arith))

    one_more :
        c < l → HasCounted (record s { current_count = fl.add s.current_count (num 1) }) w l (c + 1)
    one_more lt = record {
      window = h.window;
      regular = h.regular;
      limit = h.limit;
      count = ap (λ x. fl.add x (num 1)) h.count ∙ add-num c 1 (omega (arith, h.limit_exact));
      count-le = omega arith;
      limit_exact = h.limit_exact;
      previous_nonneg = h.previous_nonneg;
      previous_finite = h.previous_finite;
    }

    -- A request in the window is counted exactly if it is allowed.
    allow_counts :
        let (after, d) = allow s t in
        HasCounted after w l (if d.allowed then c + 1 else c)
        × (after.window_start ≡ s.window_start)
    unfolding allow
    allow_counts = rw roll_stays (elim (Bool-cases (fl.lt (estimate s t) s.limit)) [
      | inl ok ↦ rw ok (one_more (allowed-lt ok), refl)
      | inr denied ↦ rw denied (h, refl)
    ])

  -- For a limiter whose window is above 0 and below 2^62 ns, whose limit is a whole number below
  -- 2^53, whose current count is a whole number up to the limit, and whose previous count is finite
  -- and not negative: of the requests of a sequence whose times lie in its current window, those that
  -- are allowed and those counted before are together no more than the limit.
  pub window-le-limit :
      (s : SlidingWindow F) (w l c : ℕ) (ts : List Time)
      → HasCounted s w l c
      → AreWithin s.window_start w ts
      → c + count_allowed (decisions s ts) ≤ l
  unfolding count_allowed decisions
  window-le-limit s w l c [] h r = omega (arith, h.count-le)
  window-le-limit s w l c (t ∷ ts) h (from, until, later) =
      let (next, start) = allow_counts s w l c h t from until in
      let c' = if (allow s t).1.allowed then c + 1 else c in
      let rest = window-le-limit (allow s t).0 w l c' ts next (rw start later) in
      ground (arith, rest)
