-- ===== src/Limiter/TokenBucket/Waiting.antt =====
-- What waiting does to a token bucket of internal/limiter/tokenbucket.go, whatever the rounding.
use token_bucket_rate_limite.Prelude.{◌≡◌, refl, true, false, pos, ◌≤ℤ◌, arith, All, List, [], ◌∷◌}
use token_bucket_rate_limite.Float.{Float, num, ◌≼◌, ◌≺◌}
use token_bucket_rate_limite.Float.Laws.{IsOrdered}
use token_bucket_rate_limite.Float.Order.{capped_mono, lt_of_le_of_lt}
use token_bucket_rate_limite.Clock.{IsOrderedFrom, Time, time_sub-eq-gap, gap, gap-lt, gap_mono}
use token_bucket_rate_limite.Limiter.Decision.{Decision, never_refills}
use token_bucket_rate_limite.Limiter.TokenBucket.{TokenBucket, refill, retry_after, allow}
use token_bucket_rate_limite.Limiter.TokenBucket.Bounds.{IsValid, accrued, allow-IsValid}

-- The decisions on requests at these times, one after the other.
unfoldable pub decisions :
    {F : Type 0} ⦃fl : Float F⦄ → TokenBucket F → List Time → List (Decision F)
decisions b [] = []
decisions b (t ∷ ts) = let (after, d) = allow b t in d ∷ decisions after ts

module _ {F : Type 0} ⦃fl : Float F⦄ (laws : IsOrdered F) where
  open laws use {
    infinity, le_trans, refl_of_le, add_mono, mul_mono, add-le_left, mul-le-zero, lt-eq-false,
    zero-le-mul, zero-le-seconds, seconds-lt-infinity, seconds_mono, le-eq-false, le_of_lt,
  }

  accrued_mono :
      (b : TokenBucket F) (t u : Time)
      → IsValid laws b
      → b.last_refill ≤ℤ t
      → t ≤ℤ u
      → (num 0 ≼ accrued b t) × (accrued b t ≼ accrued b u)
  accrued_mono b t u v h k =
      let d = gap t b.last_refill in
      let e = gap u b.last_refill in
      let d_fits = gap-lt t b.last_refill in
      let e_fits = gap-lt u b.last_refill in
      let from = zero-le-seconds d d_fits in
      let open_rate = v.rate_finite in
      rw (accrued, time_sub-eq-gap t b.last_refill h, time_sub-eq-gap u b.last_refill (omega arith))
        (
          zero-le-mul _ _ from v.rate_nonneg (seconds-lt-infinity d d_fits) open_rate,
          mul_mono _ _ _ from (seconds_mono d e (gap_mono b.last_refill t u k) e_fits) v.rate_nonneg
              (seconds-lt-infinity e e_fits) open_rate,
        )

  refill_mono :
      (b : TokenBucket F) (t u : Time)
      → IsValid laws b
      → b.last_refill ≤ℤ t
      → t ≤ℤ u
      → (refill b t).tokens ≼ (refill b u).tokens
  unfolding refill
  refill_mono b t u v h k =
      let (nonneg, grows) = accrued_mono b t u v h k in
      capped_mono laws b.capacity _ _ (refl_of_le b.tokens b.capacity v.capped).1
        (add_mono b.tokens _ _ v.some_tokens nonneg grows)

  -- A request that a valid bucket would allow at some time, not before its last refill, it would
  -- also allow at every later time, if no other comes between.
  allow_later :
      (b : TokenBucket F) (t u : Time)
      → IsValid laws b
      → b.last_refill ≤ℤ t
      → t ≤ℤ u
      → (allow b t).1.allowed ≡ true
      → (allow b u).1.allowed ≡ true
  unfolding allow
  allow_later b t u v h k yes_t =
      le_trans (num 1) (refill b t).tokens (refill b u).tokens yes_t (refill_mono b t u v h k)

  -- With a rate of 0 no token accrues.
  stuck :
      (b : TokenBucket F) (now : Time)
      → IsValid laws b
      → b.last_refill ≤ℤ now
      → b.refill_rate ≼ num 0
      → (refill b now).tokens ≼ b.tokens
  unfolding refill
  stuck b now v h zero_rate =
      let d_fits = gap-lt now b.last_refill in
      let d = gap now b.last_refill in
      let nonneg = (accrued_mono b now now v h (omega arith)).0 in
      let none : accrued b now ≼ num 0 =
        rw (accrued, time_sub-eq-gap now b.last_refill h)
          (mul-le-zero (fl.seconds (pos d)) b.refill_rate (zero-le-seconds d d_fits) v.rate_nonneg
            zero_rate (seconds-lt-infinity d d_fits)) in
      let same = add-le_left b.tokens (accrued b now) v.some_tokens nonneg none in
      ground (
        arith,
        same,
        refl_of_le _ _ v.capped,
        le_trans _ _ _ same v.capped,
        lt-eq-false b.capacity (fl.add b.tokens (accrued b now)),
      )

  retry_never : (b : TokenBucket F) → b.refill_rate ≼ num 0 → retry_after b false ≡ never_refills
  unfolding retry_after
  retry_never b r = rw r

  denied_when_stuck :
      (b : TokenBucket F) (now : Time)
      → IsValid laws b
      → b.last_refill ≤ℤ now
      → b.refill_rate ≼ num 0
      → b.tokens ≺ num 1
      → let (after, d) = allow b now in
        (d.allowed ≡ false) × (d.retry_after ≡ never_refills) × (after.tokens ≺ num 1)
  unfolding allow refill
  denied_when_stuck b now v h r few =
      let less =
        lt_of_le_of_lt laws (refill b now).tokens b.tokens (num 1) (stuck b now v h r) few in
      let denied = le-eq-false (refill b now).tokens (num 1) less in
      rw denied (refl, retry_never (refill b now) r, less)

  -- With less than one token and a rate that is not above 0, a valid bucket denies every request of
  -- a sequence in order of time from its last refill on, each with the wait `never_refills`.
  never_refills_lem :
      (b : TokenBucket F) (ts : List Time)
      → IsValid laws b
      → b.refill_rate ≼ num 0
      → b.tokens ≺ num 1
      → IsOrderedFrom b.last_refill ts
      → All (λ d. (d.allowed ≡ false) × (d.retry_after ≡ never_refills)) (decisions b ts)
  unfolding decisions
  never_refills_lem b [] v r few h = tt
  never_refills_lem b (t ∷ ts) v r few h =
      let (valid, at, _, rate) = allow-IsValid laws b t v h.0 in
      let (denied, retry, less) = denied_when_stuck b t v h.0 r few in
      ((denied, retry), never_refills_lem (allow b t).0 ts valid (rw rate r) less (rw at h.1))
