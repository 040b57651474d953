-- ===== src/Limiter/TokenBucket/Bounds.antt =====
-- The token bucket of internal/limiter/tokenbucket.go under rounded arithmetic: its invariant.
use token_bucket_rate_limite.Prelude.{◌≡◌, refl, pos, ◌≤ℤ◌, arith, if◌then◌else◌}
use token_bucket_rate_limite.Float.{Float, num, ◌≼◌, ◌≺◌}
use token_bucket_rate_limite.Float.Laws.{IsOrdered}
use token_bucket_rate_limite.Float.Order.{capped_bounds}
use token_bucket_rate_limite.Clock.{Time, time_sub, time_sub-eq-gap, gap, gap-lt}
use token_bucket_rate_limite.Limiter.TokenBucket.{TokenBucket, refill, allow}

-- The tokens that `refill` adds.
abbrev pub accrued : {F : Type 0} ⦃fl : Float F⦄ → TokenBucket F → Time → F
accrued ⦃fl⦄ b now = fl.mul (fl.seconds (time_sub now b.last_refill)) b.refill_rate

module _ {F : Type 0} ⦃fl : Float F⦄ (laws : IsOrdered F) where
  open laws use {
    infinity, le_trans, refl_of_le, le-add_left, add_mono, mul_mono, add-le_left, mul-le-zero,
    zero-le-mul, zero-le-seconds, seconds-lt-infinity, seconds_mono, zero-le-sub_one, sub_one-le,
  }

  -- From none to `capacity` tokens, and a rate that is a number from 0 on.
  pub record IsValid (b : TokenBucket F) : Type 0 where
    pub some_tokens : num 0 ≼ b.tokens
    pub capped : b.tokens ≼ b.capacity
    pub rate_nonneg : num 0 ≼ b.refill_rate
    pub rate_finite : b.refill_rate ≺ infinity

  accrued_nonneg :
      (b : TokenBucket F) (now : Time) → IsValid b → b.last_refill ≤ℤ now → num 0 ≼ accrued b now
  accrued_nonneg b now v h =
      let d = gap now b.last_refill in
      rw (accrued, time_sub-eq-gap now b.last_refill h)
        (zero-le-mul (fl.seconds (pos d)) b.refill_rate
          (zero-le-seconds d (gap-lt now b.last_refill)) v.rate_nonneg
          (seconds-lt-infinity d (gap-lt now b.last_refill)) v.rate_finite)

  -- Refilling loses no token and stays below the capacity.
  refill_bounds :
      (b : TokenBucket F) (now : Time)
      → IsValid b
      → b.last_refill ≤ℤ now
      → (b.tokens ≼ (refill b now).tokens) × ((refill b now).tokens ≼ b.capacity)
  unfolding refill
  refill_bounds b now v h =
      capped_bounds laws b.tokens b.capacity (fl.add b.tokens (accrued b now)) v.capped
        (le-add_left b.tokens (accrued b now) v.some_tokens (accrued_nonneg b now v h))

  left_bounds :
      (t : F)
      → num 0 ≼ t
      → let left = if fl.le (num 1) t then fl.sub t (num 1) else t in (num 0 ≼ left) × (left ≼ t)
  left_bounds t h = ground (arith, zero-le-sub_one t, sub_one-le t, refl_of_le (num 0) t h)

  -- A request to a valid bucket keeps the invariant, changes neither the capacity nor the rate, and
  -- moves the anchor of the refill to its time, if the clock has not gone back.
  pub allow-IsValid :
      (b : TokenBucket F) (now : Time)
      → IsValid b
      → b.last_refill ≤ℤ now
      → let after = (allow b now).0 in
        IsValid after
        × (after.last_refill ≡ now)
        × (after.capacity ≡ b.capacity)
        × (after.refill_rate ≡ b.refill_rate)
  unfolding allow refill
  allow-IsValid b now v h =
      let (up, low) = refill_bounds b now v h in
      let filled = (refill b now).tokens in
      let (nonneg, down) = left_bounds filled (le_trans (num 0) b.tokens filled v.some_tokens up) in
      (
        record {
          some_tokens = nonneg;
          capped = le_trans _ filled b.capacity down low;
          rate_nonneg = v.rate_nonneg;
          rate_finite = v.rate_finite;
        },
        refl,
        refl,
        refl,
      )
