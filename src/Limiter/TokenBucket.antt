-- ===== src/Limiter/TokenBucket.antt =====
-- internal/limiter/tokenbucket.go: the token bucket, its state and one request. The children:
-- Bounds and Waiting for any rounding, Ideal and Rate where no number is rounded.
--
-- The mutex makes a call of `Allow` one atomic step, so a method is a function on the record; the
-- clock `now` is an argument.
pub mod Bounds
pub mod Waiting
pub mod Ideal
pub mod Rate
mod Tests
use token_bucket_rate_limite.Prelude.{Bool, pos, if◌then◌else◌}
use token_bucket_rate_limite.Float.{Float, num}
use token_bucket_rate_limite.Clock.{Time, Duration, time_sub}
use token_bucket_rate_limite.Limiter.Decision.{Decision, never_refills}

pub record TokenBucket (F : Type 0) : Type 0 where
  pub tokens : F
  pub last_refill : Time
  pub capacity : F
  pub refill_rate : F

-- The serializable form.
pub record BucketState (F : Type 0) : Type 0 where
  pub tokens : F
  pub last_refill : Time
  pub capacity : F
  pub refill_rate : F

module _ {F : Type 0} where
  unfoldable pub new_token_bucket : F → F → Time → TokenBucket F
  new_token_bucket capacity refill_rate now = record {
    tokens = capacity;
    last_refill = now;
    capacity = capacity;
    refill_rate = refill_rate;
  }

  unfoldable pub state : TokenBucket F → BucketState F
  state b = record {
    tokens = b.tokens;
    last_refill = b.last_refill;
    capacity = b.capacity;
    refill_rate = b.refill_rate;
  }

  unfoldable pub new_token_bucket_from_state : BucketState F → TokenBucket F
  new_token_bucket_from_state s = record {
    tokens = s.tokens;
    last_refill = s.last_refill;
    capacity = s.capacity;
    refill_rate = s.refill_rate;
  }

module _ {F : Type 0} ⦃fl : Float F⦄ where
  unfoldable pub retry_after : TokenBucket F → Bool → Duration
  retry_after b allowed =
      if allowed
      then pos 0
      else if fl.le b.refill_rate (num 0)
      then never_refills
      else let seconds = fl.div (fl.sub (num 1) b.tokens) b.refill_rate in
        fl.to_ℤ (fl.mul seconds (num 1_000_000_000))

  unfoldable pub reset_after : TokenBucket F → Duration
  reset_after b =
      if fl.le b.capacity b.tokens
      then pos 0
      else if fl.le b.refill_rate (num 0)
      then never_refills
      else let seconds = fl.div (fl.sub b.capacity b.tokens) b.refill_rate in
        fl.to_ℤ (fl.mul seconds (num 1_000_000_000))

  -- The first half of `Allow`: the tokens that have accrued, capped at the capacity.
  unfoldable pub refill : TokenBucket F → Time → TokenBucket F
  refill b now =
      let elapsed = fl.seconds (time_sub now b.last_refill) in
      let grown = fl.add b.tokens (fl.mul elapsed b.refill_rate) in
      record b { tokens = if fl.lt b.capacity grown then b.capacity else grown; last_refill = now }

  -- `Allow`: the bucket after the request, and the decision.
  unfoldable pub allow : TokenBucket F → Time → TokenBucket F × Decision F
  allow b now =
      let filled = refill b now in
      let allowed = fl.le (num 1) filled.tokens in
      let left = if allowed then fl.sub filled.tokens (num 1) else filled.tokens in
      let after : TokenBucket F = record filled { tokens = left } in
      (
        after,
        record {
          allowed = allowed;
          limit = after.capacity;
          remaining = fl.floor after.tokens;
          retry_after = retry_after after allowed;
          reset_after = reset_after after;
        },
      )
