-- ===== src/Limiter/TokenBucket/Ideal.antt =====
-- The bucket that the comment of `Allow` in internal/limiter/tokenbucket.go describes, in whole
-- tokens and whole seconds, and how the code relates to it where float64 is exact.
use Prim.Native.Nat.{min}
use token_bucket_rate_limite.Prelude.{
  ℕ, zero, suc, ◌+◌, ◌-◌, ◌*◌, ◌≤◌, ◌<◌, ◌^◌, ◌≡◌, refl, Bool, pos, arith, if◌then◌else◌, leb,
}
use token_bucket_rate_limite.Float.{Float, num}
use token_bucket_rate_limite.Float.Exact.{IsExact, exact_max}
use token_bucket_rate_limite.Clock.{at_second, time_sub-at_second}
use token_bucket_rate_limite.Limiter.TokenBucket.{TokenBucket, refill, reset_after, allow}

pub record Ideal : Type 0 where
  pub tokens : ℕ
  pub anchor : ℕ
  pub capacity : ℕ
  pub rate : ℕ

-- Tokens accrue by the rate up to the capacity; a request takes one if there is one.
abbrev pub accrued : Ideal → ℕ → ℕ
accrued i s = min i.capacity (i.tokens + (s - i.anchor) * i.rate)

abbrev pub ideal_allow : Ideal → ℕ → Ideal × Bool
ideal_allow i s = let t = accrued i s in (record i { tokens = t - 1; anchor = s }, leb 1 t)

-- The request comes no earlier than the last one, and no number on the way exceeds the exact ones.
pub record InRange (i : Ideal) (s : ℕ) : Type 0 where
  pub forward : i.anchor ≤ s
  pub seconds_fit : s * 1_000_000_000 < 2 ^ 63
  pub tokens_fit : i.tokens + (s - i.anchor) * i.rate ≤ exact_max
  pub capacity_fits : i.capacity ≤ exact_max

module _ {F : Type 0} ⦃fl : Float F⦄ where
  abbrev pub embed : Ideal → TokenBucket F
  embed i = record {
    tokens = num i.tokens;
    last_refill = at_second i.anchor;
    capacity = num i.capacity;
    refill_rate = num i.rate;
  }

  module _ (exact : IsExact F) where
    open exact use {
      lt-num, le-num, add-num, sub-num, mul-num, floor-num, seconds-num, div-num, to_ℤ-num,
    }

    refill-embed :
        (i : Ideal) (s : ℕ)
        → InRange i s
        → refill (embed i) (at_second s) ≡ embed (record i { tokens = accrued i s; anchor = s })
    unfolding refill
    refill-embed i s r =
        let d = s - i.anchor in
        rw
          (
            time_sub-at_second i.anchor s r.forward r.seconds_fit,
            seconds-num d (omega arith),
            mul-num d i.rate (omega arith),
            add-num i.tokens (d * i.rate) r.tokens_fit,
            lt-num i.capacity (i.tokens + d * i.rate) r.capacity_fits r.tokens_fit,
          )
          (ground arith)

    left-num :
        (t : ℕ) → t ≤ exact_max → (if leb 1 t then fl.sub (num t) (num 1) else num t) ≡ num (t - 1)
    left-num t h = ground (arith, sub-num t 1)

    -- At a whole second, not before the last refill, for a bucket of whole tokens with whole rate
    -- and capacity, and where no number exceeds the exact ones, the request does to the code's
    -- bucket what it does to the ideal one: the same verdict, the same tokens left, reported in
    -- `Limit` and `Remaining`.
    pub allow-embed :
        (i : Ideal) (s : ℕ)
        → InRange i s
        → let (after, verdict) = ideal_allow i s in
          let (b, d) = allow (embed i) (at_second s) in
          (b ≡ embed after)
          × (d.allowed ≡ verdict)
          × (d.limit ≡ num i.capacity)
          × (d.remaining ≡ num after.tokens)
    unfolding allow
    allow-embed i s r =
        let t = accrued i s in
        rw (refill-embed i s r, le-num 1 t (omega arith) (omega arith))
          (rw (left-num t (omega arith), floor-num (t - 1) (omega arith)) (refl, refl, refl, refl))

    -- Where the rate is above 0, the missing tokens of a bucket of whole tokens take `k` whole
    -- seconds to accrue, and the capacity and those seconds in nanoseconds are exact, `ResetAfter`
    -- is `k` seconds, and the ideal bucket is full after them.
    reset_after-embed :
        (i : Ideal) (k : ℕ)
        → 0 < i.rate
        → i.tokens + k * i.rate ≡ i.capacity
        → i.capacity ≤ exact_max
        → k * 1_000_000_000 ≤ exact_max
        → (reset_after (embed i) ≡ pos (k * 1_000_000_000))
          × (accrued i (i.anchor + k) ≡ i.capacity)
    unfolding reset_after
    reset_after-embed i zero rate e fits small =
        (rw (le-num i.capacity i.tokens fits (omega arith)) (ground arith), omega arith)
    reset_after-embed i (suc k) rate e fits small =
        let missing : i.capacity - i.tokens ≡ suc k * i.rate = omega arith in
        let rate_fits : i.rate ≤ exact_max = grind arith in
        (
          rw
              (
                le-num i.capacity i.tokens fits (omega arith),
                le-num i.rate 0 rate_fits (omega arith),
                sub-num i.capacity i.tokens fits (omega arith),
                missing,
                div-num (suc k) i.rate (omega arith) rate,
                mul-num (suc k) 1_000_000_000 small,
                to_ℤ-num (suc k * 1_000_000_000) small,
              )
              (ground arith),
          let waited : i.anchor + suc k - i.anchor ≡ suc k = omega arith in rw waited (omega arith),
        )
