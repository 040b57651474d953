-- ===== src/Limiter/TokenBucket/Rate.antt =====
-- The token bucket of internal/limiter/tokenbucket.go on a sequence of requests, at whole seconds and
-- with whole tokens.
use mathlib.Core.List.{map}
use native.Mathlib.Nat.{mul-le-mul, le_refl}
use token_bucket_rate_limite.Prelude.{
  ℕ, ◌+◌, ◌-◌, ◌*◌, ◌^◌, ◌≤◌, ◌<◌, ◌≡◌, refl, ap, arith, leb, if◌then◌else◌, List, [], ◌∷◌, length,
}
use token_bucket_rate_limite.Float.{Float}
use token_bucket_rate_limite.Float.Exact.{IsExact, exact_max}
use token_bucket_rate_limite.Clock.{Time, at_second}
use token_bucket_rate_limite.Limiter.TokenBucket.{TokenBucket, allow}
use token_bucket_rate_limite.Limiter.TokenBucket.Ideal.{
  Ideal, accrued, ideal_allow, InRange, embed, allow-embed,
}

-- The times come in order, from `from` to `until`.
abbrev pub IsRising : ℕ → ℕ → List ℕ → Type 0
IsRising from until [] = from ≤ until
IsRising from until (s ∷ ss) = (from ≤ s) × IsRising s until ss

-- At least a second lies between one request and the next.
abbrev pub IsSpaced : ℕ → List ℕ → Type 0
IsSpaced from [] = Unit
IsSpaced from (s ∷ ss) = (from < s) × IsSpaced s ss

-- No number exceeds the exact ones until the second `until`.
pub record Fits (i : Ideal) (until : ℕ) : Type 0 where
  pub within : i.tokens ≤ i.capacity
  pub seconds_fit : until * 1_000_000_000 < 2 ^ 63
  pub tokens_fit : i.capacity + until * i.rate ≤ exact_max

pub le-until : (from until : ℕ) (ss : List ℕ) → IsRising from until ss → from ≤ until
le-until from until [] h = h
le-until from until (s ∷ ss) h = omega (arith, le-until s until ss h.1)

pub Fits-InRange : (i : Ideal) (until s : ℕ) → Fits i until → i.anchor ≤ s → s ≤ until → InRange i s
Fits-InRange i until s f h k = record {
  forward = h;
  seconds_fit = omega arith;
  tokens_fit = omega (arith, mul-le-mul le (le_refl i.rate));
  capacity_fits = omega arith;
}
  where
    le : s - i.anchor ≤ until
    le = omega arith

    open f use {within, seconds_fit as until_fits, tokens_fit as all_fit}

pub Fits-ideal_allow : (i : Ideal) (until s : ℕ) → Fits i until → Fits (ideal_allow i s).0 until
Fits-ideal_allow i until s f = record {
  within = omega arith;
  seconds_fit = f.seconds_fit;
  tokens_fit = f.tokens_fit;
}

module _ {F : Type 0} ⦃fl : Float F⦄ where
  -- How many of the requests at these times are allowed.
  unfoldable pub admitted : TokenBucket F → List Time → ℕ
  admitted b [] = 0
  admitted b (t ∷ ts) =
      let (after, d) = allow b t in (if d.allowed then 1 else 0) + admitted after ts

  module _ (exact : IsExact F) where
    pub admitted-cons :
        (i : Ideal) (s : ℕ) (ts : List Time)
        → InRange i s
        → admitted (embed i) (at_second s ∷ ts)
          ≡ (if leb 1 (accrued i s) then 1 else 0) + admitted (embed (ideal_allow i s).0) ts
    unfolding admitted
    admitted-cons i s ts r =
        let (same, verdict, _, _) = allow-embed exact i s r in rw (same, verdict)

    -- For a bucket of whole tokens, no more than its capacity, with whole rate and capacity, that was
    -- last refilled at a whole second: the requests that are allowed of a sequence at whole seconds
    -- in order, from this refill to a time, are at most the tokens that it holds and those that
    -- accrue until then, where no number exceeds the exact ones.
    pub admitted-le :
        (i : Ideal) (until : ℕ) (ss : List ℕ)
        → Fits i until
        → IsRising i.anchor until ss
        → admitted (embed i) (map at_second ss) ≤ i.tokens + (until - i.anchor) * i.rate
    unfolding admitted
    admitted-le i until [] f h = omega arith
    admitted-le i until (s ∷ ss) f h =
        let le = le-until s until ss h.1 in
        let split : s - i.anchor + (until - s) ≡ until - i.anchor = omega arith in
        let after = (ideal_allow i s).0 in
        let rest = admitted-le after until ss (Fits-ideal_allow i until s f) h.1 in
        rw (admitted-cons i s (map at_second ss) (Fits-InRange i until s f h.0 le))
          (ground (arith, rest, ap (λ (t : ℕ). t * i.rate) split))

    -- A bucket of whole tokens, no more than its capacity, with whole rate and capacity of at least
    -- 1, that was last refilled at a whole second, allows every request of a sequence at whole
    -- seconds of which the first comes at least a second after this refill and each other at least
    -- a second after the one before it, where no number exceeds the exact ones.
    pub admitted-eq-length :
        (i : Ideal) (until : ℕ) (ss : List ℕ)
        → Fits i until
        → IsRising i.anchor until ss
        → IsSpaced i.anchor ss
        → 0 < i.rate
        → 0 < i.capacity
        → admitted (embed i) (map at_second ss) ≡ length ss
    unfolding admitted
    admitted-eq-length i until [] f h sp r c = refl
    admitted-eq-length i until (s ∷ ss) f h sp r c =
        let le = le-until s until ss h.1 in
        let after = (ideal_allow i s).0 in
        let rest = admitted-eq-length after until ss (Fits-ideal_allow i until s f) h.1 sp.1 r c in
        let waited : 1 ≤ s - i.anchor = omega (arith, sp.0) in
        let grown : 1 ≤ accrued i s = omega (arith, mul-le-mul waited (le_refl i.rate)) in
        rw (admitted-cons i s (map at_second ss) (Fits-InRange i until s f h.0 le))
          (ground (arith, rest))
