-- ===== src/Limiter/Redis/Decisions.antt =====
-- The decision of `RedisStore.Allow` in internal/limiter/redisstore.go against that of
-- `TokenBucket.Allow` in internal/limiter/tokenbucket.go.
use mathlib.Core.Option
use token_bucket_rate_limite.Prelude.{
  ℕ, ◌-◌, ◌*◌, ◌≤◌, ◌<◌, ◌≡◌, refl, Bool, true, false, Option, some, List, String, pos, arith,
  if◌then◌else◌, Bool-cases, inl, inr, ◌∙◌, sym,
}
use token_bucket_rate_limite.Float.{Float, num, ◌≼◌}
use token_bucket_rate_limite.Float.Laws.{IsOrdered}
use token_bucket_rate_limite.Float.Exact.{IsExact, exact_max}
use token_bucket_rate_limite.Clock.{Time, Duration, at_second}
use token_bucket_rate_limite.Limiter.Config.{Config}
use token_bucket_rate_limite.Limiter.TokenBucket
use token_bucket_rate_limite.Limiter.TokenBucket.{TokenBucket, retry_after, reset_after}
use token_bucket_rate_limite.Limiter.TokenBucket.Ideal.{
  Ideal, ideal_allow, InRange, embed, allow-embed,
}
use token_bucket_rate_limite.Limiter.Redis.Server.{Redis, IsRedis, reply_of}
use token_bucket_rate_limite.Limiter.Redis.Script.{token_bucket_lua}
use token_bucket_rate_limite.Limiter.Redis.Store.{
  is_one, state_key, unix_milli, arguments, get_config, allow, decision_of,
  retry_after_from_remaining, reset_after_from_remaining,
}
use token_bucket_rate_limite.Limiter.Redis.Closed.{config_used, script_run}
use token_bucket_rate_limite.Limiter.Redis.Agreement.{
  IsShort, Holds, Loads, Holds-Loads, replies, arguments_of, token_bucket_lua-Loads,
}

is_one_verdict : (v : Bool) → is_one (if v then pos 1 else pos 0) ≡ v
is_one_verdict true = refl
is_one_verdict false = refl

-- At a whole second, in milliseconds.
unix_milli-at_second : (s : ℕ) → unix_milli (at_second s) ≡ pos (s * 1000)
unfolding unix_milli
unix_milli-at_second s = ground arith

module _ {F : Type 0} ⦃fl : Float F⦄ (ordered : IsOrdered F) (exact : IsExact F) where
  open ordered use {lt-eq-false, zero-le-div}
  open exact use {le-num, sub-num, to_ℤ-num}

  -- The waits of the two stores agree on a whole number of tokens.
  retry_after-eq :
      (i : Ideal) (verdict : Bool)
      → (verdict ≡ false → i.tokens ≤ 1)
      → i.rate ≤ exact_max
      → retry_after_from_remaining {F = F} verdict (num i.tokens) (num i.rate)
        ≡ retry_after {F = F} (embed i) verdict
  unfolding retry_after_from_remaining retry_after
  retry_after-eq i true h fits = refl
  retry_after-eq i false h fits = elim (Bool-cases (fl.le (num i.rate) (num 0))) [
    | inl stuck ↦ rw stuck refl
    | inr flows ↦
        let some_rate : 0 < i.rate = ground (arith, flows, le-num i.rate 0 fits (omega arith)) in
        let seconds = fl.div (fl.sub (num 1) (num i.tokens)) (num i.rate) in
        let nonneg : num 0 ≼ seconds =
          rw (sub-num 1 i.tokens (omega arith) (h refl))
            (zero-le-div (1 - i.tokens) i.rate (omega arith) some_rate (omega arith)) in
        rw (flows, lt-eq-false seconds (num 0) nonneg) refl
  ]

  form :
      (b : TokenBucket F) (now : Time)
      → let (after, d) = TokenBucket.allow b now in
        d ≡ record {
          allowed = d.allowed;
          limit = d.limit;
          remaining = d.remaining;
          retry_after = retry_after after d.allowed;
          reset_after = reset_after after;
        }
  unfolding TokenBucket.allow
  form b now = refl

  reset_after-eq :
      (i : Ideal)
      → reset_after_from_remaining {F = F} (num i.capacity) (num i.tokens) (num i.rate)
        ≡ reset_after {F = F} (embed i)
  unfolding reset_after_from_remaining reset_after
  reset_after-eq i = refl

  in_memory :
      (i : Ideal) (s : ℕ)
      → InRange i s
      → let (after, verdict) = ideal_allow i s in
        (TokenBucket.allow {F = F} (embed i) (at_second s)).1 ≡ record {
          allowed = verdict;
          limit = num i.capacity;
          remaining = num after.tokens;
          retry_after = retry_after {F = F} (embed after) verdict;
          reset_after = reset_after {F = F} (embed after);
        }
  in_memory i s r =
      let (same, verdict, limit, remaining) = allow-embed exact i s r in
      form (embed i) (at_second s) ∙ rw (same, verdict, limit, remaining) refl

  pub decided_lem :
      (i : Ideal) (s : ℕ) (cfg : Config F)
      → cfg.rps ≡ num i.rate
      → IsShort i s
      → let (after, verdict) = ideal_allow i s in
        decision_of cfg (some (reply_of {F = F} (replies after verdict))) ≡ record {
          allowed = verdict;
          limit = num i.capacity;
          remaining = num after.tokens;
          retry_after = retry_after {F = F} (embed after) verdict;
          reset_after = reset_after {F = F} (embed after);
        }
  unfolding decision_of
  decided_lem i s cfg rate h =
      let (after, verdict) = ideal_allow i s in
      let shown : fl.to_ℤ (if verdict then num 1 else num 0) ≡ (if verdict then pos 1 else pos 0) =
        ground (arith, to_ℤ-num 1 (omega arith), to_ℤ-num 0 (omega arith)) in
      rw
        (
          shown,
          to_ℤ-num after.tokens (omega (arith, h.in_range.capacity_fits)),
          to_ℤ-num i.capacity h.in_range.capacity_fits,
          rate,
        )
        (rw
          (
            is_one_verdict verdict,
            retry_after-eq after verdict (λ e. ground arith) h.rate_fits,
            reset_after-eq after,
          )
          refl)

  module _ {R T : Type 0} (redis : Redis R T F) (laws : IsRedis redis) (ttl : Duration) where
    decision_lem :
        (r : R) (id : String) (s : ℕ)
        → (allow redis ttl r id (at_second s)).1
          ≡ decision_of (config_used redis ttl r id) (script_run redis ttl r id (at_second s)).1
    unfolding allow
    decision_lem r id s = refl

    pub arguments-num :
        (i : Ideal) (s k : ℕ) (algorithm : String)
        → fl.to_ℤ (fl.seconds ttl) ≡ pos k
        → arguments redis ttl
            (record { rps = num i.rate; burst = num i.capacity; algorithm = algorithm })
            (at_second s)
          ≡ arguments_of redis laws exact i s k
    unfolding arguments
    arguments-num i s k algorithm e = rw (unix_milli-at_second s, e) refl

    -- The decision on a bucket that the script reads.
    pub allow-Loads :
        (i : Ideal) (s k : ℕ) (r : R) (id algorithm : String)
        → IsShort i s
        → (0 < k) × (k ≤ exact_max) × (fl.to_ℤ (fl.seconds ttl) ≡ pos k)
        → config_used redis ttl r id
          ≡ record { rps = num i.rate; burst = num i.capacity; algorithm = algorithm }
        → Loads redis laws exact (get_config redis ttl r id).0 (state_key id) i s
        → ((f : R → R × Option (List F))
            → (redis.run f (get_config redis ttl r id).0).1
              ≡ Option.map reply_of (f (get_config redis ttl r id).0).1)
        → (allow redis ttl r id (at_second s)).1
          ≡ (TokenBucket.allow {F = F} (embed i) (at_second s)).1
    allow-Loads i s k r id algorithm h (some_ttl, ttl_fits, is_ttl) configured loads answers =
        let asked = (get_config redis ttl r id).0 in
        let (_, said) =
          token_bucket_lua-Loads redis laws exact i s k asked (state_key id) h some_ttl ttl_fits
            loads in
        let cfg : Config F = record {
          rps = num i.rate;
          burst = num i.capacity;
          algorithm = algorithm;
        } in
        let (after, verdict) = ideal_allow i s in
        let replied : (script_run redis ttl r id (at_second s)).1
            ≡ some (reply_of {F = F} (replies after verdict)) =
          answers (
            token_bucket_lua redis (state_key id)
              (arguments redis ttl (config_used redis ttl r id) (at_second s)))
          ∙ rw (configured, arguments-num i s k algorithm is_ttl, said) refl in
        decision_lem r id s
        ∙ rw (replied, configured) (decided_lem i s cfg refl h)
        ∙ sym (in_memory i s h.in_range)

    -- For a client whose hash holds a bucket of whole tokens, with whole rate and burst, at a whole
    -- second, with a lifetime of whole seconds above 0, on a server that does as documented and
    -- answers the script, and where no number exceeds what Lua and float64 hold exactly: `Allow` of
    -- the store gives in every field the decision that `Allow` of the bucket in memory gives.
    pub allow-eq-token_bucket :
        (i : Ideal) (s k : ℕ) (r : R) (id algorithm : String)
        → IsShort i s
        → (0 < k) × (k ≤ exact_max) × (fl.to_ℤ (fl.seconds ttl) ≡ pos k)
        → config_used redis ttl r id
          ≡ record { rps = num i.rate; burst = num i.capacity; algorithm = algorithm }
        → Holds redis laws exact (get_config redis ttl r id).0 (state_key id) i
        → ((f : R → R × Option (List F))
            → (redis.run f (get_config redis ttl r id).0).1
              ≡ Option.map reply_of (f (get_config redis ttl r id).0).1)
        → (allow redis ttl r id (at_second s)).1
          ≡ (TokenBucket.allow {F = F} (embed i) (at_second s)).1
    allow-eq-token_bucket i s k r id algorithm h is_ttl configured holds answers =
        allow-Loads i s k r id algorithm h is_ttl configured
          (Holds-Loads redis laws exact (get_config redis ttl r id).0 (state_key id) i s holds)
          answers
