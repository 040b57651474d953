-- ===== src/Limiter/Redis/Fresh.antt =====
-- The first request after `SetConfig`, on the store in memory and on the store in Redis: manager.go and
-- redisstore.go of internal/limiter.
use mathlib.Core.Option
use token_bucket_rate_limite.Prelude.{
  ℕ, ◌≤◌, ◌<◌, ◌≡◌, refl, sym, ap, subst, ◌∙◌, true, Option, none, some, List, String, pos, arith,
  eq_iff, str_eq,
}
use token_bucket_rate_limite.Prelude.Map.{lookup}
use token_bucket_rate_limite.Float.{Float, num}
use token_bucket_rate_limite.Float.Laws.{IsOrdered}
use token_bucket_rate_limite.Float.Exact.{IsExact, exact_max}
use token_bucket_rate_limite.Clock.{Duration, at_second}
use token_bucket_rate_limite.Limiter.Config.{Config, algorithm_token_bucket, validate}
use token_bucket_rate_limite.Limiter.TokenBucket
use token_bucket_rate_limite.Limiter.TokenBucket.{new_token_bucket}
use token_bucket_rate_limite.Limiter.TokenBucket.Ideal.{Ideal}
use token_bucket_rate_limite.Limiter.Algorithm
use token_bucket_rate_limite.Limiter.Algorithm.{new_limiter}
use token_bucket_rate_limite.Limiter.Manager
use token_bucket_rate_limite.Limiter.Manager.{Manager, default_config}
use token_bucket_rate_limite.Limiter.Manager.View.{view, IsValid, client_allow, allow-view}
use token_bucket_rate_limite.Limiter.Manager.Updates.{set_config-view}
use token_bucket_rate_limite.Limiter.Redis.Server.{Redis, IsRedis, reply_of}
use token_bucket_rate_limite.Limiter.Redis.Script.{loaded, read_number}
use token_bucket_rate_limite.Limiter.Redis.Store as RedisStore
use token_bucket_rate_limite.Limiter.Redis.Store.{state_key, get_config}
use token_bucket_rate_limite.Limiter.Redis.Agreement.{IsShort, Loads}
use token_bucket_rate_limite.Limiter.Redis.Closed.{config_used}
use token_bucket_rate_limite.Limiter.Redis.Decisions.{allow-Loads}
use token_bucket_rate_limite.Limiter.Redis.Configs.{
  IsStoring, configured, set_config_valid, state_dropped, get_configured,
}

abbrev pub full : ℕ → ℕ → ℕ → Ideal
full burst rate s = record { tokens = burst; anchor = s; capacity = burst; rate = rate }

abbrev pub whole : {F : Type 0} ⦃fl : Float F⦄ → ℕ → ℕ → Config F
whole burst rate = record { rps = num rate; burst = num burst; algorithm = algorithm_token_bucket }

module _ {F : Type 0} ⦃fl : Float F⦄ (exact : IsExact F) (burst rate s : ℕ)
    (short : IsShort (full burst rate s) s) where
  open exact use {le-num, lt-num}

  whole_number : (n : ℕ) → n ≤ exact_max → fl.le (num n) (num n) ≡ true
  whole_number n h = ground (arith, le-num n n h h)

  whole_valid : 0 < rate → 0 < burst → validate {F = F} (whole burst rate) ≡ none
  unfolding validate
  whole_valid some_rate some_burst = ground (
    arith,
    le-num rate 0 short.rate_fits (omega arith),
    lt-num burst 1 short.in_range.capacity_fits (omega arith),
  )

  module _ {R T : Type 0} (ordered : IsOrdered F) (redis : Redis R T F) (laws : IsRedis redis)
      (server : IsStoring redis) (ttl : Duration) (r : R) (id : String) where
    rate_number : fl.le (num rate) (num rate) ≡ true
    rate_number = whole_number rate short.rate_fits

    burst_number : fl.le (num burst) (num burst) ≡ true
    burst_number = whole_number burst short.in_range.capacity_fits

    abbrev after_config : R
    after_config = configured redis server ttl r id (whole burst rate) rate_number burst_number

    -- The script finds no bucket and begins with a full one.
    full-Loads : Loads redis laws exact after_config (state_key id) (full burst rate s) s
    unfolding loaded read_number lookup Option.bind state_key
    full-Loads =
        let empty =
          state_dropped redis server ttl r id (whole burst rate) rate_number burst_number in
        let none_there = server.hget_read after_config (state_key id) "tokens" in
        rw (none_there, empty) refl

    -- A valid manager and a server of Redis that answers, and on which nothing else happens, are given
    -- the same config: a token bucket with whole rate and burst from 1 on, that fit Lua's 14 digits.
    -- Whatever they held of the client, at a whole second the next request gets the same decision of
    -- both, in every field: that of a new bucket.
    pub stores_agree :
        (m : Manager F) (k : ℕ)
        → 0 < rate
        → 0 < burst
        → IsValid m
        → (0 < k) × (k ≤ exact_max) × (fl.to_ℤ (fl.seconds ttl) ≡ pos k)
        → ((f : R → R × Option (List F)) (x : R) → (redis.run f x).1 ≡ Option.map reply_of (f x).1)
        → let now = at_second s in
          let d = (TokenBucket.allow {F = F} (new_token_bucket (num burst) (num rate) now) now).1 in
          ((RedisStore.allow redis ttl
              (RedisStore.set_config redis ttl r id (whole burst rate)).0
              id
              now).1
            ≡ d)
          × (after : Manager F) × (Manager.allow
                (Manager.set_config m id (whole burst rate)).0
                id
                now
              ≡ some (after, d))
    unfolding new_token_bucket new_limiter Algorithm.allow
    stores_agree m k some_rate some_burst valid lifetime answers =
        let now = at_second s in
        let cfg : Config F = whole burst rate in
        let good = whole_valid some_rate some_burst in
        let set = set_config_valid redis server ttl r id cfg rate_number burst_number good in
        let got = get_configured redis server ttl r id cfg rate_number burst_number id in
        let (same_error, configured_valid, seen) = set_config-view m valid id cfg in
        let (after, answered, _, _) =
          allow-view (Manager.set_config m id cfg).0 configured_valid id now in
        let same_id : str_eq id id ≡ true = ground (arith, eq_iff id id) in
        let used : config_used redis ttl after_config id ≡ cfg =
          ap (λ (x : R × Option (Config F)). Option.get_or x.1 default_config) got
          ∙ rw same_id refl in
        let asked : (get_config redis ttl after_config id).0 ≡ after_config =
          ap (λ (x : R × Option (Config F)). x.0) got in
        let fresh : Loads redis laws exact (get_config redis ttl after_config id).0 (state_key id)
            (full burst rate s) s =
          subst (λ x. Loads redis laws exact x (state_key id) (full burst rate s) s) (sym asked)
            full-Loads in
        let here : view (Manager.set_config m id cfg).0 id
            ≡ record { config = some cfg; limiter = none; counts = (view m id).counts } =
          seen id ∙ rw (good, same_id) refl in
        (
          rw set (
              allow-Loads ordered exact redis laws ttl (full burst rate s) s k after_config id
                algorithm_token_bucket short lifetime used fresh (λ f. answers f _)),
          after,
          answered ∙ ap (λ c. some (after, (client_allow c now).1)) here,
        )
