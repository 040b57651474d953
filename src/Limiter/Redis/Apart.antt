-- ===== src/Limiter/Redis/Apart.antt =====
-- The commands that internal/limiter/redisstore.go sends, and the hashes that they leave alone.
use mathlib.Core.Option
use token_bucket_rate_limite.Prelude.{
  [], ◌≡◌, ◌≢◌, refl, sym, ap, ◌∙◌, Bool, Option, some, List, String, if◌then◌else◌, pos, ℤ,
  Option-cases, Bool-cases, inl, inr,
}
use token_bucket_rate_limite.Prelude.Map.{GoMap, lookup}
use token_bucket_rate_limite.Float.{Float}
use token_bucket_rate_limite.Float.Exact.{IsExact}
use token_bucket_rate_limite.Clock.{Duration}
use token_bucket_rate_limite.Limiter.TokenBucket.Ideal.{Ideal}
use token_bucket_rate_limite.Limiter.Redis.Server.{Redis, IsRedis, reply_of}
use token_bucket_rate_limite.Limiter.Redis.Script.{
  Arguments, token_bucket_lua, refill_and_consume, read_number,
}
use token_bucket_rate_limite.Limiter.Redis.Store.{
  config_key, stats_key, get_config, config_of_fields, record_decision,
}
use token_bucket_rate_limite.Limiter.Redis.Closed.{config_used}
use token_bucket_rate_limite.Limiter.Redis.Agreement.{Holds}

-- A server that answers, and on which nothing else happens: HGETALL and HGET read, a script runs as
-- one step, HSET, HINCRBY and EXPIRE change no hash but the one that they name, and a key whose time
-- to live has run out is gone.
pub record IsAnswering {R T F : Type 0} ⦃fl : Float F⦄ (redis : Redis R T F) : Type 0 where
  pub fields : R → String → GoMap T
  pub read : (r : R) (key : String) → redis.hget_all r key ≡ (r, some (fields r key))
  pub hget_read :
      (r : R) (key field : String) → redis.hget r key field ≡ lookup field (fields r key)
  pub runs :
      (f : R → R × Option (List F)) (r : R) → redis.run f r ≡ ((f r).0, Option.map reply_of (f r).1)
  pub hset_call_apart :
      (r : R) (key other : String) (new : GoMap T)
      → key ≢ other
      → fields (redis.hset_call r key new) other ≡ fields r other
  pub expire_call_apart :
      (r : R) (key other : String) (seconds : F)
      → key ≢ other
      → fields (redis.expire_call r key seconds) other ≡ fields r other
  pub hincr_by_apart :
      (r : R) (key other field : String) (n : ℤ)
      → key ≢ other
      → fields (redis.hincr_by r key field n).0 other ≡ fields r other
  pub expire_apart :
      (r : R) (key other : String) (d : Duration)
      → key ≢ other
      → fields (redis.expire r key d).0 other ≡ fields r other
  pub lapsed : (r : R) (key : String) → fields (redis.lapse r key) key ≡ []
  pub lapse_apart :
      (r : R) (key other : String) → key ≢ other → fields (redis.lapse r key) other ≡ fields r other

module _ {R T F : Type 0} ⦃fl : Float F⦄ (redis : Redis R T F) (server : IsAnswering redis)
    (ttl : Duration) where
  refill_apart :
      (r : R) (key other : String) (capacity rate now : F) (ttl_seconds : T)
      → key ≢ other
      → server.fields (refill_and_consume redis key capacity rate now ttl_seconds r).0 other
        ≡ server.fields r other
  unfolding refill_and_consume
  refill_apart r key other capacity rate now ttl_seconds apart =
      elim (Option-cases (redis.tonumber ttl_seconds)) [
        | inl bad ↦ rw (bad, refill_and_consume) (server.hset_call_apart r key other _ apart)
        | inr (seconds, good) ↦
            rw (good, refill_and_consume)
              (server.expire_call_apart _ key other seconds apart
                ∙ server.hset_call_apart r key other _ apart)
      ]

  -- A script changes no hash but the one of its key.
  pub script_apart :
      (r : R) (key other : String) (args : Arguments T)
      → key ≢ other
      → server.fields (token_bucket_lua redis key args r).0 other ≡ server.fields r other
  unfolding token_bucket_lua
  script_apart r key other args apart = elim (Option-cases (redis.tonumber args.capacity)) [
    | inl bad ↦ rw (bad, token_bucket_lua) refl
    | inr (capacity, a) ↦ elim (Option-cases (redis.tonumber args.refill_rate)) [
      | inl bad ↦ rw (a, bad, token_bucket_lua) refl
      | inr (rate, b) ↦ elim (Option-cases (redis.tonumber args.now_millis)) [
        | inl bad ↦ rw (a, b, bad, token_bucket_lua) refl
        | inr (now, c) ↦
            rw (a, b, c, token_bucket_lua)
              (refill_apart r key other capacity rate now args.ttl_seconds apart)
      ]
    ]
  ]

  pub tally_apart :
      (r : R) (id other : String) (allowed : Bool)
      → stats_key id ≢ other
      → server.fields (record_decision redis ttl r id allowed) other ≡ server.fields r other
  unfolding record_decision
  tally_apart r id other allowed apart =
      let field : String = if allowed then "allowed" else "denied" in
      let (hit, ok) = redis.hincr_by r (stats_key id) field (pos 1) in
      let same = server.hincr_by_apart r (stats_key id) other field (pos 1) apart in
      elim (Bool-cases ok) [
        | inl good ↦ rw good (server.expire_apart hit (stats_key id) other ttl apart ∙ same)
        | inr bad ↦ rw bad same
      ]

  pub config_lem :
      (r : R) (id : String)
      → get_config redis ttl r id
        ≡ (r, config_of_fields redis ttl (server.fields r (config_key id)))
  unfolding get_config Option.bind
  config_lem r id = rw (server.read r (config_key id)) refl

  pub config_kept :
      (r after : R) (id : String)
      → server.fields after (config_key id) ≡ server.fields r (config_key id)
      → config_used redis ttl after id ≡ config_used redis ttl r id
  config_kept r after id same = rw (config_lem after id, config_lem r id, same) refl

  module _ (exact : IsExact F) (laws : IsRedis redis) where
    pub kept-Holds :
        (r after : R) (key : String) (i : Ideal)
        → server.fields after key ≡ server.fields r key
        → Holds redis laws exact r key i
        → Holds redis laws exact after key i
    unfolding read_number Option.bind
    kept-Holds r after key i same (tokens, ts) =
        let kept : (field : String) → redis.hget after key field ≡ redis.hget r key field = λ field.
          server.hget_read after key field
          ∙ ap (lookup field) same
          ∙ sym (server.hget_read r key field) in
        (
          ap (λ o. Option.bind o redis.tonumber) (kept "tokens") ∙ tokens,
          ap (λ o. Option.bind o redis.tonumber) (kept "ts") ∙ ts,
        )
