-- ===== src/Limiter/Redis/Counts.antt =====
-- `Stats` of `RedisStore` against the decisions that it records.
use mathlib.Core.Option
use token_bucket_rate_limite.Prelude.{
  ℕ, suc, ◌^◌, ◌<◌, ◌≡◌, ◌≢◌, Bool, true, false, not, ◌||◌, Option, none, some, List, [], ◌∷◌,
  String, str_eq, pos, All, if◌then◌else◌,
}
use token_bucket_rate_limite.Prelude.Map.{GoMap, lookup}
use token_bucket_rate_limite.Float.{Float}
use token_bucket_rate_limite.Clock.{Duration}
use token_bucket_rate_limite.Limiter.Stats.{ClientStats}
use token_bucket_rate_limite.Limiter.Redis.Server.{Redis}
use token_bucket_rate_limite.Limiter.Redis.Store.{stats_key}
use token_bucket_rate_limite.Limiter.Redis.Stats.{Scans, stats_prefix, stats_of_fields}

abbrev pub is_in : String → List String → Bool
is_in k [] = false
is_in k (j ∷ keys) = str_eq j k || is_in k keys

abbrev pub is_empty {ℓ} : {A : Type ℓ} → List A → Bool
is_empty [] = true
is_empty (x ∷ xs) = false

-- A server that answers, and on which nothing else happens: HGETALL and SCAN read, a hash exists
-- where it has a field, HINCRBY adds to one field of one hash, and EXPIRE changes no field.
pub record IsCounting {R T F : Type 0} (redis : Redis R T F) (scans : Scans R T) : Type 0 where
  pub fields : R → String → GoMap T
  pub keys : R → List String
  pub read : (r : R) (key : String) → redis.hget_all r key ≡ (r, some (fields r key))
  pub scanned : (r : R) → scans.scan r "ratelimit:stats:*" ≡ (r, keys r)
  pub matched : (r : R) → All (λ k. (id : String) × (k ≡ stats_key id)) (keys r)
  pub present :
      (r : R) (id : String)
      → is_in (stats_key id) (keys r) ≡ not (is_empty (fields r (stats_key id)))
  pub trimmed : (id : String) → scans.trim_prefix (stats_key id) stats_prefix ≡ id
  pub no_number : scans.parse_int redis.empty ≡ pos 0
  pub incremented :
      (r : R) (id field : String) (n : ℕ)
      → scans.parse_int (Option.get_or (lookup field (fields r (stats_key id))) redis.empty) ≡ pos n
      → suc n < 2 ^ 63
      → let (after, ok) = redis.hincr_by r (stats_key id) field (pos 1) in
        (ok ≡ true)
        × (is_empty (fields after (stats_key id)) ≡ false)
        × (scans.parse_int (Option.get_or (lookup field (fields after (stats_key id))) redis.empty)
            ≡ pos (suc n))
  pub increment_kept :
      (r : R) (id field other : String)
      → field ≢ other
      → lookup other (fields (redis.hincr_by r (stats_key id) field (pos 1)).0 (stats_key id))
        ≡ lookup other (fields r (stats_key id))
  pub increment_apart :
      (r : R) (id other field : String)
      → id ≢ other
      → fields (redis.hincr_by r (stats_key id) field (pos 1)).0 (stats_key other)
        ≡ fields r (stats_key other)
  pub expired :
      (r : R) (key other : String) (ttl : Duration)
      → fields (redis.expire r key ttl).0 other ≡ fields r other

module _ {R T F : Type 0} ⦃fl : Float F⦄ (redis : Redis R T F) (scans : Scans R T)
    (laws : IsCounting redis scans) where
  -- What `Stats` has of a client.
  abbrev shown : R → String → Option ClientStats
  shown r id =
      let f = laws.fields r (stats_key id) in
      if is_empty f then none else some (stats_of_fields redis scans f)

  module _ (ttl : Duration) (r : R) (id : String) where
    abbrev field_of : Bool → String
    field_of allowed = if allowed then "allowed" else "denied"
