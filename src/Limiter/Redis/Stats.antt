-- ===== src/Limiter/Redis/Stats.antt =====
-- `Stats` of `RedisStore` in internal/limiter/redisstore.go.
use mathlib.Core.Option
use token_bucket_rate_limite.Prelude.{none, some, List, [], ◌∷◌, String, ℤ}
use token_bucket_rate_limite.Prelude.Map.{GoMap, lookup, insert}
use token_bucket_rate_limite.Limiter.Stats.{ClientStats}
use token_bucket_rate_limite.Limiter.Redis.Server.{Redis}

abbrev pub stats_prefix : String
stats_prefix = "ratelimit:stats:"

-- What `Stats` uses beyond the other methods: the keys that the iterator of a SCAN with the pattern
-- gives in turn, strconv.ParseInt, whose error is ignored, and strings.TrimPrefix.
pub record Scans (R T : Type 0) : Type 0 where
  pub scan : R → String → R × List String
  pub parse_int : T → ℤ
  pub trim_prefix : String → String → String

module _ {R T F : Type 0} (redis : Redis R T F) (scans : Scans R T) where
  -- The counts that the fields of a hash stand for; a missing field is an empty string.
  unfoldable pub stats_of_fields : GoMap T → ClientStats
  stats_of_fields fields = record {
    allowed = scans.parse_int (Option.get_or (lookup "allowed" fields) redis.empty);
    denied = scans.parse_int (Option.get_or (lookup "denied" fields) redis.empty);
  }

  -- The loop over the keys. A hash that cannot be read is passed over.
  unfoldable pub read_stats : R → List String → GoMap ClientStats → R × GoMap ClientStats
  read_stats r [] out = (r, out)
  read_stats r (key ∷ keys) out =
      let (after, fields) = redis.hget_all r key in
      let with_client : GoMap T → GoMap ClientStats =
        λ f. insert (scans.trim_prefix key stats_prefix) (stats_of_fields f) out in
      read_stats after keys (elim fields [ none ↦ out | some f ↦ with_client f ])

  unfoldable pub stats : R → R × GoMap ClientStats
  stats r = let (after, keys) = scans.scan r "ratelimit:stats:*" in read_stats after keys []
