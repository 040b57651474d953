-- ===== src/Limiter/Redis/Configured.antt =====
-- The configs of the Redis store on the server in memory, and the theorems at them.
use mathlib.Core.Option
use token_bucket_rate_limite.Prelude.{
  ◌≡◌, refl, ap, ◌∙◌, none, some, [], ◌∷◌, str_eq, eq_iff, if◌then◌else◌, arith, ◌&&◌, is_none,
}
use token_bucket_rate_limite.Prelude.Map.{lookup}
use token_bucket_rate_limite.Float.{num}
use token_bucket_rate_limite.Float.Nano.{Nano, nano_float, Nano-IsOrdered, Nano-IsExact}
use token_bucket_rate_limite.Clock.{at_second}
use token_bucket_rate_limite.Limiter.Config.{Config, validate, algorithm_sliding_window}
use token_bucket_rate_limite.Limiter.Redis.Memory.{
  number, word, Hashes, hash, memory, memory-IsRedis, hash-put, hash-drop, lookup-append,
}
use token_bucket_rate_limite.Limiter.Redis.Store.{invalid, set_config, get_config, remove_client}
use token_bucket_rate_limite.Limiter.Redis.Configs.{IsStoring, get_config-set_config}
use token_bucket_rate_limite.Limiter.Redis.Agreement.{IsShort}
use token_bucket_rate_limite.Limiter.Redis.Store as RedisStore
use token_bucket_rate_limite.Limiter.Redis.Fresh.{full, whole, stores_agree}
use token_bucket_rate_limite.Limiter.TokenBucket
use token_bucket_rate_limite.Limiter.TokenBucket.{new_token_bucket}
use token_bucket_rate_limite.Limiter.Manager
use token_bucket_rate_limite.Limiter.Manager.{Manager, new_manager}
use token_bucket_rate_limite.Limiter.Manager.Updates.{new_manager-IsValid}
use token_bucket_rate_limite.Limiter.Redis.Fixtures.{hour}

memory-IsStoring : IsStoring memory
unfolding hash
memory-IsStoring = record {
  fields = hash;
  read = λ r key. refl;
  hget_read = λ r key field. refl;
  stored = λ r key new. refl;
  lookup_stored = λ r key field new t h.
      ap (lookup field) (hash-put r key key new)
      ∙ ground (arith, eq_iff key key, lookup-append field new (hash r key) t h);
  stored_apart =
      λ r key other new ne. hash-put r key other new ∙ ground (arith, eq_iff key other, ne);
  deleted = λ r keys. refl;
  deleted_fields = λ r keys key. hash-drop keys r key;
  parse_float-of_float = λ x h. refl;
  to_string-of_string = λ s. refl;
}

-- The config and the bucket of client "a".
abbrev hashes : Hashes
hashes =
    (
      "ratelimit:config:a",
      ("rps", number (num 2)) ∷ ("burst", number (num 3)) ∷ ("algorithm", word "token_bucket") ∷ [],
    )
    ∷ ("ratelimit:state:a", ("tokens", number (num 0)) ∷ ("ts", number (num 5000)) ∷ [])
    ∷ []

abbrev new_config : Config Nano
new_config = record { rps = num 5; burst = num 9; algorithm = algorithm_sliding_window }

get_config-set_config_example :
    let (after, error) = set_config memory hour hashes "a" new_config in
    (error ≡ Option.map invalid (validate new_config))
    × ((get_config memory hour after "b").1 ≡ (
        if is_none (validate new_config) && str_eq "a" "b"
        then some new_config
        else (get_config memory hour hashes "b").1))
    × ((get_config memory hour (remove_client memory hour after "a") "b").1
        ≡ (if str_eq "a" "b" then none else (get_config memory hour hashes "b").1))
get_config-set_config_example =
    get_config-set_config memory memory-IsStoring hour hashes "a" new_config refl refl "b"

-- A full bucket of nine, and four each second.
full-IsShort : IsShort (full 9 4 7) 7
full-IsShort = record {
  in_range = record {
    forward = omega arith;
    seconds_fit = omega arith;
    tokens_fit = omega arith;
    capacity_fits = omega arith;
  };
  millis_fit = omega arith;
  capacity_short = omega arith;
  rate_fits = omega arith;
}

stores_agree_example :
    let now = at_second 7 in
    let d = (TokenBucket.allow {F = Nano} (new_token_bucket (num 9) (num 4) now) now).1 in
    ((RedisStore.allow memory hour (set_config memory hour hashes "a" (whole 9 4)).0 "a" now).1 ≡ d)
    × (after : Manager Nano) × (Manager.allow
          (Manager.set_config new_manager "a" (whole 9 4)).0
          "a"
          now
        ≡ some (after, d))
stores_agree_example =
    stores_agree Nano-IsExact 9 4 7 full-IsShort Nano-IsOrdered memory memory-IsRedis
      memory-IsStoring hour hashes "a" new_manager 3600 (omega arith) (omega arith)
      new_manager-IsValid (omega arith, omega arith, refl) (λ f x. refl)
