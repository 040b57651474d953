-- ===== src/Limiter/Redis/Fixtures.antt =====
-- A client on the Redis server in memory, for the tests.
use mathlib.Core.Option
use token_bucket_rate_limite.Prelude.{◌≡◌, refl, [], ◌∷◌, pos}
use token_bucket_rate_limite.Prelude.Map.{lookup}
use token_bucket_rate_limite.Float.{num}
use token_bucket_rate_limite.Float.Nano.{Nano, nano_float, Nano-IsExact}
use token_bucket_rate_limite.Clock.{Duration}
use token_bucket_rate_limite.Limiter.Config.{Config, algorithm_token_bucket}
use token_bucket_rate_limite.Limiter.TokenBucket.Ideal.{Ideal}
use token_bucket_rate_limite.Limiter.Redis.Memory.{
  number, word, Hashes, hash, memory, memory-IsRedis,
}
use token_bucket_rate_limite.Limiter.Redis.Script.{read_number}
use token_bucket_rate_limite.Limiter.Redis.Store.{config_key, get_config, config_of_fields}
use token_bucket_rate_limite.Limiter.Redis.Closed.{config_used}
use token_bucket_rate_limite.Limiter.Redis.Agreement.{Holds}

-- Two tokens of three at second 5, and two more each second.
abbrev pub half_used : Ideal
half_used = record { tokens = 2; anchor = 5; capacity = 3; rate = 2 }

abbrev pub half_used_config : Config Nano
half_used_config = record { rps = num 2; burst = num 3; algorithm = algorithm_token_bucket }

abbrev pub hour : Duration
hour = pos 3_600_000_000_000

-- The hashes of client "a".
abbrev pub hashes : Hashes
hashes =
    (
      "ratelimit:config:a",
      ("rps", number (num 2)) ∷ ("burst", number (num 3)) ∷ ("algorithm", word "token_bucket") ∷ [],
    )
    ∷ ("ratelimit:state:a", ("tokens", number (num 2)) ∷ ("ts", number (num 5000)) ∷ [])
    ∷ []

pub hashes-Holds : Holds memory memory-IsRedis Nano-IsExact hashes "ratelimit:state:a" half_used
unfolding read_number hash lookup Option.bind
hashes-Holds = (refl, refl)

pub hashes_config : config_used memory hour hashes "a" ≡ half_used_config
unfolding get_config config_of_fields config_key hash lookup Option.bind
hashes_config = refl
