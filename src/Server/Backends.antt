-- ===== src/Server/Backends.antt =====
-- `main` of main.go with either store. BACKEND chooses it: Redis for "redis", and the memory for every
-- other value, with a line in the log.
use mathlib.Core.Option
use token_bucket_rate_limite.Prelude.{str_eq, Option, none, some, List, [], ◌∷◌, pos, if◌then◌else◌}
use token_bucket_rate_limite.Float.{Float}
use token_bucket_rate_limite.Clock.{Duration}
use token_bucket_rate_limite.Limiter.Config.{ConfigError}
use token_bucket_rate_limite.Limiter.Manager.{Manager}
use token_bucket_rate_limite.Limiter.Store.{redis_store}
use token_bucket_rate_limite.Limiter.Redis.Server.{Redis}
use token_bucket_rate_limite.Limiter.Redis.Store.{StoreError}
use token_bucket_rate_limite.Limiter.Redis.Stats.{Scans}
use token_bucket_rate_limite.Http.Defs.{Response, Codec}
use token_bucket_rate_limite.Http.Routes.{Mux, serve}
use token_bucket_rate_limite.Disk.{Files, Json}
use token_bucket_rate_limite.Server.Settings.{ServerConfig}
use token_bucket_rate_limite.Server.Main.{Event, asks, ticks, run_in_memory}

-- One hour.
abbrev pub redis_state_ttl : Duration
redis_state_ttl = pos 3_600_000_000_000

module _ {R T F : Type 0} ⦃fl : Float F⦄ (redis : Redis R T F) (scans : Scans R T)
    (codec : Codec (StoreError F) F) (mux : Mux R) where
  -- A run of the server on the store in Redis: what it leaves on the Redis server, and its answers. No
  -- snapshotter runs, so a tick does nothing.
  unfoldable pub run_in_redis : R → List Event → Option (R × List Response)
  run_in_redis r [] = some (r, [])
  run_in_redis r (ticks ∷ events) = run_in_redis r events
  run_in_redis r (asks request now ∷ events) =
      elim (serve (redis_store redis scans redis_state_ttl) codec mux r request now) [
        | none ↦ none
        | some (after, w) ↦ Option.map (λ rest. (rest.0, w ∷ rest.1)) (run_in_redis after events)
      ]

-- What outlives the process.
pub record World (D R : Type 0) : Type 0 where
  pub disk : D
  pub server : R

module _ {D R T F : Type 0} ⦃fl : Float F⦄ (files : Files D) (json : Json F) (redis : Redis R T F)
    (scans : Scans R T) (memory_codec : Codec (ConfigError F) F)
    (redis_codec : Codec (StoreError F) F) (memory_mux : Mux (Manager F)) (redis_mux : Mux R) where
  -- `none` is a panic.
  unfoldable pub main : ServerConfig → World D R → List Event → Option (World D R)
  main cfg w events =
      if str_eq cfg.backend "redis"
      then Option.map (λ r. record w { server = r.0 })
          (run_in_redis redis scans redis_codec redis_mux w.server events)
      else Option.map (λ r. record w { disk = r.0 })
          (run_in_memory files json memory_codec memory_mux cfg w.disk events)
