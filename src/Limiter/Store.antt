-- ===== src/Limiter/Store.antt =====
-- internal/limiter/store.go: the interface of the two stores, and each of them as one.
use token_bucket_rate_limite.Prelude.{Option, some, String}
use token_bucket_rate_limite.Prelude.Map.{GoMap}
use token_bucket_rate_limite.Float.{Float}
use token_bucket_rate_limite.Clock.{Time, Duration}
use token_bucket_rate_limite.Limiter.Config.{Config, ConfigError}
use token_bucket_rate_limite.Limiter.Decision.{Decision}
use token_bucket_rate_limite.Limiter.Stats.{ClientStats}
use token_bucket_rate_limite.Limiter.Manager
use token_bucket_rate_limite.Limiter.Manager.{Manager}
use token_bucket_rate_limite.Limiter.Redis.Server.{Redis}
use token_bucket_rate_limite.Limiter.Redis.Store as RedisStore
use token_bucket_rate_limite.Limiter.Redis.Store.{StoreError}
use token_bucket_rate_limite.Limiter.Redis.Stats as RedisStats
use token_bucket_rate_limite.Limiter.Redis.Stats.{Scans}

-- A store whose state is an `S` and whose errors are `E`. A method may change the state. `allow` is
-- `none` where it would follow a pointer to nothing.
pub record Store (S E F : Type 0) : Type 0 where
  pub allow : S → String → Time → Option (S × Decision F)
  pub set_config : S → String → Config F → S × Option E
  pub get_config : S → String → S × Option (Config F)
  pub remove_client : S → String → S
  pub stats : S → S × GoMap ClientStats

abbrev pub manager_store : {F : Type 0} ⦃fl : Float F⦄ → Store (Manager F) (ConfigError F) F
manager_store = record {
  allow = Manager.allow;
  set_config = Manager.set_config;
  get_config = λ m id. (m, Manager.get_config m id);
  remove_client = Manager.remove_client;
  stats = λ m. (m, Manager.stats m);
}

abbrev pub redis_store :
    {R T F : Type 0} ⦃fl : Float F⦄ → Redis R T F → Scans R T → Duration → Store R (StoreError F) F
redis_store redis scans ttl = record {
  allow = λ r id now. some (RedisStore.allow redis ttl r id now);
  set_config = RedisStore.set_config redis ttl;
  get_config = RedisStore.get_config redis ttl;
  remove_client = RedisStore.remove_client redis ttl;
  stats = RedisStats.stats redis scans;
}
