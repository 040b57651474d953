-- ===== src/Server/Restarts.antt =====
-- When the server of main.go panics, on either store.
use mathlib.Core.Option
use token_bucket_rate_limite.Prelude.{
  ◌≡◌, ◌≢◌, ◌↔◌, refl, ◌∙◌, inl, inr, some, none, Option, List, [], ◌∷◌, String, str_eq, eq_iff,
  arith, ℤ, negsuc, pos, ◌^◌, ◌≤ℤ◌, Bool-cases,
}
use token_bucket_rate_limite.Float.{Float}
use token_bucket_rate_limite.Limiter.Config.{ConfigError}
use token_bucket_rate_limite.Limiter.Manager.{Manager}
use token_bucket_rate_limite.Limiter.Store.{redis_store}
use token_bucket_rate_limite.Limiter.Redis.Server.{Redis}
use token_bucket_rate_limite.Limiter.Redis.Store.{StoreError}
use token_bucket_rate_limite.Limiter.Redis.Stats.{Scans}
use token_bucket_rate_limite.Http.Defs.{Response, Codec}
use token_bucket_rate_limite.Http.Handlers.{check}
use token_bucket_rate_limite.Http.Routes.{
  Mux, IsMux, routes, register_admin, register_check, register_stats,
}
use token_bucket_rate_limite.Disk.{Files, Json}
use token_bucket_rate_limite.Server.Settings.{ServerConfig, load_config, env_or}
use token_bucket_rate_limite.Server.Main.{Event, asks, ticks}
use token_bucket_rate_limite.Server.Backends.{redis_state_ttl, run_in_redis, World, main}
use token_bucket_rate_limite.Server.Tables.{
  AreServing, AreServing-insert, AreServing-empty, serve-AreServing,
}
use token_bucket_rate_limite.Server.Shutdown.{IsJson}
use token_bucket_rate_limite.Server.Interval.{interval_text, IsRefused, run_in_memory-none_iff}

map-none : {A B : Type 0} (f : A → B) (o : Option A) → (Option.map f o ≡ none) ↔ (o ≡ none)
map-none f none = (λ e. refl, λ e. refl)
map-none f (some a) = (λ e. cc, λ e. cc)

-- Only the value "redis" of BACKEND chooses Redis.
backend-redis :
    (env : String → String) (atoi : String → Option ℤ)
    → str_eq (load_config env atoi).backend "redis" ≡ str_eq (env "BACKEND") "redis"
unfolding load_config env_or
backend-redis env atoi = elim (Bool-cases (str_eq (env "BACKEND") "")) [
  | inl unset ↦
      let empty : env "BACKEND" ≡ "" = ground (arith, eq_iff (env "BACKEND") "") in
      rw (unset, load_config) (rw empty refl)
  | inr set ↦ rw (set, load_config)
]

module _ {R T F : Type 0} ⦃fl : Float F⦄ (redis : Redis R T F) (scans : Scans R T)
    (codec : Codec (StoreError F) F) where
  abbrev IsAny : R → Type 0
  IsAny r = Unit

  -- No handler panics, whatever the Redis server answers.
  redis_routes-AreServing :
      AreServing IsAny (routes (redis_store redis scans redis_state_ttl) codec)
  unfolding routes register_admin register_check register_stats check
  redis_routes-AreServing =
      AreServing-insert IsAny _ _ _ (λ r key body now v. (_, _, refl, tt))
        (AreServing-insert IsAny _ _ _ (λ r key body now v. (_, _, refl, tt))
          (AreServing-insert IsAny _ _ _ (λ r key body now v. (_, _, refl, tt))
            (AreServing-insert IsAny _ _ _ (λ r key body now v. (_, _, refl, tt))
              (AreServing-insert IsAny _ _ _ (λ r key body now v. (_, _, refl, tt))
                (AreServing-insert IsAny _ _ _ (λ r key body now v. (_, _, refl, tt))
                  (AreServing-empty IsAny))))))

  module _ (mux : Mux R) (laws : IsMux mux) where
    run_in_redis-some :
        (r : R) (ys : List Event)
        → (after : R) × (vs : List Response) × (run_in_redis redis scans codec mux r ys
            ≡ some (after, vs))
    unfolding run_in_redis
    run_in_redis-some r [] = (r, [], refl)
    run_in_redis-some r (ticks ∷ ys) = run_in_redis-some r ys
    run_in_redis-some r (asks q now ∷ ys) =
        let (next, w, same, any) =
          serve-AreServing (redis_store redis scans redis_state_ttl) codec IsAny mux r q now laws
            redis_routes-AreServing tt in
        let (after, vs, runs) = run_in_redis-some next ys in
        (after, w ∷ vs, rw (same, run_in_redis, runs))

module _ {D R T F : Type 0} ⦃fl : Float F⦄ (files : Files D) (json : Json F) (redis : Redis R T F)
    (scans : Scans R T) (memory_codec : Codec (ConfigError F) F)
    (redis_codec : Codec (StoreError F) F) (memory_mux : Mux (Manager F)) (redis_mux : Mux R) where
  abbrev run : ServerConfig → World D R → List Event → Option (World D R)
  run = main files json redis scans memory_codec redis_codec memory_mux redis_mux

  -- On a ServeMux and an encoding/json as documented, where SNAPSHOT_INTERVAL_SECS is unset, is no
  -- number, or is a number of seconds within 272 years either way: the server panics if, and only
  -- if, BACKEND is not "redis" and SNAPSHOT_INTERVAL_SECS is a number and not above 0.
  pub main-none_iff :
      (env : String → String) (atoi : String → Option ℤ) (w : World D R) (events : List Event)
      → IsJson json
      → IsMux memory_mux
      → IsMux redis_mux
      → ((secs : ℤ)
          → atoi (interval_text env atoi) ≡ some secs
          → (negsuc (2 ^ 33) ≤ℤ secs) × (secs ≤ℤ pos (2 ^ 33)))
      → (run (load_config env atoi) w events ≡ none)
        ↔ ((env "BACKEND" ≢ "redis") × IsRefused env atoi)
  unfolding main load_config
  main-none_iff env atoi w events json_laws memory_laws redis_laws range =
      let cfg = load_config env atoi in
      let in_memory =
        run_in_memory-none_iff files json memory_codec memory_mux json_laws memory_laws env atoi
          w.disk events range in
      let (after, vs, runs) =
        run_in_redis-some redis scans redis_codec redis_mux redis_laws w.server events in
      elim (Bool-cases (str_eq (env "BACKEND") "redis")) [
        | inl redis_chosen ↦
            let is_redis = backend-redis env atoi ∙ redis_chosen in
            rw (is_redis, main, runs)
              (λ e. cc, λ r. absurd (r.0 ((eq_iff (env "BACKEND") "redis").0 redis_chosen)))
        | inr other ↦
            let is_memory = backend-redis env atoi ∙ other in
            let no_redis : env "BACKEND" ≢ "redis" =
              λ e. ground (arith, eq_iff (env "BACKEND") "redis") in
            rw (is_memory, main)
              (
                λ e. (no_redis, in_memory.0 ((map-none _ _).0 e)),
                λ r. (map-none _ _).1 (in_memory.1 r.1),
              )
      ]
