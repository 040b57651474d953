-- ===== src/Limiter/Redis/Configs.antt =====
-- `SetConfig`, `GetConfig` and `RemoveClient` of `RedisStore` in internal/limiter/redisstore.go, on a
-- server that answers.
use mathlib.Core.Option
use token_bucket_rate_limite.Prelude.{
  ◌≡◌, ◌≢◌, refl, ap, subst, ◌∙◌, true, ◌&&◌, Option, none, some, List, [], ◌∷◌, String, str_eq,
  eq_iff, arith, is_none, Option-cases, Bool-cases, inl, inr, if◌then◌else◌,
}
use token_bucket_rate_limite.Prelude.Map.{GoMap, lookup}
use token_bucket_rate_limite.Float.{Float}
use token_bucket_rate_limite.Clock.{Duration}
use token_bucket_rate_limite.Limiter.Config.{Config, validate}
use token_bucket_rate_limite.Limiter.Redis.Server.{Redis}
use token_bucket_rate_limite.Limiter.Redis.Store.{
  state_key, config_key, invalid, config_of_fields, get_config, set_config, remove_client,
}
use token_bucket_rate_limite.Limiter.Redis.Keys.{keys_separate}
use token_bucket_rate_limite.Limiter.Redis.Counts.{is_in}

-- A server that answers, and on which nothing else happens: HGETALL and HGET read, HSET sets the
-- fields that it names in one hash, DEL removes the hashes that it names. What is sent for a float64
-- that is no NaN, or for a string, is read back as it.
pub record IsStoring {R T F : Type 0} ⦃fl : Float F⦄ (redis : Redis R T F) : Type 0 where
  pub fields : R → String → GoMap T
  pub read : (r : R) (key : String) → redis.hget_all r key ≡ (r, some (fields r key))
  pub hget_read :
      (r : R) (key field : String) → redis.hget r key field ≡ lookup field (fields r key)
  pub stored : (r : R) (key : String) (new : GoMap T) → (redis.hset r key new).1 ≡ true
  pub lookup_stored :
      (r : R) (key field : String) (new : GoMap T) (t : T)
      → lookup field new ≡ some t
      → lookup field (fields (redis.hset r key new).0 key) ≡ some t
  pub stored_apart :
      (r : R) (key other : String) (new : GoMap T)
      → key ≢ other
      → fields (redis.hset r key new).0 other ≡ fields r other
  pub deleted : (r : R) (keys : List String) → (redis.del r keys).1 ≡ true
  pub deleted_fields :
      (r : R) (keys : List String) (key : String)
      → fields (redis.del r keys).0 key ≡ (if is_in key keys then [] else fields r key)
  pub parse_float-of_float : (x : F) → fl.le x x ≡ true → redis.parse_float (redis.of_float x) ≡ x
  pub to_string-of_string : (s : String) → redis.to_string (redis.of_string s) ≡ s

module _ {R T F : Type 0} ⦃fl : Float F⦄ (redis : Redis R T F) (laws : IsStoring redis)
    (ttl : Duration) where
  get_config_lem :
      (r : R) (id : String)
      → get_config redis ttl r id ≡ (r, config_of_fields redis ttl (laws.fields r (config_key id)))
  unfolding get_config Option.bind
  get_config_lem r id = rw (laws.read r (config_key id)) refl

  some_fields :
      (fields : GoMap T) (cfg : Config F)
      → lookup "rps" fields ≡ some (redis.of_float cfg.rps)
      → lookup "burst" fields ≡ some (redis.of_float cfg.burst)
      → lookup "algorithm" fields ≡ some (redis.of_string cfg.algorithm)
      → fl.le cfg.rps cfg.rps ≡ true
      → fl.le cfg.burst cfg.burst ≡ true
      → config_of_fields redis ttl fields ≡ some cfg
  unfolding config_of_fields lookup
  some_fields [] cfg rps burst algorithm a b = cc
  some_fields (entry ∷ entries) cfg rps burst algorithm a b =
      rw
        (
          rps,
          burst,
          algorithm,
          laws.parse_float-of_float cfg.rps a,
          laws.parse_float-of_float cfg.burst b,
          laws.to_string-of_string cfg.algorithm,
        )
        refl

  get_config-remove_client :
      (r : R) (id j : String)
      → (get_config redis ttl (remove_client redis ttl r id) j).1
        ≡ (if str_eq id j then none else (get_config redis ttl r j).1)
  unfolding remove_client
  get_config-remove_client r id j =
      let left = (redis.del r (config_key id ∷ state_key id ∷ [])).0 in
      let fields = laws.deleted_fields r (config_key id ∷ state_key id ∷ []) (config_key j) in
      elim (Bool-cases (str_eq id j)) [
        | inl mine ↦
            let is_j : config_key id ≡ config_key j = ap config_key (ground (arith, eq_iff id j)) in
            let gone : laws.fields left (config_key j) ≡ [] =
              fields ∙ ground (arith, eq_iff (config_key id) (config_key j), is_j) in
            rw (mine, get_config_lem left j, gone) (unfold config_of_fields in refl)
        | inr other ↦
            let apart = (keys_separate id j).0 in
            let same : laws.fields left (config_key j) ≡ laws.fields r (config_key j) =
              fields
              ∙ ground (
                arith,
                eq_iff (config_key id) (config_key j),
                eq_iff (state_key id) (config_key j),
                eq_iff id j,
                (keys_separate id j).4,
                apart,
              ) in
            rw (other, get_config_lem left j, same, get_config_lem r j) refl
      ]

  module _ (r : R) (id : String) (cfg : Config F) (rps_number : fl.le cfg.rps cfg.rps ≡ true)
      (burst_number : fl.le cfg.burst cfg.burst ≡ true) where
    abbrev new_fields : GoMap T
    new_fields =
        ("rps", redis.of_float cfg.rps)
        ∷ ("burst", redis.of_float cfg.burst)
        ∷ ("algorithm", redis.of_string cfg.algorithm)
        ∷ []

    abbrev pub with_config : R
    with_config = (redis.hset r (config_key id) new_fields).0

    abbrev pub configured : R
    configured = (redis.del with_config (state_key id ∷ [])).0

    -- A valid config is stored, and the bucket of the client dropped.
    pub set_config_valid : validate cfg ≡ none → set_config redis ttl r id cfg ≡ (configured, none)
    unfolding set_config
    set_config_valid good =
        rw
          (
            good,
            set_config,
            laws.stored r (config_key id) new_fields,
            laws.deleted with_config (state_key id ∷ []),
          )
          refl

    pub state_dropped : laws.fields configured (state_key id) ≡ []
    state_dropped =
        rw (laws.deleted_fields with_config (state_key id ∷ []) (state_key id))
          (ground (arith, eq_iff (state_key id) (state_key id)))

    config_fields :
        (j : String)
        → laws.fields configured (config_key j) ≡ laws.fields with_config (config_key j)
    config_fields j =
        let apart = (keys_separate id j).0 in
        rw (laws.deleted_fields with_config (state_key id ∷ []) (config_key j))
          (ground (arith, eq_iff (state_key id) (config_key j), apart))

    -- The configs after a valid one is stored.
    pub get_configured :
        (j : String)
        → get_config redis ttl configured j
          ≡ (configured, if str_eq id j then some cfg else (get_config redis ttl r j).1)
    unfolding lookup
    get_configured j = elim (Bool-cases (str_eq id j)) [
      | inl mine ↦
          let is_j : id ≡ j = ground (arith, eq_iff id j) in
          let fields = laws.fields with_config (config_key id) in
          let kept = config_fields id in
          rw mine (
            subst (λ k. get_config redis ttl configured k ≡ (configured, some cfg)) is_j
              (get_config_lem configured id
                ∙ rw kept (
                    ap (λ o. (configured, o))
                      (some_fields fields cfg
                        (laws.lookup_stored r (config_key id) "rps" new_fields
                          (redis.of_float cfg.rps) refl)
                        (laws.lookup_stored r (config_key id) "burst" new_fields
                          (redis.of_float cfg.burst) refl)
                        (laws.lookup_stored r (config_key id) "algorithm" new_fields
                          (redis.of_string cfg.algorithm) refl)
                        rps_number burst_number))))
      | inr other ↦
          let apart : config_key id ≢ config_key j =
            λ e. ground (arith, eq_iff id j, (keys_separate id j).4 e) in
          let same =
            config_fields j ∙ laws.stored_apart r (config_key id) (config_key j) new_fields apart in
          rw other (get_config_lem configured j ∙ rw (same, get_config_lem r j) refl)
    ]

    -- The config of another client is the one that it was.
    only_own :
        (j : String)
        → (if str_eq id j then none else (get_config redis ttl configured j).1)
          ≡ (if str_eq id j then none else (get_config redis ttl r j).1)
    only_own j = elim (Bool-cases (str_eq id j)) [
      | inl mine ↦ rw mine refl
      | inr other ↦ rw (get_configured j, other) refl
    ]

    -- On a server that answers and on which nothing else happens, for a config whose numbers are no
    -- NaN: `SetConfig` gives the error of `Validate`. After it `GetConfig` gives the config for this
    -- client if it is valid, and for every other client, and for this one if it is not, what it gave
    -- before. After `RemoveClient` it gives none for this client, and for every other what it gave.
    pub get_config-set_config :
        (j : String)
        → let (after, error) = set_config redis ttl r id cfg in
          (error ≡ Option.map invalid (validate cfg))
          × ((get_config redis ttl after j).1 ≡ (
              if is_none (validate cfg) && str_eq id j
              then some cfg
              else (get_config redis ttl r j).1))
          × ((get_config redis ttl (remove_client redis ttl after id) j).1
              ≡ (if str_eq id j then none else (get_config redis ttl r j).1))
    unfolding set_config
    get_config-set_config j = elim (Option-cases (validate cfg)) [
      | inl good ↦
          rw (good, set_config_valid good)
            (
              refl,
              ap (λ (x : R × Option (Config F)). x.1) (get_configured j),
              get_config-remove_client configured id j ∙ only_own j,
            )
      | inr (error, bad) ↦ rw (bad, set_config) (refl, refl, get_config-remove_client r id j)
    ]
