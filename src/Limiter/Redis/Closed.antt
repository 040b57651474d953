-- ===== src/Limiter/Redis/Closed.antt =====
-- Requests to the store of internal/limiter/redisstore.go, whatever the server answers.
use mathlib.Core.Option
use token_bucket_rate_limite.Prelude.{
  ◌≡◌, ◌↔◌, ◌⊎◌, inl, inr, refl, true, Option, none, some, [], ◌∷◌, String, ℤ, pos, negsuc, arith,
}
use token_bucket_rate_limite.Float.{Float}
use token_bucket_rate_limite.Clock.{Time, Duration}
use token_bucket_rate_limite.Limiter.Config.{Config}
use token_bucket_rate_limite.Limiter.Manager.{default_config}
use token_bucket_rate_limite.Limiter.Redis.Server.{
  Redis, Value, integer, no_integer, Reply, array, no_array,
}
use token_bucket_rate_limite.Limiter.Redis.Script.{token_bucket_lua}
use token_bucket_rate_limite.Limiter.Redis.Store.{
  state_key, int_of, three_values, closed, decided, decision_of, get_config, arguments,
  record_decision, allow,
}

-- A reply of three values, the first of them the integer 1.
abbrev pub SaysAllow : Option Reply → Type 0
SaysAllow reply = (b c : Value) × (reply ≡ some (array (integer (pos 1) ∷ b ∷ c ∷ [])))

module _ {F : Type 0} ⦃fl : Float F⦄ where
  decision_of_cases :
      (cfg : Config F) (reply : Option Reply)
      → ((decision_of cfg reply).allowed ≡ true ↔ SaysAllow reply)
        × ((Option.bind reply three_values ≡ none) × (decision_of cfg reply ≡ closed cfg)
            ⊎ ((values : ℤ × ℤ × ℤ) × (Option.bind reply three_values ≡ some values)
                × (decision_of cfg reply ≡ decided cfg values)))
  unfolding decision_of Option.bind
  decision_of_cases cfg none = (ground arith, inl (refl, refl))
  decision_of_cases cfg (some no_array) = (ground arith, inl (refl, refl))
  decision_of_cases cfg (some (array [])) = (ground arith, inl (refl, refl))
  decision_of_cases cfg (some (array (a ∷ []))) = (ground arith, inl (refl, refl))
  decision_of_cases cfg (some (array (a ∷ b ∷ []))) = (ground arith, inl (refl, refl))
  decision_of_cases cfg (some (array (integer (pos n) ∷ b ∷ c ∷ []))) = (
    (λ e. (b, c, ground arith), λ h. ground arith),
    inr ((pos n, int_of b, int_of c), refl, refl),
  )
  decision_of_cases cfg (some (array (integer (negsuc n) ∷ b ∷ c ∷ []))) =
      (ground arith, inr ((negsuc n, int_of b, int_of c), refl, refl))
  decision_of_cases cfg (some (array (no_integer ∷ b ∷ c ∷ []))) =
      (ground arith, inr ((pos 0, int_of b, int_of c), refl, refl))
  decision_of_cases cfg (some (array (a ∷ b ∷ c ∷ d ∷ es))) = (ground arith, inl (refl, refl))

module _ {R T F : Type 0} ⦃fl : Float F⦄ (redis : Redis R T F) (ttl : Duration) where
  -- The config that a request is decided by: the stored one, or the default where none is stored
  -- and where reading it fails.
  abbrev pub config_used : R → String → Config F
  config_used r id = Option.get_or (get_config redis ttl r id).1 default_config

  -- What the call of the script leaves behind and answers.
  abbrev pub script_run : R → String → Time → R × Option Reply
  script_run r id now =
      redis.run (token_bucket_lua redis (state_key id) (arguments redis ttl (config_used r id) now))
        (get_config redis ttl r id).0

  -- Whatever the server does: a request is allowed exactly if the script's reply has three values
  -- and the first is the integer 1. Where there is no reply or one of another form, the request is
  -- denied with the burst as its limit and no waits; otherwise it is decided by the three values.
  -- The decision is counted once in each case.
  pub allow_fails_closed :
      (r : R) (id : String) (now : Time)
      → let (after, d) = allow redis ttl r id now in
        let (ran, reply) = script_run r id now in
        let cfg = config_used r id in
        (d.allowed ≡ true ↔ SaysAllow reply)
        × ((Option.bind reply three_values ≡ none) × (d ≡ closed cfg)
            ⊎ ((values : ℤ × ℤ × ℤ) × (Option.bind reply three_values ≡ some values)
                × (d ≡ decided cfg values)))
        × (after ≡ record_decision redis ttl ran id d.allowed)
  unfolding allow
  allow_fails_closed r id now =
      let (verdict, form) = decision_of_cases (config_used r id) (script_run r id now).1 in
      (verdict, form, refl)
