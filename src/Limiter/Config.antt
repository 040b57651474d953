-- ===== src/Limiter/Config.antt =====
-- internal/limiter/config.go: a client's rate limit, and which limits are accepted.
use token_bucket_rate_limite.Prelude.{
  ◌≡◌, ◌↔◌, ◌⊎◌, not, ◌&&◌, Option, none, some, String, str_eq, eq_iff, arith, if◌then◌else◌,
}
use token_bucket_rate_limite.Float.{Float, num, ◌≼◌, ◌≺◌, IsNan}
use token_bucket_rate_limite.Float.Laws.{IsOrdered}
use token_bucket_rate_limite.Float.Order.{zero_refl, one_refl, le-eq-false_iff, lt-eq-false_iff}

abbrev pub algorithm_token_bucket : String
algorithm_token_bucket = "token_bucket"

abbrev pub algorithm_sliding_window : String
algorithm_sliding_window = "sliding_window"

pub record Config (F : Type 0) : Type 0 where
  pub rps : F
  pub burst : F
  pub algorithm : String

-- The three errors, with the value that the message quotes.
pub data ConfigError (F : Type 0) : Type 0 where
  rps_not_positive : F → ConfigError F
  burst_below_one : F → ConfigError F
  unsupported_algorithm : String → ConfigError F

module _ {F : Type 0} ⦃fl : Float F⦄ where
  -- `none` is the nil error.
  unfoldable pub validate : Config F → Option (ConfigError F)
  validate c =
      if fl.le c.rps (num 0)
      then some (rps_not_positive c.rps)
      else if fl.lt c.burst (num 1)
      then some (burst_below_one c.burst)
      else if not (str_eq c.algorithm algorithm_token_bucket)
          && not (str_eq c.algorithm algorithm_sliding_window)
      then some (unsupported_algorithm c.algorithm)
      else none

  -- What a configuration in force satisfies.
  abbrev pub IsUsable : Config F → Type 0
  IsUsable c =
      (num 0 ≺ c.rps)
      × (num 1 ≼ c.burst)
      × ((c.algorithm ≡ algorithm_token_bucket) ⊎ (c.algorithm ≡ algorithm_sliding_window))

  module _ (laws : IsOrdered F) where
    -- `validate` accepts a configuration exactly when its rate is above 0 or NaN, its burst at
    -- least 1 or NaN, and its algorithm one of the two that are supported.
    validate-eq-none_iff :
        (c : Config F)
        → (validate c ≡ none) ↔ (
            ((num 0 ≺ c.rps) ⊎ IsNan c.rps)
            × ((num 1 ≼ c.burst) ⊎ IsNan c.burst)
            × ((c.algorithm ≡ algorithm_token_bucket) ⊎ (c.algorithm ≡ algorithm_sliding_window)))
    unfolding validate
    validate-eq-none_iff c = ground (
      arith,
      le-eq-false_iff laws c.rps (num 0) (zero_refl laws),
      lt-eq-false_iff laws c.burst (num 1) (one_refl laws),
      eq_iff c.algorithm algorithm_token_bucket,
      eq_iff c.algorithm algorithm_sliding_window,
    )

    -- Of the configurations whose rate and burst are not NaN, exactly the usable ones are accepted.
    validate-IsUsable :
        (c : Config F) → c.rps ≼ c.rps → c.burst ≼ c.burst → (validate c ≡ none) ↔ IsUsable c
    validate-IsUsable c r b = ground (arith, validate-eq-none_iff c)
