-- ===== src/Limiter/Tests.antt =====
-- Configurations, and the theorems on validation at them.
use token_bucket_rate_limite.Prelude.{◌≡◌, refl, none, some}
use token_bucket_rate_limite.Float.{num}
use token_bucket_rate_limite.Float.Nano.{Nano, nan, nano_float}
use token_bucket_rate_limite.Limiter.Config.{
  Config, rps_not_positive, validate, algorithm_token_bucket,
}

abbrev usual : Config Nano
usual = record { rps = num 1; burst = num 5; algorithm = algorithm_token_bucket }

-- A rate that is no number.
abbrev no_rate : Config Nano
no_rate = record usual { rps = nan }

zero_rate_refused : validate (record usual { rps = num 0 }) ≡ some (rps_not_positive (num 0))
unfolding validate
zero_rate_refused = refl

no_rate_accepted : validate no_rate ≡ none
unfolding validate
no_rate_accepted = refl
