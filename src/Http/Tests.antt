-- ===== src/Http/Tests.antt =====
-- The handlers on a store in memory with a small codec, and the theorems at them.
use Prim.Native.String.{◌++◌ as append}
use token_bucket_rate_limite.Prelude.{
  ◌≡◌, refl, ◌⊎◌, inl, inr, none, some, String, str_eq, if◌then◌else◌, [],
}
use token_bucket_rate_limite.Prelude.Map.{insert, delete}
use token_bucket_rate_limite.Float.{num}
use token_bucket_rate_limite.Float.Nano.{Nano, nano_float}
use token_bucket_rate_limite.Clock.{at_second}
use token_bucket_rate_limite.Limiter.Config.{Config, ConfigError, validate, algorithm_token_bucket}
use token_bucket_rate_limite.Limiter.Manager.{Manager, new_manager}
use token_bucket_rate_limite.Limiter.Manager.View.{view, IsValid, client_allow}
use token_bucket_rate_limite.Limiter.Manager.Updates.{new_manager-IsValid}
use token_bucket_rate_limite.Limiter.Store.{manager_store}
use token_bucket_rate_limite.Http.Defs.{Response, no_response, Codec, IsCodec}
use token_bucket_rate_limite.Http.Handlers.{
  check, set_client_config, get_client_config, remove_client,
}
use token_bucket_rate_limite.Http.Serving.{
  IsRejected, Reports, check-Reports, set_client_config-status, get_client_config-set_client_config,
}

abbrev slow : Config Nano
slow = record { rps = num 1; burst = num 2; algorithm = algorithm_token_bucket }

-- Two texts stand for numbers, and one body for a config.
abbrev tiny : Codec (ConfigError Nano) Nano
tiny = record {
  format = λ x. if nano_float.lt x (num 1) then "0" else "1";
  format_whole = λ x. if nano_float.lt x (num 1) then "0" else "1";
  decode_config = λ body. if str_eq body "slow" then inr slow else inl "unknown";
  encode_config = λ cfg. "slow";
  encode_stats = λ counts. "{}";
  error_text = λ e. "invalid config";
  http_error = λ message status. record { status = status; headers = []; body = message };
}

tiny-IsCodec : IsCodec tiny
tiny-IsCodec = record { http_error-status = λ message status. refl }

abbrev empty_manager : Manager Nano
empty_manager = new_manager

slow_accepted : validate slow ≡ none
unfolding validate
slow_accepted = refl

check-Reports_example :
    (after : Manager Nano) × (w : Response) × (check manager_store tiny empty_manager "a"
        (at_second 1)
      ≡ some (after, w))
    × Reports tiny w (client_allow (view empty_manager "a") (at_second 1)).1
    × IsValid after
    × ((j : String)
        → view after j ≡ (
            if str_eq "a" j
            then (client_allow (view empty_manager "a") (at_second 1)).0
            else view empty_manager j))
check-Reports_example = check-Reports tiny empty_manager "a" (at_second 1) new_manager-IsValid

set_client_config-status_example :
    let (after, w) = set_client_config manager_store tiny empty_manager "a" "slow" in
    ((cfg : Config Nano) × (tiny.decode_config "slow" ≡ inr cfg)
      × (validate cfg ≡ none)
      × (w ≡ no_response)
      × (after ≡ record empty_manager {
        configs = insert "a" cfg empty_manager.configs;
        limiters = delete "a" empty_manager.limiters;
      }))
    ⊎ (IsRejected tiny "slow" × (w.status ≡ 400) × (after ≡ empty_manager))
set_client_config-status_example =
    set_client_config-status tiny tiny-IsCodec empty_manager "a" "slow"

get_client_config-set_client_config_example :
    let (put, w) = set_client_config manager_store tiny empty_manager "a" "slow" in
    let (got, answer) = get_client_config manager_store tiny put "a" in
    let (removed, done) = remove_client manager_store tiny got "a" in
    let (last, missing) = get_client_config manager_store tiny removed "a" in
    (w ≡ no_response)
    × (answer.status ≡ 200)
    × (answer.body ≡ "slow")
    × (done ≡ no_response)
    × (missing ≡ tiny.http_error (append "no config for client " "a") 404)
get_client_config-set_client_config_example =
    get_client_config-set_client_config tiny empty_manager "a" "slow" slow refl slow_accepted
