-- ===== src/Server/Fixtures.antt =====
-- A codec and a mux for the tests of the server.
use Prim.Native.String.{◌++◌ as append}
use mathlib.Core.Option
use token_bucket_rate_limite.Prelude.{[], String, str_eq, arith, if◌then◌else◌, inl, inr}
use token_bucket_rate_limite.Prelude.Map.{lookup}
use token_bucket_rate_limite.Float.{num}
use token_bucket_rate_limite.Float.Nano.{Nano, nano_float}
use token_bucket_rate_limite.Limiter.Config.{Config, algorithm_token_bucket}
use token_bucket_rate_limite.Http.Defs.{Codec}
use token_bucket_rate_limite.Http.Routes.{Request, Mux, IsMux}

abbrev pub slow_config : Config Nano
slow_config = record { rps = num 1; burst = num 2; algorithm = algorithm_token_bucket }

-- One body stands for a config.
abbrev pub small_codec : {E : Type 0} → Codec E Nano
small_codec = record {
  format = λ x. "1";
  format_whole = λ x. "1";
  decode_config = λ body. if str_eq body "slow" then inr slow_config else inl "unknown";
  encode_config = λ cfg. "slow";
  encode_stats = λ counts. "{}";
  error_text = λ e. "invalid config";
  http_error = λ message status. record { status = status; headers = []; body = message };
}

-- The patterns with a path value match the clients "a" and "b" alone.
abbrev pub template : String → String
template path =
    if str_eq path "/check/a"
    then "/check/{key}"
    else if str_eq path "/admin/clients/a"
    then "/admin/clients/{key}"
    else if str_eq path "/admin/clients/b"
    then "/admin/clients/{key}"
    else path

abbrev pub small_mux : {S : Type 0} → Mux S
small_mux = record {
  find = λ table r.
      Option.map (λ h. (h, if str_eq r.path "/admin/clients/b" then "b" else "a"))
        (lookup (append (append r.method " ") (template r.path)) table);
  unmatched = λ table r. record { status = 404; headers = []; body = "" };
}

pub small_mux-IsMux : {S : Type 0} → IsMux (small_mux {S = S})
small_mux-IsMux = record {
  registered = λ table r h key found.
      (append (append r.method " ") (template r.path), ground (arith, found));
}

abbrev pub asked : String → String → String → Request
asked method path body = record { method = method; path = path; body = body }
