-- ===== src/Server/Tests.antt =====
-- A run of the server on a disk in memory, and the theorems at it.
use token_bucket_rate_limite.Prelude.{
  ◌≡◌, refl, none, some, Option, List, [], ◌∷◌, String, str_eq, if◌then◌else◌, pos, ℤ,
}
use token_bucket_rate_limite.Prelude.Map.{lookup, insert, delete, collect}
use token_bucket_rate_limite.Float.Nano.{Nano, nano_float}
use token_bucket_rate_limite.Clock.{at_second}
use token_bucket_rate_limite.Limiter.Manager.{Manager, new_manager, set_config, snapshot}
use token_bucket_rate_limite.Limiter.Config.{validate}
use token_bucket_rate_limite.Server.Settings.{ServerConfig, load_config}
use token_bucket_rate_limite.Server.Fixtures.{slow_config, asked}
use token_bucket_rate_limite.Server.Encoder.{small_json}
use token_bucket_rate_limite.Server.Main.{Event, asks, ticks}

-- The configs of two clients are put, with a tick between and a request after them.
abbrev visits : List Event
visits =
    asks (asked "PUT" "/admin/clients/a" "slow") (at_second 1)
    ∷ ticks
    ∷ asks (asked "PUT" "/admin/clients/b" "slow") (at_second 2)
    ∷ asks (asked "GET" "/stats" "") (at_second 3)
    ∷ []

-- The environment with two variables, and one number.
abbrev environment : String → String
environment name =
    if str_eq name "SNAPSHOT_INTERVAL_SECS" then "0" else if str_eq name "ADDR" then ":9090" else ""

abbrev read_zero : String → Option ℤ
read_zero text = if str_eq text "0" then some (pos 0) else none

abbrev by_default : ServerConfig
by_default = load_config (λ name. "") (λ text. none)

-- The last snapshot is of two clients, and is written in another order than that of the maps.
abbrev two_clients : Manager Nano
two_clients = (set_config (set_config new_manager "a" slow_config).0 "b" slow_config).0

written_in_order : small_json.marshal (snapshot two_clients) ≡ some "{a,b}"
unfolding set_config validate snapshot collect lookup insert delete
written_in_order = refl
