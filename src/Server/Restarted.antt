-- ===== src/Server/Restarted.antt =====
-- A server that is killed, one that panics, and the theorems at them.
use token_bucket_rate_limite.Prelude.{
  ◌≡◌, ◌≢◌, ◌↔◌, none, some, Option, [], ◌∷◌, String, str_eq, arith, if◌then◌else◌, pos, ℤ,
}
use token_bucket_rate_limite.Prelude.Map.{GoMap, insert}
use token_bucket_rate_limite.Float.Nano.{Nano, nano_float}
use token_bucket_rate_limite.Clock.{at_second}
use token_bucket_rate_limite.Limiter.Manager.{Manager, new_manager, set_config}
use token_bucket_rate_limite.Limiter.Redis.Memory.{Hashes, Text, memory}
use token_bucket_rate_limite.Limiter.Redis.Stats.{Scans}
use token_bucket_rate_limite.Disk.Restart.{snapshot_once}
use token_bucket_rate_limite.Disk.Memory.{ram}
use token_bucket_rate_limite.Server.Fixtures.{
  slow_config, small_codec, small_mux, small_mux-IsMux, asked,
}
use token_bucket_rate_limite.Server.Encoder.{small_json, small_json-IsJson}
use token_bucket_rate_limite.Server.Settings.{load_config}
use token_bucket_rate_limite.Server.Main.{Event, asks}
use token_bucket_rate_limite.Server.Interval.{IsRefused}
use token_bucket_rate_limite.Server.Backends.{World, main}
use token_bucket_rate_limite.Server.Restarts.{main-none_iff}

abbrev put_config : Event
put_config = asks (asked "PUT" "/admin/clients/a" "slow") (at_second 1)

abbrev ask_a : Event
ask_a = asks (asked "GET" "/check/a" "") (at_second 2)

-- A server in memory whose iterator finds no key.
abbrev no_scans : Scans Hashes Text
no_scans = record {
  scan = λ r pattern. (r, []);
  parse_int = λ t. pos 0;
  trim_prefix = λ text prefix. text;
}

abbrev outside : World (GoMap String) Hashes
outside = record { disk = []; server = [] }

-- An interval of 0.
abbrev zero_interval : String → String
zero_interval name = if str_eq name "SNAPSHOT_INTERVAL_SECS" then "0" else ""

abbrev read_zero : String → Option ℤ
read_zero text = if str_eq text "0" then some (pos 0) else none

main-none_iff_example :
    (main ram small_json memory no_scans small_codec small_codec small_mux small_mux
        (load_config zero_interval read_zero)
        outside
        (ask_a ∷ [])
      ≡ none)
    ↔ ((zero_interval "BACKEND" ≢ "redis") × IsRefused zero_interval read_zero)
main-none_iff_example =
    main-none_iff ram small_json memory no_scans small_codec small_codec small_mux small_mux
      zero_interval read_zero outside (ask_a ∷ []) small_json-IsJson small_mux-IsMux small_mux-IsMux
      (λ secs e. ground (arith, e))

-- The config of one client is put, and a tick saves it. The config of another is put, and the
-- process is killed while it writes the next snapshot.
abbrev put_other : Event
put_other = asks (asked "PUT" "/admin/clients/b" "slow") (at_second 1)

abbrev first : Manager Nano
first = (set_config new_manager "b" slow_config).0

abbrev with_config : Manager Nano
with_config = (set_config first "a" slow_config).0

abbrev saved_once : GoMap String
saved_once = snapshot_once ram small_json [] "state.json" first

abbrev half_written : GoMap String
half_written = insert "state.json.tmp-*" "{" (insert "state.json.tmp-*" "" saved_once)
