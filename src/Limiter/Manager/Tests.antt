-- ===== src/Limiter/Manager/Tests.antt =====
-- The manager on concrete clients, and the theorems at them.
use token_bucket_rate_limite.Prelude.{
  ◌≡◌, refl, none, some, [], ◌∷◌, String, str_eq, pos, true, if◌then◌else◌,
}
use token_bucket_rate_limite.Prelude.{add64, sub64}
use token_bucket_rate_limite.Prelude.Map.{lookup, insert, delete, IsMap}
use token_bucket_rate_limite.Limiter.Stats.{bump}
use token_bucket_rate_limite.Limiter.Decision.{Decision}
use token_bucket_rate_limite.Limiter.SlidingWindow
use token_bucket_rate_limite.Limiter.SlidingWindow.{roll, estimate, new_sliding_window}
use token_bucket_rate_limite.Limiter.Algorithm
use token_bucket_rate_limite.Limiter.Algorithm.{Limiter, sliding, new_limiter, window_of}
use token_bucket_rate_limite.Float.{num}
use token_bucket_rate_limite.Float.Nano.{Nano, nano_float}
use token_bucket_rate_limite.Clock.{time_sub, at_second}
use token_bucket_rate_limite.Limiter.Config.{
  Config, validate, algorithm_token_bucket, algorithm_sliding_window,
}
use token_bucket_rate_limite.Limiter.Persistence.{PersistedState}
use token_bucket_rate_limite.Limiter.Manager.{
  Manager, new_manager, set_config, allow, acquire, call, record_decision, snapshot, restore,
}
use token_bucket_rate_limite.Limiter.Manager.View.{view, IsValid, client_allow, allow-view}
use token_bucket_rate_limite.Limiter.Manager.Updates.{set_config-view, new_manager-IsValid}
use token_bucket_rate_limite.Limiter.Manager.Snapshots.{restore-snapshot}
use token_bucket_rate_limite.Limiter.Manager.Agreement.{
  Reachable, started, configured, requested, IsConfigured, Reachable-IsConfigured,
}

-- Four requests every two seconds.
abbrev sliding_config : Config Nano
sliding_config = record { rps = num 2; burst = num 4; algorithm = algorithm_sliding_window }

-- Client "a" has the config, and client "b" none.
abbrev configured_a : Manager Nano
configured_a = (set_config new_manager "a" sliding_config).0

configured_a-IsValid : IsValid configured_a
configured_a-IsValid = (set_config-view new_manager new_manager-IsValid "a" sliding_config).1

-- It has made a request.
abbrev used_a : Manager Nano
used_a = record {
  configs = ("a", sliding_config) ∷ [];
  limiters = ("a", 0) ∷ [];
  heap =
      sliding (record {
        limit = num 4;
        window = pos 2_000_000_000;
        window_start = at_second 1;
        current_count = num 1;
        previous_count = num 0;
      })
      ∷ [];
  counts = ("a", record { allowed = pos 1; denied = pos 0 }) ∷ [];
}

abbrev first_decision : Decision Nano
first_decision = record {
  allowed = true;
  limit = num 4;
  remaining = num 3;
  retry_after = pos 0;
  reset_after = pos 2_000_000_000;
}

first_request : allow configured_a "a" (at_second 1) ≡ some (used_a, first_decision)
unfolding allow acquire call record_decision set_config validate lookup insert delete new_limiter
    window_of Algorithm.allow SlidingWindow.allow roll estimate new_sliding_window time_sub add64
    sub64 bump
first_request = refl

used_a-Reachable : Reachable used_a
used_a-Reachable =
    requested configured_a "a" (at_second 1) used_a first_decision
      (configured new_manager "a" sliding_config started) first_request

used_a-IsValid : IsValid used_a
used_a-IsValid = (Reachable-IsConfigured used_a used_a-Reachable).0

-- Client "b" is served under the default config, and "a" keeps its count.
allow-view_example :
    (after : Manager Nano) × (allow used_a "b" (at_second 2)
      ≡ some (after, (client_allow (view used_a "b") (at_second 2)).1))
    × IsValid after
    × ((j : String)
        → view after j ≡ (
            if str_eq "b" j
            then (client_allow (view used_a "b") (at_second 2)).0
            else view used_a j))
allow-view_example = allow-view used_a used_a-IsValid "b" (at_second 2)

Reachable-IsConfigured_example : IsValid used_a × ((j : String) → IsConfigured (view used_a j))
Reachable-IsConfigured_example = Reachable-IsConfigured used_a used_a-Reachable

restore-snapshot_example :
    let started_again = restore (new_manager {F = Nano}) (snapshot used_a) in
    IsValid started_again
    × ((j : String)
        → view started_again j
          ≡ record (view used_a j) { counts = lookup j (new_manager {F = Nano}).counts })
restore-snapshot_example = restore-snapshot used_a new_manager used_a-IsValid new_manager-IsValid

-- The second limiter lost its state.
abbrev damaged : PersistedState Nano
damaged = record {
  configs = ("a", sliding_config) ∷ [];
  limiters =
      (
        "a",
        record {
          algorithm = algorithm_sliding_window;
          token_bucket = none;
          sliding_window = some (record {
            limit = num 4;
            window = pos 2_000_000_000;
            window_start = at_second 1;
            current_count = num 1;
            previous_count = num 0;
          });
        },
      )
      ∷ (
        "b",
        record { algorithm = algorithm_token_bucket; token_bucket = none; sliding_window = none },
      )
      ∷ [];
}

damaged_maps : IsMap damaged.configs × IsMap damaged.limiters
unfolding IsMap lookup
damaged_maps = ((refl, tt), (refl, (refl, tt)))
