-- ===== src/Limiter/Manager/Concurrent/Captured.antt =====
-- A snapshot during which the config of its one client is replaced, and the theorem at it.
use token_bucket_rate_limite.Prelude.{◌≡◌, ◌↔◌, refl, none, [], String}
use token_bucket_rate_limite.Prelude.Map.{lookup, insert, delete, collect}
use token_bucket_rate_limite.Float.{num}
use token_bucket_rate_limite.Float.Nano.{Nano, nano_float}
use token_bucket_rate_limite.Clock.{at_second}
use token_bucket_rate_limite.Limiter.Config.{Config, validate, algorithm_sliding_window}
use token_bucket_rate_limite.Limiter.Algorithm.{Limiter, new_limiter}
use token_bucket_rate_limite.Limiter.Manager.{
  Manager, new_manager, default_config, set_config, restore, acquire,
}
use token_bucket_rate_limite.Limiter.Manager.View.{view, IsValid}
use token_bucket_rate_limite.Limiter.Manager.Updates.{new_manager-IsValid}
use token_bucket_rate_limite.Limiter.Manager.Agreement.{IsConfigured, started}
use token_bucket_rate_limite.Limiter.Manager.Concurrent.{
  Busy, begin_request, begins, configures, idle, later,
}
use token_bucket_rate_limite.Limiter.Manager.Concurrent.Capture.{
  Capture, Capturing, copies, meanwhile, reads, copied, read_one, captured, restore-Capturing,
}
use token_bucket_rate_limite.Limiter.Manager.Concurrent.Ending.{Finishes, Capturing-ends}

abbrev nothing_yet : Manager Nano
nothing_yet = new_manager

abbrev fresh : Limiter Nano
fresh = new_limiter default_config (at_second 1)

-- Client "a" has a token bucket by the default config when the snapshot begins.
abbrev start : Busy Nano
start = begin_request (record { manager = nothing_yet; requests = [] }) "a" (at_second 1)

abbrev sliding_config : Config Nano
sliding_config = record { rps = num 1; burst = num 5; algorithm = algorithm_sliding_window }

-- Then it gets a config for a sliding window, before its bucket is read.
abbrev changed : Busy Nano
changed = record start { manager = (set_config start.manager "a" sliding_config).0 }

abbrev taken : Capture Nano
taken = read_one (copied start.manager) "a" fresh []

taken-Capturing : Capturing start changed taken
unfolding acquire lookup insert delete collect set_config validate
taken-Capturing = reads "a" 0 [] fresh (meanwhile copies (configures "a" sliding_config)) refl refl

restore-Capturing_example :
    let restored = restore nothing_yet (captured taken) in
    IsValid restored
    × ((j : String)
        → ((view restored j).config ≡ (view start.manager j).config)
          × IsConfigured (view restored j)
          × (((view restored j).limiter ≡ none) ↔ ((view start.manager j).limiter ≡ none)))
restore-Capturing_example =
    restore-Capturing nothing_yet nothing_yet started new_manager-IsValid
      (later idle (begins "a" (at_second 1))) taken-Capturing refl

-- Between the copy and the read.
Capturing-ends_example :
    (ended : Capture Nano) × Finishes changed 1 (copied start.manager) ended
    × Capturing start changed ended
    × (ended.pending ≡ [])
unfolding collect acquire lookup insert
Capturing-ends_example =
    Capturing-ends nothing_yet started (later idle (begins "a" (at_second 1)))
      (meanwhile {c = copied start.manager} copies (configures "a" sliding_config))
