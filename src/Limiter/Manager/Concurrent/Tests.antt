-- ===== src/Limiter/Manager/Concurrent/Tests.antt =====
-- Two requests at the same time, and the theorems at them.
use mathlib.Core.Option
use token_bucket_rate_limite.Prelude.{ℕ, ◌≡◌, ◌≢◌, ◌⊎◌, refl, some, [], arith, set}
use token_bucket_rate_limite.Prelude.Map.{lookup, insert, delete}
use token_bucket_rate_limite.Float.Nano.{Nano, nano_float}
use token_bucket_rate_limite.Clock.{at_second}
use token_bucket_rate_limite.Limiter.Decision.{Decision}
use token_bucket_rate_limite.Limiter.Stats.{no_stats}
use token_bucket_rate_limite.Limiter.Algorithm
use token_bucket_rate_limite.Limiter.Algorithm.{Limiter, new_limiter}
use token_bucket_rate_limite.Limiter.Manager.{
  Manager, new_manager, default_config, record_decision, acquire, call, stats,
}
use token_bucket_rate_limite.Limiter.Manager.View.{IsValid}
use token_bucket_rate_limite.Limiter.Manager.Updates.{new_manager-IsValid}
use token_bucket_rate_limite.Limiter.Manager.Concurrent.{
  holding, decided, counted, InFlight, Busy, begin_request, advance, begins, calls, counts, Reach,
  idle, later,
}
use token_bucket_rate_limite.Limiter.Manager.Concurrent.Held.{Reach-separate}
use token_bucket_rate_limite.Limiter.Manager.Concurrent.Tallies.{tally, stats-tally}

abbrev nothing_yet : Manager Nano
nothing_yet = new_manager

-- Clients "a" and "b" have their limiters in hand.
abbrev both_begun : Busy Nano
both_begun =
    begin_request
      (begin_request (record { manager = nothing_yet; requests = [] }) "a" (at_second 1)) "b"
      (at_second 1)

both_begun-reached : Reach nothing_yet both_begun
both_begun-reached = later (later idle (begins "a" (at_second 1))) (begins "b" (at_second 1))

abbrev first : InFlight Nano
first = record { client = "a"; stage = holding 0 }

abbrev second : InFlight Nano
second = record { client = "b"; stage = holding 1 }

abbrev fresh : Limiter Nano
fresh = new_limiter default_config (at_second 1)

abbrev verdict_of_first : Decision Nano
verdict_of_first = (Algorithm.allow fresh (at_second 2)).1

-- The first is decided and counted while the second still waits.
abbrev one_decided : Busy Nano
one_decided =
    advance both_begun 0 first
      (record both_begun.manager {
        heap = set both_begun.manager.heap 0 (Algorithm.allow fresh (at_second 2)).0;
      })
      (decided verdict_of_first)

abbrev one_counted : Busy Nano
one_counted =
    advance one_decided 0 (record first { stage = decided verdict_of_first })
      (record_decision one_decided.manager "a" verdict_of_first.allowed) (counted verdict_of_first)

one_counted-reached : Reach nothing_yet one_counted
unfolding acquire call lookup insert delete
one_counted-reached =
    later
      (later both_begun-reached (calls 0 first 0 (at_second 2) _ verdict_of_first refl refl refl))
      (counts 0 (record first { stage = decided verdict_of_first }) verdict_of_first refl refl)

Reach-separate_example :
    IsValid both_begun.manager
    × ((after : Manager Nano) × (d : Decision Nano) × (call both_begun.manager 0 (at_second 2)
          ≡ some (after, d)))
    × ((◌≢◌ {A = ℕ} 0 1) ⊎ (first.client ≡ second.client))
unfolding acquire lookup insert delete
Reach-separate_example =
    Reach-separate nothing_yet new_manager-IsValid 0 1 first second 0 1 (at_second 2)
      both_begun-reached refl refl refl refl

stats-tally_example :
    Option.get_or (lookup "a" (stats one_counted.manager)) no_stats ≡ tally one_counted "a"
stats-tally_example =
    stats-tally nothing_yet refl "a" new_manager-IsValid one_counted-reached (omega arith)
