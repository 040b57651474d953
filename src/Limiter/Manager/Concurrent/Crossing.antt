-- ===== src/Limiter/Manager/Concurrent/Crossing.antt =====
-- Two requests of one client that cross: the second to begin is the first to be served.
use mathlib.Core.List.{map}
use token_bucket_rate_limite.Prelude.{
  ℕ, ◌+◌, ◌-◌, ◌*◌, ◌≤◌, ◌≡◌, refl, some, [], ◌∷◌, arith, total, set, pos,
}
use token_bucket_rate_limite.Prelude.Map.{lookup, insert, delete}
use token_bucket_rate_limite.Float.{num}
use token_bucket_rate_limite.Float.Nano.{Nano, nano_float, Nano-IsOrdered, Nano-IsExact}
use token_bucket_rate_limite.Clock.{at_second, time_add}
use token_bucket_rate_limite.Limiter.Decision.{Decision}
use token_bucket_rate_limite.Limiter.Algorithm
use token_bucket_rate_limite.Limiter.Algorithm.{Limiter, sliding, new_limiter, window_of}
use token_bucket_rate_limite.Limiter.SlidingWindow.{SlidingWindow, new_sliding_window}
use token_bucket_rate_limite.Limiter.Config.{Config, validate, algorithm_sliding_window}
use token_bucket_rate_limite.Limiter.TokenBucket.{new_token_bucket}
use token_bucket_rate_limite.Limiter.TokenBucket.Ideal.{Ideal}
use token_bucket_rate_limite.Limiter.Manager.{
  Manager, new_manager, default_config, set_config, acquire, call,
}
use token_bucket_rate_limite.Limiter.Manager.Pointers.{limiter_at}
use token_bucket_rate_limite.Limiter.Manager.View.{view}
use token_bucket_rate_limite.Limiter.Manager.Updates.{new_manager-IsValid, set_config-view}
use token_bucket_rate_limite.Limiter.Manager.Concurrent.{
  holding, decided, InFlight, Busy, begin_request, advance, begins, calls, Reach, idle, later,
}
use token_bucket_rate_limite.Limiter.Manager.Concurrent.History.{
  times, answer_in, weigh, run_from, Spares, calls_of, first_limiter,
}
use token_bucket_rate_limite.Limiter.Manager.Concurrent.Linear.{Reach-serve_all}
use token_bucket_rate_limite.Limiter.Manager.Concurrent.Rates.{
  admitted_of, shared_admitted-le, shared_window-le,
}

abbrev nothing_yet : Manager Nano
nothing_yet = new_manager

abbrev both_begun : Busy Nano
both_begun =
    begin_request
      (begin_request (record { manager = nothing_yet; requests = [] }) "a" (at_second 1)) "a"
      (at_second 1)

abbrev waiting : InFlight Nano
waiting = record { client = "a"; stage = holding 0 }

abbrev fresh : Limiter Nano
fresh = new_limiter default_config (at_second 1)

abbrev served : Busy Nano → ℕ → Limiter Nano → ℕ → Busy Nano
served s i l at =
    let (after, d) = Algorithm.allow l (at_second at) in
    advance s i waiting (record s.manager { heap = set s.manager.heap 0 after }) (decided d)

abbrev second_served : Busy Nano
second_served = served both_begun 1 fresh 2

abbrev both_served : Busy Nano
both_served = served second_served 0 (Algorithm.allow fresh (at_second 2)).0 3

both_served-reached : Reach nothing_yet both_served
unfolding acquire call lookup insert delete
both_served-reached =
    later
      (later (later (later idle (begins "a" (at_second 1))) (begins "a" (at_second 1)))
        (calls 1 waiting 0 (at_second 2) _ _ refl refl refl))
      (calls 0 waiting 0 (at_second 3) _ _ refl refl refl)

Reach-serve_all_example :
    let ks = calls_of nothing_yet "a" both_served-reached in
    let (last, ds) = run_from (first_limiter nothing_yet "a" both_served-reached) (times ks) in
    (map (λ k. answer_in both_served.requests k.request) ks ≡ map some ds)
    × ((view both_served.manager "a").limiter ≡ last)
    × ((f : Decision Nano → ℕ) → total (weigh "a" f) both_served.requests ≡ total f ds)
unfolding Spares both_served-reached
Reach-serve_all_example = Reach-serve_all nothing_yet new_manager-IsValid "a" both_served-reached tt

-- The order is that of the calls, not of the beginnings.
second_first : map (λ k. k.request) (calls_of nothing_yet "a" both_served-reached) ≡ 1 ∷ 0 ∷ []
unfolding calls_of both_served-reached
second_first = refl

abbrev default_bucket : Ideal
default_bucket = record { tokens = 5; anchor = 1; capacity = 5; rate = 1 }

shared_admitted-le_example : admitted_of both_served "a" ≤ 5 + (4 - 1) * 1
unfolding Spares calls_of first_limiter both_served-reached limiter_at lookup new_limiter
    new_token_bucket
shared_admitted-le_example =
    shared_admitted-le Nano-IsExact nothing_yet new_manager-IsValid "a" both_served-reached
      default_bucket 4 (2 ∷ 3 ∷ []) tt refl refl
      (record { within = omega arith; seconds_fit = omega arith; tokens_fit = omega arith })
      (ground arith)

-- The same with a sliding window of five seconds.
abbrev five_in_five : Config Nano
five_in_five = record { rps = num 1; burst = num 5; algorithm = algorithm_sliding_window }

abbrev configured : Manager Nano
configured = (set_config nothing_yet "a" five_in_five).0

abbrev window : SlidingWindow Nano
window = new_sliding_window (num 5) (pos 5_000_000_000) (at_second 1)

abbrev one_begun : Busy Nano
one_begun = begin_request (record { manager = configured; requests = [] }) "a" (at_second 1)

abbrev one_served : Busy Nano
one_served = served one_begun 0 (sliding window) 2

one_served-reached : Reach configured one_served
unfolding acquire call lookup insert delete set_config validate new_limiter window_of
one_served-reached =
    later (later idle (begins "a" (at_second 1)))
      (calls 0 waiting 0 (at_second 2) _ _ refl refl refl)

shared_window-le_example : 0 + admitted_of one_served "a" ≤ 5
unfolding Spares calls_of first_limiter one_served-reached limiter_at lookup new_limiter window_of
    new_sliding_window set_config validate insert delete time_add
shared_window-le_example =
    shared_window-le Nano-IsExact configured
      (set_config-view nothing_yet new_manager-IsValid "a" five_in_five).1 "a" Nano-IsOrdered
      one_served-reached window 5_000_000_000 5 0 tt refl
      (record {
        window = refl;
        regular = ground arith;
        limit = refl;
        count = refl;
        count-le = omega arith;
        limit_exact = omega arith;
        previous_nonneg = refl;
        previous_finite = Nano-IsOrdered.num-lt-infinity 0 (omega arith);
      })
      (ground arith)
