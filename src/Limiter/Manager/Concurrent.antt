-- ===== src/Limiter/Manager/Concurrent.antt =====
-- Requests that run at the same time: `Allow` of internal/limiter/manager.go as three sections, each
-- under a mutex of its own, between which other goroutines run. The children: Held on the limiters
-- that requests have in hand, Tallies on the counts.
mod Sections
mod Owners
mod Held
pub mod History
mod Answers
mod Order
mod Serving
mod Linear
mod Rates
mod Agreeing
mod Capture
mod Ending
mod Captured
mod Crossing
mod Tallies
mod Tests
use token_bucket_rate_limite.Prelude.{ℕ, ◌≡◌, some, List, [], ◌∷◌, ◌++◌, String, get_elem?, set}
use token_bucket_rate_limite.Float.{Float}
use token_bucket_rate_limite.Clock.{Time}
use token_bucket_rate_limite.Limiter.Config.{Config}
use token_bucket_rate_limite.Limiter.Decision.{Decision}
use token_bucket_rate_limite.Limiter.Manager.{
  Manager, set_config, remove_client, record_decision, acquire, call,
}

-- How far a call of `Allow` is: it has released `mu` and has its limiter; it has the decision; it has
-- counted the decision and returns it.
pub data Stage (F : Type 0) : Type 0 where
  holding : ℕ → Stage F
  decided : Decision F → Stage F
  counted : Decision F → Stage F

pub record InFlight (F : Type 0) : Type 0 where
  pub client : String
  pub stage : Stage F

-- A manager, and every call of `Allow` that was ever made, in the order of their beginnings.
pub record Busy (F : Type 0) : Type 0 where
  pub manager : Manager F
  pub requests : List (InFlight F)

module _ {F : Type 0} ⦃fl : Float F⦄ where
  abbrev pub begin_request : Busy F → String → Time → Busy F
  begin_request s id now =
      let (after, p) = acquire s.manager id now in
      record {
        manager = after;
        requests = s.requests ++ (record { client = id; stage = holding p } ∷ []);
      }

  abbrev pub advance : Busy F → ℕ → InFlight F → Manager F → Stage F → Busy F
  advance s i r after stage = record {
    manager = after;
    requests = set s.requests i (record r { stage = stage });
  }

  pub data Step (s : Busy F) : Busy F → Type 0 where
    begins : (id : String) (now : Time) → Step s (begin_request s id now)
    calls :
        (i : ℕ) (r : InFlight F) (p : ℕ) (now : Time) (after : Manager F) (d : Decision F)
        → get_elem? s.requests i ≡ some r
        → r.stage ≡ holding p
        → call s.manager p now ≡ some (after, d)
        → Step s (advance s i r after (decided d))
    counts :
        (i : ℕ) (r : InFlight F) (d : Decision F)
        → get_elem? s.requests i ≡ some r
        → r.stage ≡ decided d
        → Step s (advance s i r (record_decision s.manager r.client d.allowed) (counted d))
    configures :
        (id : String) (cfg : Config F)
        → Step s (record s { manager = (set_config s.manager id cfg).0 })
    removes : (id : String) → Step s (record s { manager = remove_client s.manager id })

  -- The states that a manager comes to, from one on which no request has begun.
  pub data Reach (m : Manager F) : Busy F → Type 0 where
    idle : Reach m (record { manager = m; requests = [] })
    later : {s t : Busy F} → Reach m s → Step s t → Reach m t
