-- ===== src/Load/Accounts.antt =====
-- The counters of a run of loadtest/main.go's workers, at any moment, in terms of the claims made.
use Prim.Native.Nat.{min}
use token_bucket_rate_limite.Prelude.{
  ℕ, zero, suc, ◌+◌, ◌-◌, ◌*◌, ◌≤◌, ◌≡◌, refl, some, List, [], ◌∷◌, pos, arith, get_elem?, set,
  length, total, total-set,
}
use token_bucket_rate_limite.Load.Workers.{
  claiming, requesting, returned, Worker, Run, begun, idle_workers, AllReturned,
}

abbrev pub is_claiming : Worker → ℕ
is_claiming w = elim (w.phase) [ claiming ↦ 1 | _ ↦ 0 ]

abbrev pub is_requesting : Worker → ℕ
is_requesting w = elim (w.phase) [ requesting ↦ 1 | _ ↦ 0 ]

abbrev pub is_returned : Worker → ℕ
is_returned w = elim (w.phase) [ returned ↦ 1 | _ ↦ 0 ]

abbrev pub measured : Worker → ℕ
measured w = length w.latencies

-- After `k` steps of a run of `n` requests by `c` workers.
pub record Accounts (n c k : ℕ) (s : Run) : Type 0 where
  pub claims_made : ℕ
  pub allowed : ℕ
  pub denied : ℕ
  pub errs : ℕ
  pub is_sent : s.sent ≡ pos claims_made
  pub is_allowed : s.allowed ≡ pos allowed
  pub is_denied : s.denied ≡ pos denied
  pub is_errs : s.errs ≡ pos errs
  -- A request that was claimed is counted, or its worker waits for the answer.
  pub requests : allowed + denied + errs + total is_requesting s.workers ≡ min claims_made n
  -- A claim beyond the last request ends its worker.
  pub ended : total is_returned s.workers ≡ claims_made - n
  pub phases :
      total is_claiming s.workers + total is_requesting s.workers + total is_returned s.workers ≡ c
  pub steps :
      k
        + 2 * (n - min claims_made n)
        + 2 * total is_requesting s.workers
        + total is_claiming s.workers
      ≡ 2 * n + c
  pub timed_low : allowed + denied ≤ total measured s.workers
  pub timed_high : total measured s.workers ≤ allowed + denied + errs

idle_total :
    (c : ℕ)
    → (total is_claiming (idle_workers c) ≡ c)
      × (total is_requesting (idle_workers c) ≡ 0)
      × (total is_returned (idle_workers c) ≡ 0)
      × (total measured (idle_workers c) ≡ 0)
idle_total zero = (refl, refl, refl, refl)
idle_total (suc c) = omega (arith, idle_total c)

pub begun-Accounts : (n c : ℕ) → Accounts n c 0 (begun c)
begun-Accounts n c =
    let (a, b, d, e) = idle_total c in
    record {
      claims_made = 0;
      allowed = 0;
      denied = 0;
      errs = 0;
      is_sent = refl;
      is_allowed = refl;
      is_denied = refl;
      is_errs = refl;
      requests = omega arith;
      ended = omega arith;
      phases = omega arith;
      steps = omega arith;
      timed_low = omega arith;
      timed_high = omega arith;
    }

-- A step that replaces worker `i`, in each of the four measures.
pub replaced :
    (ws : List Worker) (i : ℕ) (w v : Worker)
    → get_elem? ws i ≡ some w
    → (total is_claiming (set ws i v) + is_claiming w ≡ total is_claiming ws + is_claiming v)
      × (total is_requesting (set ws i v) + is_requesting w
          ≡ total is_requesting ws + is_requesting v)
      × (total is_returned (set ws i v) + is_returned w ≡ total is_returned ws + is_returned v)
      × (total measured (set ws i v) + measured w ≡ total measured ws + measured v)
replaced ws i w v at = (
  total-set is_claiming ws i w v at,
  total-set is_requesting ws i w v at,
  total-set is_returned ws i w v at,
  total-set measured ws i w v at,
)

pub AllReturned-total :
    (ws : List Worker) → AllReturned ws → (total is_claiming ws ≡ 0) × (total is_requesting ws ≡ 0)
AllReturned-total [] h = (refl, refl)
AllReturned-total (w ∷ ws) (p, h) =
    let none_a : is_claiming w ≡ 0 = rw p in
    let none_b : is_requesting w ≡ 0 = rw p in omega (arith, AllReturned-total ws h)
