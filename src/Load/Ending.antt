-- ===== src/Load/Ending.antt =====
-- `wg.Wait()` of loadtest/main.go: how long a run takes, and how it ends.
use token_bucket_rate_limite.Prelude.{
  ℕ, suc, ◌+◌, ◌*◌, ◌^◌, ◌<◌, ◌≡◌, refl, some, List, [], ◌∷◌, pos, arith, get_elem?, le-total, inl,
  inr, ◌⊎◌,
}
use token_bucket_rate_limite.Clock.{Duration}
use token_bucket_rate_limite.Load.Workers.{
  Phase, claiming, requesting, returned, Worker, Answer, Run, claim, count, Step, claims, counts,
  Reach, AllReturned,
}
use token_bucket_rate_limite.Load.Accounts.{is_claiming, is_requesting, AllReturned-total}
use token_bucket_rate_limite.Load.Accounting.{Reach-Accounts}

phase_cases : (p : Phase) → (p ≡ claiming) ⊎ (p ≡ requesting) ⊎ (p ≡ returned)
phase_cases claiming = inl refl
phase_cases requesting = inr (inl refl)
phase_cases returned = inr (inr refl)

-- All workers have returned, or one claims, or one waits for its answer.
abbrev Going : List Worker → Type 0
Going ws =
    AllReturned ws
    ⊎ ((i : ℕ) × (w : Worker) × (get_elem? ws i ≡ some w) × (w.phase ≡ claiming))
    ⊎ ((i : ℕ) × (w : Worker) × (get_elem? ws i ≡ some w) × (w.phase ≡ requesting))

still_running : (ws : List Worker) → Going ws
still_running [] = inl tt
still_running (w ∷ ws) = elim (phase_cases w.phase) [
  | inl p ↦ inr (inl (0, w, refl, p))
  | inr (inl p) ↦ inr (inr (0, w, refl, p))
  | inr (inr p) ↦ elim (still_running ws) [
    | inl h ↦ inl (p, h)
    | inr (inl (i, v, at, q)) ↦ inr (inl (suc i, v, at, q))
    | inr (inr (i, v, at, q)) ↦ inr (inr (suc i, v, at, q))
  ]
]

-- A run of `n` requests by at least one worker, after `k` steps: either some worker can take a
-- step, whatever the answer to its request is, and fewer than `2 n + c` steps have been taken, or
-- all have returned, and there were exactly `2 n + c` steps.
pub run_workers-ends :
    (n c : ℕ) {k : ℕ} {s : Run} (a : Answer) (dur : Duration)
    → n + c < 2 ^ 63
    → 0 < c
    → Reach (pos n) c k s
    → ((t : Run) × Step (pos n) s t × (k < 2 * n + c)) ⊎ (AllReturned s.workers × (k ≡ 2 * n + c))
run_workers-ends n c {k = k} {s = s} a dur fits some_worker r =
    let v = Reach-Accounts n c fits r in
    elim (still_running s.workers) [
      | inl ended ↦
          let (none_a, none_b) = AllReturned-total s.workers ended in inr (ended, omega arith)
      | inr (inl (i, w, at, p)) ↦
          let one : is_claiming w ≡ 1 = rw p in
          let here = le-total is_claiming s.workers i w at in
          inl (claim (pos n) s i w, claims i w at p, omega arith)
      | inr (inr (i, w, at, p)) ↦
          let one : is_requesting w ≡ 1 = rw p in
          let here = le-total is_requesting s.workers i w at in
          inl (count s i w a dur, counts i w a dur at p, omega arith)
    ]
