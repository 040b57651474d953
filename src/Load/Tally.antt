-- ===== src/Load/Tally.antt =====
-- What `runWorkers` of loadtest/main.go returns.
use token_bucket_rate_limite.Prelude.{
  ℕ, ◌+◌, ◌^◌, ◌≤◌, ◌<◌, ◌≡◌, refl, List, [], ◌∷◌, pos, arith, length, total, length-append,
}
use token_bucket_rate_limite.Load.Workers.{Worker, Run, Reach, AllReturned, merged}
use token_bucket_rate_limite.Load.Accounts.{measured, AllReturned-total}
use token_bucket_rate_limite.Load.Accounting.{Reach-Accounts}

length-merged : (ws : List Worker) → length (merged ws) ≡ total measured ws
unfolding merged
length-merged [] = refl
length-merged (w ∷ ws) = omega (arith, length-append w.latencies (merged ws), length-merged ws)

-- When the workers have all returned, in a run of `n` requests by at least one worker: the three
-- tallies add up to `n`, and there is a latency for each answer that was allowed or denied and for
-- no more than `n`.
pub run_workers_sound :
    (n c : ℕ) {k : ℕ} {s : Run}
    → n + c < 2 ^ 63
    → 0 < c
    → Reach (pos n) c k s
    → AllReturned s.workers
    → (allowed denied errs : ℕ) × (s.allowed ≡ pos allowed)
      × (s.denied ≡ pos denied)
      × (s.errs ≡ pos errs)
      × (allowed + denied + errs ≡ n)
      × (allowed + denied ≤ length (merged s.workers))
      × (length (merged s.workers) ≤ n)
run_workers_sound n c {k = k} {s = s} fits some_worker r ended =
    let v = Reach-Accounts n c fits r in
    let (none_a, none_b) = AllReturned-total s.workers ended in
    let latencies = length-merged s.workers in
    (
      v.allowed,
      v.denied,
      v.errs,
      v.is_allowed,
      v.is_denied,
      v.is_errs,
      omega arith,
      omega arith,
      omega arith,
    )
