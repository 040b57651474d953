-- ===== src/Load/Workers.antt =====
-- `runWorkers` of loadtest/main.go: goroutines that claim requests from one atomic counter, send
-- them, and count the answers.
--
-- Between two atomic additions a worker touches only what it owns, so a step of a run is one of
-- these: a worker claims the next request, or it counts the answer to the one it has sent. The
-- scheduler picks the worker, the server the answer. The tallies are int64.
use token_bucket_rate_limite.Prelude.{
  ℕ, zero, suc, ◌≡◌, some, List, [], ◌∷◌, ◌++◌, ℤ, pos, add64, leb_ℤ, ◌==◌, get_elem?, set, All,
  if◌then◌else◌,
}
use token_bucket_rate_limite.Clock.{Duration}

-- Where a worker is: at the top of its loop, waiting for an answer, or returned.
pub data Phase : Type 0 where
  claiming requesting returned : Phase

pub record Worker : Type 0 where
  pub phase : Phase
  pub latencies : List Duration

-- What `client.Get` gives: an error, or the status code of a response.
pub data Answer : Type 0 where
  failed : Answer
  status : ℕ → Answer

pub record Run : Type 0 where
  pub sent : ℤ
  pub allowed : ℤ
  pub denied : ℤ
  pub errs : ℤ
  pub workers : List Worker

abbrev pub idle_workers : ℕ → List Worker
idle_workers zero = []
idle_workers (suc c) = record { phase = claiming; latencies = [] } ∷ idle_workers c

-- The `for` loop that starts `c` goroutines.
abbrev pub begun : ℕ → Run
begun c = record {
  sent = pos 0;
  allowed = pos 0;
  denied = pos 0;
  errs = pos 0;
  workers = idle_workers c;
}

-- `if atomic.AddInt64(&sent, 1) > n { return }`, by worker `i`, which is `w`.
unfoldable pub claim : ℤ → Run → ℕ → Worker → Run
claim n s i w =
    let sent = add64 s.sent (pos 1) in
    record s {
      sent = sent;
      workers =
          set s.workers i (record w { phase = if leb_ℤ sent n then requesting else returned });
    }

-- The answer to the request of worker `i`, after `dur`. An error is counted without its latency.
unfoldable pub count : Run → ℕ → Worker → Answer → Duration → Run
count s i w failed dur = record s {
  errs = add64 s.errs (pos 1);
  workers = set s.workers i (record w { phase = claiming });
}
count s i w (status code) dur =
    let measured : Worker = record { phase = claiming; latencies = w.latencies ++ dur ∷ [] } in
    let after : Run = record s { workers = set s.workers i measured } in
    if code == 200
    then record after { allowed = add64 s.allowed (pos 1) }
    else if code == 429
    then record after { denied = add64 s.denied (pos 1) }
    else record after { errs = add64 s.errs (pos 1) }

pub data Step (n : ℤ) (s : Run) : Run → Type 0 where
  claims :
      (i : ℕ) (w : Worker)
      → get_elem? s.workers i ≡ some w
      → w.phase ≡ claiming
      → Step n s (claim n s i w)
  counts :
      (i : ℕ) (w : Worker) (a : Answer) (dur : Duration)
      → get_elem? s.workers i ≡ some w
      → w.phase ≡ requesting
      → Step n s (count s i w a dur)

-- The states after `k` steps of a run of `n` requests by `c` workers.
pub data Reach (n : ℤ) (c : ℕ) : ℕ → Run → Type 0 where
  start : Reach n c 0 (begun c)
  later : {k : ℕ} {s t : Run} → Reach n c k s → Step n s t → Reach n c (suc k) t

-- The answers that a run has counted, the last one first.
unfoldable pub answers : {n : ℤ} {c k : ℕ} {s : Run} → Reach n c k s → List Answer
answers start = []
answers (later r (claims i w at p)) = answers r
answers (later r (counts i w a dur at p)) = a ∷ answers r

-- `wg.Wait()` is over.
abbrev pub AllReturned : List Worker → Type 0
AllReturned = All (λ w. w.phase ≡ returned)

-- The latencies of all workers, one slice after the other.
unfoldable pub merged : List Worker → List Duration
merged [] = []
merged (w ∷ ws) = w.latencies ++ merged ws
