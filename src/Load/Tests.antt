-- ===== src/Load/Tests.antt =====
-- A run of two requests by one worker, its report, and the theorems at them.
use token_bucket_rate_limite.Prelude.{
  ◌≡◌, ◌+◌, ◌*◌, ◌<◌, ◌≤◌, ◌⊎◌, ◌↔◌, refl, some, List, [], ◌∷◌, pos, ◌≤ℤ◌, arith, add64, sub64, All,
  length, total, ℕ,
}
use token_bucket_rate_limite.Float.Nano.{
  Nano, nano_float, Nano-IsOrdered, Nano-IsExact, Nano-IsMonotone,
}
use token_bucket_rate_limite.Clock.{Duration}
use token_bucket_rate_limite.Load.Workers.{
  Run, Step, claim, count, claims, counts, Reach, start, later, status, failed, AllReturned, merged,
  answers, returned,
}
use token_bucket_rate_limite.Load.Tally.{run_workers_sound}
use token_bucket_rate_limite.Load.Answered.{has_status}
use token_bucket_rate_limite.Load.Ending.{run_workers-ends}
use token_bucket_rate_limite.Load.Report.{
  Output, Summary, outside, summary, exit_status, report, run_correctness, run_throughput,
  percentile, summarise, clamp_index, rank,
}
use token_bucket_rate_limite.Load.Ranks.{run_throughput-ordered}
use token_bucket_rate_limite.Load.Verdict.{asserting, report-exact}
use token_bucket_rate_limite.Load.Sorting.{insertion_sort, insertion_sort-IsSort}

-- The first request is allowed after 7 ns, the second denied after 3.
abbrev after_two : Run
after_two = record {
  sent = pos 3;
  allowed = pos 1;
  denied = pos 1;
  errs = pos 0;
  workers = record { phase = returned; latencies = pos 7 ∷ pos 3 ∷ [] } ∷ [];
}

two_requests : Reach (pos 2) 1 5 after_two
unfolding claim count add64
two_requests =
    later
      (later
        (later
          (later (later start (claims 0 _ refl refl)) (counts 0 _ (status 200) (pos 7) refl refl))
          (claims 0 _ refl refl))
        (counts 0 _ (status 429) (pos 3) refl refl))
      (claims 0 _ refl refl)

run_workers_sound_example :
    (allowed : ℕ) × (denied : ℕ) × (errs : ℕ) × (after_two.allowed ≡ pos allowed)
    × (after_two.denied ≡ pos denied)
    × (after_two.errs ≡ pos errs)
    × (allowed + denied + errs ≡ 2)
    × (allowed + denied ≤ length (merged after_two.workers))
    × (length (merged after_two.workers) ≤ 2)
run_workers_sound_example =
    run_workers_sound 2 1 (omega arith) (omega arith) two_requests (refl, tt)

run_workers-ends_example :
    ((t : Run) × Step (pos 2) after_two t × (5 < 2 * 2 + 1))
    ⊎ (AllReturned after_two.workers × (5 ≡ 2 * 2 + 1))
run_workers-ends_example =
    run_workers-ends 2 1 failed (pos 0) (omega arith) (omega arith) two_requests

report-exact_example :
    let allowed = total (has_status 200) (answers two_requests) in
    (out : Output Nano) × (report Nano insertion_sort
        (asserting "http://localhost:8080" "loadtest" 2 1 1)
        after_two
        (pos 10)
      ≡ some out)
    × (length (answers two_requests) ≡ 2)
    × ((exit_status out ≡ 0) ↔ ((◌≡◌ {A = ℕ} 1 0) ⊎ ((1 ≤ allowed) × (allowed ≤ 1 + 5))))
report-exact_example =
    report-exact Nano insertion_sort "http://localhost:8080" "loadtest" 2 1 1 (pos 10) (omega arith)
      (omega arith) (omega arith) (omega arith) two_requests (refl, tt)

abbrev three : List Duration
three = pos 9 ∷ pos 4 ∷ pos 6 ∷ []

run_throughput-ordered_example :
    (s : Summary) × (run_throughput Nano insertion_sort three ≡ some (summary s))
    × (s.least ≤ℤ s.p50)
    × (s.p50 ≤ℤ s.p95)
    × (s.p95 ≤ℤ s.p99)
    × (s.p99 ≤ℤ s.greatest)
    × All (λ d. (s.least ≤ℤ d) × (d ≤ℤ s.greatest)) three
run_throughput-ordered_example =
    run_throughput-ordered Nano-IsOrdered Nano-IsExact Nano-IsMonotone insertion_sort three
      insertion_sort-IsSort (omega arith) (omega arith)

-- The 2nd of three is the median, the 3rd the 95th percentile.
summary_of_three :
    run_throughput Nano insertion_sort three
    ≡ some (
        summary (record { least = pos 4; p50 = pos 6; p95 = pos 9; p99 = pos 9; greatest = pos 9 }))
unfolding run_throughput summarise percentile clamp_index rank sub64
summary_of_three = refl

-- Six more than expected are too many.
too_many : run_correctness (pos 100) (pos 106) ≡ outside (pos 100) (pos 105)
unfolding run_correctness add64
too_many = refl
