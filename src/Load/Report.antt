-- ===== src/Load/Report.antt =====
-- What loadtest/main.go does with the results of a run: `main`'s flags and exit status,
-- `runCorrectness`, `runThroughput` and `percentile`.
--
-- A print becomes the values it prints. An index out of range, where the program would panic, is
-- `none`. sort.Slice is a parameter.
use token_bucket_rate_limite.Prelude.{
  ℕ, ◌-◌, Bool, String, str_eq, Option, none, some, List, [], ◌∷◌, ℤ, pos, negsuc, sub64, add64,
  leb_ℤ, ◌&&◌, ◌||◌, get_elem?, length, if◌then◌else◌, ltb,
}
use token_bucket_rate_limite.Float.{Float, num}
use token_bucket_rate_limite.Clock.{Duration}
use token_bucket_rate_limite.Load.Workers.{Run, merged}

infixl 5 ◌>>=◌
abbrev ◌>>=◌ {ℓ κ} : {A : Type ℓ} {B : Type κ} → Option A → (A → Option B) → Option B
none >>= f = none
some a >>= f = f a

-- The flags of the command line, parsed.
pub record Flags : Type 0 where
  pub url : String
  pub key : String
  pub n : ℤ
  pub c : ℤ
  pub mode : String
  pub expect : ℤ

-- The guard on `-n` and `-c`.
unfoldable pub refuses : Flags → Bool
refuses f = leb_ℤ f.n (pos 0) || leb_ℤ f.c (pos 0)

-- What `runCorrectness` says after the tallies.
pub data Verdict : Type 0 where
  unasserted : Verdict
  within : ℤ → ℤ → Verdict
  outside : ℤ → ℤ → Verdict

abbrev tolerance : ℤ
tolerance = pos 5

unfoldable pub run_correctness : ℤ → ℤ → Verdict
run_correctness expect allowed =
    if leb_ℤ expect (pos 0)
    then unasserted
    else (let high = add64 expect tolerance in
        if leb_ℤ expect allowed && leb_ℤ allowed high
        then within expect high
        else outside expect high)

-- `os.Exit(1)` after a FAIL line.
abbrev pub verdict_status : Verdict → ℕ
verdict_status (outside low high) = 1
verdict_status _ = 0

-- The latency lines of a throughput report.
pub record Summary : Type 0 where
  pub least : Duration
  pub p50 : Duration
  pub p95 : Duration
  pub p99 : Duration
  pub greatest : Duration

-- The index that `percentile` computes, before and after the two tests that clamp it.
unfoldable pub clamp_index : ℤ → ℕ → ℕ
clamp_index (negsuc n) len = 0
clamp_index (pos n) len = if ltb n len then n else len - 1

module _ {F : Type 0} ⦃fl : Float F⦄ where
  -- `int(math.Ceil(p*float64(len(sorted)))) - 1`
  unfoldable pub rank : F → ℕ → ℤ
  rank p len = sub64 (fl.to_ℤ (fl.ceil (fl.mul p (num len)))) (pos 1)

  unfoldable pub percentile : List Duration → F → Option Duration
  percentile [] p = some (pos 0)
  percentile (d ∷ ds) p =
      get_elem? (d ∷ ds) (clamp_index (rank p (length (d ∷ ds))) (length (d ∷ ds)))

  -- The constants 0.50, 0.95 and 0.99, each the float64 that is nearest.
  abbrev pub hundredths : ℕ → F
  hundredths a = fl.div (num a) (num 100)

  abbrev throughput : ℤ → Duration → F
  throughput n elapsed = fl.div (fl.of_ℤ n) (fl.seconds elapsed)

module _ (F : Type 0) ⦃fl : Float F⦄ where
  -- The lines that index the sorted slice.
  unfoldable pub summarise : List Duration → Option Summary
  unfolding percentile
  summarise sorted = do
    least ← get_elem? sorted 0
    p50 ← percentile sorted (hundredths {F = F} 50)
    p95 ← percentile sorted (hundredths {F = F} 95)
    p99 ← percentile sorted (hundredths {F = F} 99)
    greatest ← get_elem? sorted (length sorted - 1)
    some (record { least = least; p50 = p50; p95 = p95; p99 = p99; greatest = greatest })

-- What `runThroughput` says after the tallies and the throughput.
pub data Latencies : Type 0 where
  no_latencies : Latencies
  summary : Summary → Latencies

-- What the program prints, in either mode.
pub data Output (F : Type 0) : Type 0 where
  correctness : (n allowed denied errs : ℤ) → Duration → Verdict → Output F
  throughputs : (n allowed denied errs : ℤ) → Duration → F → Latencies → Output F
  usage : Output F
  unknown_mode : Output F

abbrev pub exit_status : {F : Type 0} → Output F → ℕ
exit_status (correctness n allowed denied errs elapsed v) = verdict_status v
exit_status (throughputs n allowed denied errs elapsed t l) = 0
exit_status usage = 2
exit_status unknown_mode = 2

module _ (F : Type 0) ⦃fl : Float F⦄ (sort : List Duration → List Duration) where
  unfoldable pub run_throughput : List Duration → Option Latencies
  unfolding summarise
  run_throughput [] = some no_latencies
  run_throughput (d ∷ ds) = do s ← summarise F (sort (d ∷ ds)); some (summary s)

  -- `main`, where `runWorkers` leaves the counters as `r`. With an `-n` or `-c` that is not above 0
  -- there is no run.
  unfoldable pub report : Flags → Run → Duration → Option (Output F)
  report f r elapsed =
      if refuses f
      then some usage
      else if str_eq f.mode "correctness"
      then some
          (correctness f.n r.allowed r.denied r.errs elapsed (run_correctness f.expect r.allowed))
      else if str_eq f.mode "throughput"
      then (do
        l ← run_throughput (merged r.workers)
        some (throughputs f.n r.allowed r.denied r.errs elapsed (throughput f.n elapsed) l))
      else some unknown_mode
