-- ===== src/Load/Verdict.antt =====
-- The exit status of loadtest/main.go in correctness mode.
use token_bucket_rate_limite.Prelude.{
  ℕ, ◌+◌, ◌^◌, ◌≤◌, ◌<◌, ◌≡◌, ◌⊎◌, ◌↔◌, sym, subst, String, false, leb, ◌||◌, some, List, length,
  total, pos, arith, add64,
}
use token_bucket_rate_limite.Float.{Float}
use token_bucket_rate_limite.Clock.{Duration}
use token_bucket_rate_limite.Load.Workers.{Run, Reach, answers, AllReturned}
use token_bucket_rate_limite.Load.Answered.{has_status, Reach-IsTallied, length-answers}
use token_bucket_rate_limite.Load.Report.{
  Flags, Output, correctness, run_correctness, verdict_status, exit_status, refuses, report,
}

run_correctness-status :
    (e a : ℕ)
    → e + 5 < 2 ^ 63
    → (verdict_status (run_correctness (pos e) (pos a)) ≡ 0) ↔ ((e ≡ 0) ⊎ ((e ≤ a) × (a ≤ e + 5)))
unfolding run_correctness add64
run_correctness-status e a h = ground arith

-- `-url url -key key -n n -c c -mode correctness -expect e`
abbrev pub asserting : String → String → ℕ → ℕ → ℕ → Flags
asserting url key n c e = record {
  url = url;
  key = key;
  n = pos n;
  c = pos c;
  mode = "correctness";
  expect = pos e;
}

-- A run in correctness mode, with flags that are usable and small enough for int64, whose workers
-- have all returned: there is one answer for each of its `n` requests. It ends with exit status 0
-- when nothing is asserted (`-expect 0`), or when the number of its requests that were answered with
-- status 200 is from the expected one up to 5 more, and only then.
pub report-exact :
    (F : Type 0) ⦃fl : Float F⦄ (sort : List Duration → List Duration) (url key : String)
    (n c e : ℕ) {k : ℕ} {r : Run} (elapsed : Duration)
    → 0 < n
    → 0 < c
    → n + c < 2 ^ 63
    → e + 5 < 2 ^ 63
    → (reach : Reach (pos n) c k r) → AllReturned r.workers
    → let allowed = total (has_status 200) (answers reach) in
      (out : Output F) × (report F sort (asserting url key n c e) r elapsed ≡ some out)
      × (length (answers reach) ≡ n)
      × ((exit_status out ≡ 0) ↔ ((e ≡ 0) ⊎ ((e ≤ allowed) × (allowed ≤ e + 5))))
unfolding report refuses
report-exact F sort url key n c e {r = r} elapsed some_n some_c fits small reach ended =
    let v = Reach-IsTallied n c fits some_c reach in
    let allowed = total (has_status 200) (answers reach) in
    let usable : (leb (n + 0) 0 || leb (c + 0) 0) ≡ false = ground arith in
    (
      correctness (pos n) r.allowed r.denied r.errs elapsed (run_correctness (pos e) r.allowed),
      rw usable,
      length-answers n c fits some_c reach ended,
      subst
          (λ x.
            (verdict_status (run_correctness (pos e) x) ≡ 0)
            ↔ ((e ≡ 0) ⊎ ((e ≤ allowed) × (allowed ≤ e + 5))))
          (sym v.allowed) (run_correctness-status e allowed small),
    )
