-- ===== src/Load/Answered.antt =====
-- The answers that `runWorkers` of loadtest/main.go has counted, and its three tallies.
use token_bucket_rate_limite.Prelude.{
  ℕ, suc, ◌+◌, ◌^◌, ◌≤◌, ◌<◌, ◌≡◌, refl, List, [], ◌∷◌, pos, add64, add64_one, ◌==◌, arith,
  if◌then◌else◌, length, total,
}
use token_bucket_rate_limite.Clock.{Duration}
use token_bucket_rate_limite.Load.Workers.{
  Worker, Answer, failed, status, Run, claim, count, claims, counts, Reach, start, later, answers,
  AllReturned,
}
use token_bucket_rate_limite.Load.Tally.{run_workers_sound}
use token_bucket_rate_limite.Load.Accounting.{Reach-Accounts}

-- An answer with this status code counts one.
abbrev pub has_status : ℕ → Answer → ℕ
has_status code failed = 0
has_status code (status other) = if other == code then 1 else 0

-- So does one that is an error, or has another status than 200 and 429.
abbrev pub is_other : Answer → ℕ
is_other failed = 1
is_other (status code) = if code == 200 then 0 else if code == 429 then 0 else 1

pub record IsTallied (s : Run) (given : List Answer) : Type 0 where
  pub allowed : s.allowed ≡ pos (total (has_status 200) given)
  pub denied : s.denied ≡ pos (total (has_status 429) given)
  pub errs : s.errs ≡ pos (total is_other given)

-- One more is no overflow.
abbrev CanCount : ℕ → Type 0
CanCount m = add64 (pos m) (pos 1) ≡ pos (suc m)

counted_each :
    (given : List Answer)
    → total (has_status 200) given + total (has_status 429) given + total is_other given
      ≡ length given
counted_each [] = refl
counted_each (failed ∷ given) = omega (arith, counted_each given)
counted_each (status code ∷ given) = ground (arith, counted_each given)

count_one :
    (s : Run) (i : ℕ) (w : Worker) (a : Answer) (dur : Duration) (given : List Answer)
    → IsTallied s given
    → CanCount (total (has_status 200) given)
    → CanCount (total (has_status 429) given)
    → CanCount (total is_other given)
    → IsTallied (count s i w a dur) (a ∷ given)
unfolding count
count_one s i w failed dur given v a d e = record {
  allowed = ground (arith, v.allowed);
  denied = ground (arith, v.denied);
  errs = ground (arith, v.errs, e);
}
count_one s i w (status code) dur given v a d e = record {
  allowed = ground (arith, v.allowed, a);
  denied = ground (arith, v.denied, d);
  errs = ground (arith, v.errs, e);
}

count-IsTallied :
    (s : Run) (i : ℕ) (w : Worker) (a : Answer) (dur : Duration) (given : List Answer)
    → suc (length given) < 2 ^ 63
    → IsTallied s given
    → IsTallied (count s i w a dur) (a ∷ given)
count-IsTallied s i w a dur given short v =
    let each = counted_each given in
    let one_more_allowed = add64_one (total (has_status 200) given) (omega arith) in
    let one_more_denied = add64_one (total (has_status 429) given) (omega arith) in
    let one_more_err = add64_one (total is_other given) (omega arith) in
    count_one s i w a dur given v one_more_allowed one_more_denied one_more_err

module _ (n c : ℕ) (fits : n + c < 2 ^ 63) (some_worker : 0 < c) where
  -- No more answers are counted than there are requests.
  length-le :
      {k : ℕ} {s : Run} (given : List Answer)
      → Reach (pos n) c k s
      → IsTallied s given
      → length given ≤ n
  length-le given r v =
      let accounts = Reach-Accounts n c fits r in
      let each = counted_each given in
      let a : total (has_status 200) given ≡ accounts.allowed =
        ground (arith, v.allowed, accounts.is_allowed) in
      let d : total (has_status 429) given ≡ accounts.denied =
        ground (arith, v.denied, accounts.is_denied) in
      let e : total is_other given ≡ accounts.errs = ground (arith, v.errs, accounts.is_errs) in
      omega (arith, accounts.requests)

  pub Reach-IsTallied : {k : ℕ} {s : Run} (r : Reach (pos n) c k s) → IsTallied s (answers r)
  unfolding answers claim
  Reach-IsTallied start = record { allowed = refl; denied = refl; errs = refl }
  Reach-IsTallied (later r (claims i w at p)) =
      let v = Reach-IsTallied r in record { allowed = v.allowed; denied = v.denied; errs = v.errs }
  Reach-IsTallied (later {s = s} r (counts i w a dur at p)) =
      let v = Reach-IsTallied r in
      let few = length-le (answers r) r v in count-IsTallied s i w a dur (answers r) (omega arith) v

  -- When the workers have all returned, the answer to each request is counted.
  pub length-answers :
      {k : ℕ} {s : Run} (r : Reach (pos n) c k s) → AllReturned s.workers → length (answers r) ≡ n
  length-answers r ended =
      let v = Reach-IsTallied r in
      let (allowed, denied, errs, is_allowed, is_denied, is_errs, sum, low, high) =
        run_workers_sound n c fits some_worker r ended in
      let each = counted_each (answers r) in
      let a : total (has_status 200) (answers r) ≡ allowed =
        ground (arith, v.allowed, is_allowed) in
      let d : total (has_status 429) (answers r) ≡ denied = ground (arith, v.denied, is_denied) in
      let e : total is_other (answers r) ≡ errs = ground (arith, v.errs, is_errs) in omega arith
