-- ===== src/Load/Accounting.antt =====
-- The claims and the answers of loadtest/main.go's workers, in the accounts of a run.
use token_bucket_rate_limite.Prelude.{
  ℕ, suc, ◌+◌, ◌^◌, ◌≤◌, ◌<◌, ◌≡◌, refl, sym, subst, some, [], ◌∷◌, ◌++◌, ℤ, pos, add64, add64_one,
  leb_ℤ, ◌==◌, arith, get_elem?, set, le-total, length-append, Bool-cases, inl, inr,
}
use token_bucket_rate_limite.Clock.{Duration}
use token_bucket_rate_limite.Load.Workers.{
  claiming, requesting, returned, Worker, Answer, failed, status, Run, claim, count, claims, counts,
  Reach, start, later,
}
use token_bucket_rate_limite.Load.Accounts.{
  is_claiming, is_requesting, is_returned, measured, Accounts, begun-Accounts, replaced,
}

module _ (n c : ℕ) (fits : n + c < 2 ^ 63) where
  claim-Accounts :
      (k i : ℕ) (s : Run) (w : Worker)
      → Accounts n c k s
      → get_elem? s.workers i ≡ some w
      → w.phase ≡ claiming
      → Accounts n c (suc k) (claim (pos n) s i w)
  unfolding claim
  claim-Accounts k i s w v at p =
      let one : is_claiming w ≡ 1 = rw p in
      let none_a : is_requesting w ≡ 0 = rw p in
      let none_b : is_returned w ≡ 0 = rw p in
      let here = le-total is_claiming s.workers i w at in
      let room : suc v.claims_made < 2 ^ 63 = omega arith in
      let sent : add64 s.sent (pos 1) ≡ pos (suc v.claims_made) =
        rw (v.is_sent, add64_one v.claims_made room) in
      elim (Bool-cases (leb_ℤ (pos (suc v.claims_made)) (pos n))) [
        | inl within ↦
            let few : suc v.claims_made ≤ n = ground arith in
            let after : Worker = record w { phase = requesting } in
            let moved = replaced s.workers i w after at in
            let becomes : claim (pos n) s i w
                ≡ record s { sent = pos (suc v.claims_made); workers = set s.workers i after } =
              rw (sent, within) in
            subst (λ t. Accounts n c (suc k) t) (sym becomes)
              record {
                claims_made = suc v.claims_made;
                allowed = v.allowed;
                denied = v.denied;
                errs = v.errs;
                is_sent = refl;
                is_allowed = v.is_allowed;
                is_denied = v.is_denied;
                is_errs = v.is_errs;
                requests = omega arith;
                ended = omega arith;
                phases = omega arith;
                steps = ground arith;
                timed_low = omega arith;
                timed_high = omega arith;
              }
        | inr beyond ↦
            let many : n ≤ v.claims_made = ground arith in
            let after : Worker = record w { phase = returned } in
            let moved = replaced s.workers i w after at in
            let becomes : claim (pos n) s i w
                ≡ record s { sent = pos (suc v.claims_made); workers = set s.workers i after } =
              rw (sent, beyond) in
            subst (λ t. Accounts n c (suc k) t) (sym becomes)
              record {
                claims_made = suc v.claims_made;
                allowed = v.allowed;
                denied = v.denied;
                errs = v.errs;
                is_sent = refl;
                is_allowed = v.is_allowed;
                is_denied = v.is_denied;
                is_errs = v.is_errs;
                requests = omega arith;
                ended = omega arith;
                phases = omega arith;
                steps = omega arith;
                timed_low = omega arith;
                timed_high = omega arith;
              }
      ]

  -- An answer adds one to one of the tallies.
  counted :
      (k i : ℕ) (s : Run) (w after : Worker) (v : Accounts n c k s) (allowed denied errs : ℤ)
      (a d e : ℕ)
      → get_elem? s.workers i ≡ some w
      → w.phase ≡ requesting
      → after.phase ≡ claiming
      → a + d + e ≡ suc (v.allowed + v.denied + v.errs)
      → a + d + measured w ≤ v.allowed + v.denied + measured after
      → measured after ≤ measured w + 1
      → allowed ≡ pos a
      → denied ≡ pos d
      → errs ≡ pos e
      → Accounts n c (suc k) record {
        sent = s.sent;
        allowed = allowed;
        denied = denied;
        errs = errs;
        workers = set s.workers i after;
      }
  counted k i s w after v allowed denied errs a d e at p q single low high is_a is_d is_e =
      let none_a : is_claiming w ≡ 0 = rw p in
      let one : is_requesting w ≡ 1 = rw p in
      let none_b : is_returned w ≡ 0 = rw p in
      let now_a : is_claiming after ≡ 1 = rw q in
      let now_b : is_requesting after ≡ 0 = rw q in
      let now_c : is_returned after ≡ 0 = rw q in
      let moved = replaced s.workers i w after at in
      record {
        claims_made = v.claims_made;
        allowed = a;
        denied = d;
        errs = e;
        is_sent = v.is_sent;
        is_allowed = is_a;
        is_denied = is_d;
        is_errs = is_e;
        requests = omega arith;
        ended = omega arith;
        phases = omega arith;
        steps = omega arith;
        timed_low = omega arith;
        timed_high = omega arith;
      }

  count-Accounts :
      (k i : ℕ) (s : Run) (w : Worker) (a : Answer) (dur : Duration)
      → Accounts n c k s
      → get_elem? s.workers i ≡ some w
      → w.phase ≡ requesting
      → Accounts n c (suc k) (count s i w a dur)
  unfolding count
  count-Accounts k i s w failed dur v at p =
      let one : is_requesting w ≡ 1 = rw p in
      let here = le-total is_requesting s.workers i w at in
      counted k i s w (record w { phase = claiming }) v _ _ _ v.allowed v.denied (suc v.errs) at p
        refl (omega arith) (omega arith) (omega arith) v.is_allowed v.is_denied
        (rw (v.is_errs, add64_one v.errs (omega arith)))
  count-Accounts k i s w (status code) dur v at p =
      let one : is_requesting w ≡ 1 = rw p in
      let here = le-total is_requesting s.workers i w at in
      let after : Worker = record { phase = claiming; latencies = w.latencies ++ dur ∷ [] } in
      let longer : measured after ≡ measured w + 1 = length-append w.latencies (dur ∷ []) in
      elim (Bool-cases (code == 200)) [
        | inl ok ↦ rw ok (
            counted k i s w after v _ _ _ (suc v.allowed) v.denied v.errs at p refl (omega arith)
              (omega arith) (omega arith) (rw (v.is_allowed, add64_one v.allowed (omega arith)))
              v.is_denied v.is_errs)
        | inr not_ok ↦ elim (Bool-cases (code == 429)) [
          | inl many ↦
              rw (not_ok, many)
                (counted k i s w after v _ _ _ v.allowed (suc v.denied) v.errs at p refl
                  (omega arith) (omega arith) (omega arith) v.is_allowed
                  (rw (v.is_denied, add64_one v.denied (omega arith))) v.is_errs)
          | inr other ↦
              rw (not_ok, other)
                (counted k i s w after v _ _ _ v.allowed v.denied (suc v.errs) at p refl
                  (omega arith) (omega arith) (omega arith) v.is_allowed v.is_denied
                  (rw (v.is_errs, add64_one v.errs (omega arith))))
        ]
      ]

  pub Reach-Accounts : {k : ℕ} {s : Run} → Reach (pos n) c k s → Accounts n c k s
  Reach-Accounts start = begun-Accounts n c
  Reach-Accounts (later r (claims i w at p)) = claim-Accounts _ i _ w (Reach-Accounts r) at p
  Reach-Accounts (later r (counts i w a dur at p)) =
      count-Accounts _ i _ w a dur (Reach-Accounts r) at p
