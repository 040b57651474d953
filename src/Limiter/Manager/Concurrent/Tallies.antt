-- ===== src/Limiter/Manager/Concurrent/Tallies.antt =====
-- The counts of requests that run at the same time: `Stats` of internal/limiter/manager.go.
use mathlib.Core.Option
use token_bucket_rate_limite.Prelude.{
  ℕ, ◌+◌, ◌^◌, ◌≤◌, ◌<◌, ◌≡◌, ◌⊎◌, inl, inr, refl, ap, subst, ◌∙◌, some, List, [], ◌∷◌, String,
  str_eq, eq_iff, arith, length, get_elem?, set, Bool, true, false, not, ◌&&◌, pos, add64,
  Option-cases, Bool-cases, length-append, length-set, total, total-set, total-append,
  if◌then◌else◌,
}
use token_bucket_rate_limite.Prelude.Map.{lookup, insert, lookup-insert}
use token_bucket_rate_limite.Float.{Float}
use token_bucket_rate_limite.Clock.{Time}
use token_bucket_rate_limite.Limiter.Config.{Config, validate}
use token_bucket_rate_limite.Limiter.Decision.{Decision}
use token_bucket_rate_limite.Limiter.Stats.{ClientStats, no_stats, bump}
use token_bucket_rate_limite.Limiter.Manager.{
  Manager, set_config, remove_client, record_decision, acquire, stats,
}
use token_bucket_rate_limite.Limiter.Manager.View.{IsValid}
use token_bucket_rate_limite.Limiter.Manager.Counted.{stats-view}
use token_bucket_rate_limite.Limiter.Manager.Concurrent.{
  Stage, holding, decided, counted, InFlight, Busy, begin_request, advance, begins, calls, counts,
  configures, removes, Reach, idle, later,
}
use token_bucket_rate_limite.Limiter.Manager.Concurrent.Sections.{call_cases, acquire_cases}
use token_bucket_rate_limite.Limiter.Manager.Concurrent.Held.{Reach-IsOwned}

abbrev one_if : Bool → ℕ
one_if b = if b then 1 else 0

bump_one :
    (a b c d : ℕ) (allowed : Bool)
    → c ≡ a + one_if allowed
    → d ≡ b + one_if (not allowed)
    → c < 2 ^ 63
    → d < 2 ^ 63
    → bump (record { allowed = pos a; denied = pos b }) allowed
      ≡ record { allowed = pos c; denied = pos d }
unfolding bump add64
bump_one a b c d true h k few_c few_d = ground arith
bump_one a b c d false h k few_c few_d = ground arith

module _ {F : Type 0} where
  -- 1 for a counted request of the client with the verdict, 0 for any other.
  abbrev pub counts_for : String → Bool → InFlight F → ℕ
  counts_for j allowed r = elim (r.stage) [
    | counted d ↦ one_if (str_eq r.client j && (if allowed then d.allowed else not d.allowed))
    | _ ↦ 0
  ]

  abbrev pub tally : Busy F → String → ClientStats
  tally s j = record {
    allowed = pos (total (counts_for j true) s.requests);
    denied = pos (total (counts_for j false) s.requests);
  }

  phases :
      (stage : Stage F)
      → ((p : ℕ) × (stage ≡ holding p))
        ⊎ ((d : Decision F) × (stage ≡ decided d))
        ⊎ ((d : Decision F) × (stage ≡ counted d))
  phases (holding p) = inl (p, refl)
  phases (decided d) = inr (inl (d, refl))
  phases (counted d) = inr (inr (d, refl))

  counts_for-le : (j : String) (b : Bool) (r : InFlight F) → counts_for j b r ≤ 1
  counts_for-le j b r = elim (phases r.stage) [
    | inl (p, e) ↦ rw e (omega arith)
    | inr (inl (d, e)) ↦ rw e (omega arith)
    | inr (inr (d, e)) ↦ rw e (ground arith)
  ]

  tally-le :
      (j : String) (b : Bool) (rs : List (InFlight F)) → total (counts_for j b) rs ≤ length rs
  tally-le j b [] = omega arith
  tally-le j b (r ∷ rs) = omega (arith, tally-le j b rs, counts_for-le j b r)

module _ {F : Type 0} ⦃fl : Float F⦄ where
  -- What is stored of each client is its tally.
  abbrev IsTallied : Busy F → Type 0
  IsTallied s = (j : String) → Option.get_or (lookup j s.manager.counts) no_stats ≡ tally s j

  -- A step that counts nothing.
  uncounted :
      (s : Busy F) (i : ℕ) (r : InFlight F) (after : Manager F) (d : Decision F)
      → IsTallied s
      → (p : ℕ) → get_elem? s.requests i ≡ some r
      → r.stage ≡ holding p
      → after.counts ≡ s.manager.counts
      → IsTallied (advance s i r after (decided d))
  uncounted s i r after d v p at hold same j =
      let none_yet : (b : Bool) → counts_for j b r ≡ 0 = λ b. rw hold in
      let new = record r { stage = decided d } in
      let yes = total-set (counts_for j true) s.requests i r new at in
      let no = total-set (counts_for j false) s.requests i r new at in
      rw same (ground (arith, v j, none_yet true, none_yet false))

  -- A count of the client that the request is for, and of any other.
  own_counted :
      (s : Busy F) (i : ℕ) (r : InFlight F) (d : Decision F)
      → IsTallied s
      → length s.requests < 2 ^ 63
      → get_elem? s.requests i ≡ some r
      → r.stage ≡ decided d
      → bump (tally s r.client) d.allowed
        ≡ tally (advance s i r (record_decision s.manager r.client d.allowed) (counted d)) r.client
  own_counted s i r d v fits at done =
      let none_yet : (b : Bool) → counts_for r.client b r ≡ 0 = λ b. rw done in
      let new = record r { stage = counted d } in
      let yes = total-set (counts_for r.client true) s.requests i r new at in
      let no = total-set (counts_for r.client false) s.requests i r new at in
      let few_yes = tally-le r.client true (set s.requests i new) in
      let few_no = tally-le r.client false (set s.requests i new) in
      let long = length-set s.requests i new in
      let itself : str_eq r.client r.client ≡ true = ground (arith, eq_iff r.client r.client) in
      let one : counts_for r.client true new ≡ one_if d.allowed = rw itself in
      let other : counts_for r.client false new ≡ one_if (not d.allowed) = rw itself in
      bump_one _ _ _ _ d.allowed (omega (arith, yes, one, none_yet true))
        (omega (arith, no, other, none_yet false)) (omega (arith, few_yes, long))
        (omega (arith, few_no, long))

  counted_lem :
      (s : Busy F) (i : ℕ) (r : InFlight F) (d : Decision F)
      → IsTallied s
      → length s.requests < 2 ^ 63
      → get_elem? s.requests i ≡ some r
      → r.stage ≡ decided d
      → IsTallied (advance s i r (record_decision s.manager r.client d.allowed) (counted d))
  unfolding record_decision
  counted_lem s i r d v fits at done j = elim (Bool-cases (str_eq r.client j)) [
    | inl same ↦
        let itself : r.client ≡ j = ground (arith, eq_iff r.client j) in
        let stored = bump (Option.get_or (lookup r.client s.manager.counts) no_stats) d.allowed in
        let found : lookup r.client (insert r.client stored s.manager.counts) ≡ some stored =
          ground (
            arith,
            lookup-insert r.client r.client stored s.manager.counts,
            eq_iff r.client r.client,
          ) in
        let after = advance s i r (record_decision s.manager r.client d.allowed) (counted d) in
        let own : Option.get_or (lookup r.client after.manager.counts) no_stats
            ≡ tally after r.client =
          ap (λ o. Option.get_or o no_stats) found
          ∙ ap (λ c. bump c d.allowed) (v r.client)
          ∙ own_counted s i r d v fits at done in
        subst (λ k. Option.get_or (lookup k after.manager.counts) no_stats ≡ tally after k) itself
          own
    | inr other ↦
        let none_yet : (b : Bool) → counts_for j b r ≡ 0 = λ b. rw done in
        let new = record r { stage = counted d } in
        let none_new : (b : Bool) → counts_for j b new ≡ 0 = λ b. rw other in
        let yes = total-set (counts_for j true) s.requests i r new at in
        let no = total-set (counts_for j false) s.requests i r new at in
        ground (
          arith,
          v j,
          none_yet true,
          none_yet false,
          none_new true,
          none_new false,
          lookup-insert r.client j
              (bump (Option.get_or (lookup r.client s.manager.counts) no_stats) d.allowed)
              s.manager.counts,
        )
  ]

  begin_request-IsTallied :
      (s : Busy F) (id : String) (now : Time) → IsTallied s → IsTallied (begin_request s id now)
  begin_request-IsTallied s id now v j =
      let (acquired, p) = acquire s.manager id now in
      let new : InFlight F = record { client = id; stage = holding p } in
      let kept : acquired.counts ≡ s.manager.counts = elim (acquire_cases s.manager id now) [
        | inl (q, known, same) ↦ rw same
        | inr (l, same) ↦ rw same
      ] in
      let yes = total-append (counts_for j true) s.requests (new ∷ []) in
      let no = total-append (counts_for j false) s.requests (new ∷ []) in
      rw kept (ground (arith, v j))

  configures-IsTallied :
      (s : Busy F) (id : String) (cfg : Config F)
      → IsTallied s
      → IsTallied (record s { manager = (set_config s.manager id cfg).0 })
  unfolding set_config
  configures-IsTallied s id cfg v j = elim (Option-cases (validate cfg)) [
    | inl good ↦ rw (good, set_config) (v j)
    | inr (error, bad) ↦ rw (bad, set_config) (v j)
  ]

  module _ (m : Manager F) (nothing : m.counts ≡ []) where
    Reach-IsTallied : {s : Busy F} → Reach m s → length s.requests < 2 ^ 63 → IsTallied s
    unfolding lookup remove_client
    Reach-IsTallied idle fits = λ j. rw nothing refl
    Reach-IsTallied (later {s = s} r (begins id now)) fits = begin_request-IsTallied s id now (
        Reach-IsTallied r (
          omega (
            arith,
            length-append s.requests
                (record { client = id; stage = holding (acquire s.manager id now).1 } ∷ []),
          )))
    Reach-IsTallied (later {s = s} r (calls i q p now after d at hold e)) fits =
        let (l, found, same) = call_cases s.manager after p now d e in
        uncounted s i q after d
          (Reach-IsTallied r
            (omega (arith, length-set s.requests i (record q { stage = decided d }))))
          p at hold (ap (λ (x : Manager F). x.counts) same)
    Reach-IsTallied (later {s = s} r (counts i q d at done)) fits =
        let shorter : length s.requests < 2 ^ 63 =
          omega (arith, length-set s.requests i (record q { stage = counted d })) in
        counted_lem s i q d (Reach-IsTallied r shorter) shorter at done
    Reach-IsTallied (later {s = s} r (configures id cfg)) fits =
        configures-IsTallied s id cfg (Reach-IsTallied r fits)
    Reach-IsTallied (later {s = s} r (removes id)) fits = Reach-IsTallied r fits

    -- However calls of `Allow`, `SetConfig` and `RemoveClient` interleave, from a valid manager
    -- that has counted nothing and with fewer than 2^63 calls of `Allow`: `Stats` shows of each
    -- client how many of its calls have counted an allowed decision and how many a denied one.
    pub stats-tally :
        {s : Busy F} (j : String)
        → IsValid m
        → Reach m s
        → length s.requests < 2 ^ 63
        → Option.get_or (lookup j (stats s.manager)) no_stats ≡ tally s j
    stats-tally {s = s} j v r fits =
        let (owner, o) = Reach-IsOwned m v r in
        ap (λ o. Option.get_or o no_stats) (stats-view s.manager j o.valid)
        ∙ Reach-IsTallied r fits j
