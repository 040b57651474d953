-- ===== src/Limiter/Manager/Concurrent/Serving.antt =====
-- The other steps of requests that run at the same time, in the order in which a limiter serves
-- them: `Allow` of internal/limiter/manager.go.
use mathlib.Core.List.{map}
use mathlib.Core.List.{map-append}
use token_bucket_rate_limite.Prelude.{
  ℕ, ◌+◌, ◌≡◌, ◌≢◌, inl, inr, refl, sym, ap, ◌∙◌, Option, some, List, [], ◌∷◌, ◌++◌, String, str_eq,
  eq_iff, arith, get_elem?, set, Option-cases, Bool-cases, total, total-set, total-append, true,
  false, get_elem?_lt, get_elem?-set_self, get_elem?-set_ne, get_elem?-set_cases, if◌then◌else◌,
}
use token_bucket_rate_limite.Prelude.Map.{lookup, lookup-insert, lookup-delete}
use token_bucket_rate_limite.Float.{Float}
use token_bucket_rate_limite.Clock.{Time}
use token_bucket_rate_limite.Limiter.Config.{Config, validate}
use token_bucket_rate_limite.Limiter.Decision.{Decision}
use token_bucket_rate_limite.Limiter.Algorithm
use token_bucket_rate_limite.Limiter.Algorithm.{Limiter, new_limiter}
use token_bucket_rate_limite.Limiter.Manager.{
  Manager, set_config, remove_client, record_decision, call,
}
use token_bucket_rate_limite.Limiter.Manager.Pointers.{limiter_at, limiter_at-set}
use token_bucket_rate_limite.Limiter.Manager.View.{view, config_of, IsValid}
use token_bucket_rate_limite.Limiter.Manager.Concurrent.{
  Stage, holding, decided, counted, InFlight, Busy, advance,
}
use token_bucket_rate_limite.Limiter.Manager.Concurrent.History.{
  LimiterCall, times, answer_in, weigh, run_from,
}
use token_bucket_rate_limite.Limiter.Manager.Concurrent.Sections.{call_cases}
use token_bucket_rate_limite.Limiter.Manager.Concurrent.Owners.{IsOwned}
use token_bucket_rate_limite.Limiter.Manager.Concurrent.Answers.{
  Keeps, Keeps-map, set-Keeps, run_from-append, call_decides, unanswered,
}
use token_bucket_rate_limite.Limiter.Manager.Concurrent.Order.{IsInOrder}

module _ {F : Type 0} ⦃fl : Float F⦄ where
  module _ (j : String) (cfg : Config F) (s : Busy F) (o : Option (Limiter F))
      (ks : List LimiterCall) (v : IsInOrder j cfg s o ks) where
    abbrev heap : List (Limiter F)
    heap = s.manager.heap

    -- A request that moves on, by what its manager shows of the client afterwards.
    advanced :
        (i : ℕ) (q : InFlight F) (after : Manager F) (stage : Stage F) (ks' : List LimiterCall)
        → get_elem? s.requests i ≡ some q
        → ((p : ℕ) → stage ≢ holding p)
        → after.limiters ≡ s.manager.limiters
        → config_of (view after j) ≡ cfg
        → (view after j).limiter ≡ (run_from o (times ks')).0
        → map (λ k. answer_in (set s.requests i (record q { stage = stage })) k.request) ks'
          ≡ map some (run_from o (times ks')).1
        → ((f : Decision F → ℕ)
            → total f (run_from o (times ks)).1 + weigh j f (record q { stage = stage })
              ≡ total f (run_from o (times ks')).1 + weigh j f q)
        → IsInOrder j cfg (advance s i q after stage) o ks'
    advanced i q after stage ks' at free same configured shown answered weighed = record {
      limiter = shown;
      answers = answered;
      weighed = λ f. omega (
        arith,
        total-set (weigh j f) s.requests i q (record q { stage = stage }) at,
        weighed f,
        v.weighed f,
      );
      config = configured;
      held = λ k r p' there hold mine.
          elim (get_elem?-set_cases s.requests i (record q { stage = stage }) k r there) [
            | inl before ↦ rw same (v.held k r p' before hold mine)
            | inr new ↦ absurd (free p' (ap (λ (x : InFlight F). x.stage) new ∙ hold))
          ];
    }

    -- A decision that is counted is the one that it was.
    pub counts_kept :
        (i : ℕ) (q : InFlight F) (d : Decision F)
        → get_elem? s.requests i ≡ some q
        → q.stage ≡ decided d
        → IsInOrder j cfg
            (advance s i q (record_decision s.manager q.client d.allowed) (counted d))
            o
            ks
    unfolding record_decision
    counts_kept i q d at done =
        advanced i q (record_decision s.manager q.client d.allowed) (counted d) ks at
          (λ p. λ (e : counted d ≡ holding p). cc) refl v.config v.limiter
          (Keeps-map s.requests _ ks _
            (set-Keeps s.requests i q (counted d) at (λ a e. rw done at e)) v.answers)
          (λ f. rw done refl)

    module _ (i : ℕ) (q : InFlight F) (p : ℕ) (now : Time) (after : Manager F) (d : Decision F)
        (at : get_elem? s.requests i ≡ some q) (hold : q.stage ≡ holding p)
        (e : call s.manager p now ≡ some (after, d)) where
      still_answered : Keeps s.requests (set s.requests i (record q { stage = decided d }))
      still_answered = set-Keeps s.requests i q (decided d) at (λ a e. unanswered q p a d hold e)

      calls_own :
          IsValid s.manager
          → q.client ≡ j
          → IsInOrder j cfg
              (advance s i q after (decided d))
              o
              (ks ++ (record { request = i; time = now } ∷ []))
      unfolding limiter_at
      calls_own valid mine =
          let (l, found, same) = call_cases s.manager after p now d e in
          let (next, decision) = Algorithm.allow l now in
          let is_d : decision ≡ d = call_decides s.manager after p now d l found e in
          let known : lookup j s.manager.limiters ≡ some p = v.held i q p at hold mine in
          let served : (run_from o (times ks)).0 ≡ some l =
            sym v.limiter ∙ rw (known, limiter_at) found in
          let k : LimiterCall = record { request = i; time = now } in
          let ks' = ks ++ (k ∷ []) in
          let longer : run_from o (times ks') ≡ (some next, (run_from o (times ks)).1 ++ (d ∷ [])) =
            rw (map-append, ← is_d) (run_from-append o (times ks) now l served) in
          let shown = limiter_at-set s.manager.limiters heap valid.pointers j next p j known in
          let rs = set s.requests i (record q { stage = decided d }) in
          let here : answer_in rs i ≡ some d = rw (
            get_elem?-set_self s.requests i (record q { stage = decided d })
              (get_elem?_lt s.requests i at)) in
          let itself : str_eq q.client j ≡ true = ground (arith, eq_iff q.client j) in
          advanced i q after (decided d) ks' at (λ p. λ (e : decided d ≡ holding p). cc)
            (ap (λ (x : Manager F). x.limiters) same) (rw same v.config)
            (rw (same, longer) (ground (arith, shown, eq_iff j j)))
            (rw (longer, map-append, map-append, here)
              (ap (λ xs. xs ++ (some d ∷ []))
                (Keeps-map s.requests rs ks (run_from o (times ks)).1 still_answered v.answers)))
            (λ f.
              rw (longer, itself, hold)
                (omega (arith, total-append f (run_from o (times ks)).1 (d ∷ []))))

      calls_other :
          ((p' : ℕ) → lookup j s.manager.limiters ≡ some p' → p ≢ p')
          → q.client ≢ j
          → IsInOrder j cfg (advance s i q after (decided d)) o ks
      unfolding limiter_at
      calls_other apart other =
          let (l, found, same) = call_cases s.manager after p now d e in
          let different : str_eq q.client j ≡ false = ground (arith, eq_iff q.client j) in
          let next = (Algorithm.allow l now).0 in
          let shown : limiter_at s.manager.limiters (set heap p next) j
              ≡ (view s.manager j).limiter =
            elim (Option-cases (lookup j s.manager.limiters)) [
              | inl absent ↦ rw (absent, limiter_at)
              | inr (p', known) ↦
                  rw (known, limiter_at) (get_elem?-set_ne heap p p' next (apart p' known))
            ] in
          advanced i q after (decided d) ks at (λ p. λ (e : decided d ≡ holding p). cc)
            (ap (λ (x : Manager F). x.limiters) same) (rw same v.config)
            (rw same (shown ∙ v.limiter)) (Keeps-map s.requests _ ks _ still_answered v.answers)
            (λ f. rw different refl)

    -- A config or a limiter of another client is changed.
    other_changed :
        (after : Manager F)
        → after.heap ≡ s.manager.heap
        → lookup j after.limiters ≡ lookup j s.manager.limiters
        → lookup j after.configs ≡ lookup j s.manager.configs
        → IsInOrder j cfg (record s { manager = after }) o ks
    unfolding limiter_at
    other_changed after same_heap same_limiter same_config = record {
      limiter = rw (same_heap, same_limiter, limiter_at) v.limiter;
      answers = v.answers;
      weighed = v.weighed;
      config = rw same_config v.config;
      held = λ i q p at hold mine. rw same_limiter (v.held i q p at hold mine);
    }

    pub configures_other :
        (id : String) (new : Config F)
        → id ≢ j
        → IsInOrder j cfg (record s { manager = (set_config s.manager id new).0 }) o ks
    unfolding set_config
    configures_other id new other =
        let different : str_eq id j ≡ false = ground (arith, eq_iff id j) in
        elim (Option-cases (validate new)) [
          | inl good ↦
              rw (good, set_config)
                (other_changed _ refl (rw (lookup-delete, different))
                  (rw (lookup-insert, different)))
          | inr (error, bad) ↦ rw (bad, set_config) v
        ]

    pub removes_other :
        (id : String)
        → id ≢ j
        → IsInOrder j cfg (record s { manager = remove_client s.manager id }) o ks
    unfolding remove_client
    removes_other id other =
        let different : str_eq id j ≡ false = ground (arith, eq_iff id j) in
        other_changed _ refl (rw (lookup-delete, different)) (rw (lookup-delete, different))

    pub calls_lem :
        (i : ℕ) (q : InFlight F) (p : ℕ) (now : Time) (after : Manager F) (d : Decision F)
        → get_elem? s.requests i ≡ some q
        → q.stage ≡ holding p
        → call s.manager p now ≡ some (after, d)
        → (owner : ℕ → String) → IsOwned s owner
        → IsInOrder j cfg
            (advance s i q after (decided d))
            o
            (if str_eq q.client j then ks ++ (record { request = i; time = now } ∷ []) else ks)
    calls_lem i q p now after d at hold e owner owned = elim (Bool-cases (str_eq q.client j)) [
      | inl mine ↦
          rw mine
            (calls_own i q p now after d at hold e owned.valid (ground (arith, eq_iff q.client j)))
      | inr other ↦
          let different : q.client ≢ j = λ same. ground (arith, eq_iff q.client j) in
          rw other (
            calls_other i q p now after d at hold e
              (λ p' known same.
                different
                  (sym (owned.held i q p at hold).1 ∙ ap owner same ∙ owned.mapped j p' known))
              different)
    ]
