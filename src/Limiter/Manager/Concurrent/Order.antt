-- ===== src/Limiter/Manager/Concurrent/Order.antt =====
-- A client whose limiter has served the calls that its requests made of it one after another, and
-- a request that begins: `Allow` of internal/limiter/manager.go.
use mathlib.Core.List.{map}
use token_bucket_rate_limite.Prelude.{
  ℕ, ◌≡◌, ◌≢◌, inl, inr, refl, sym, ap, subst, ◌∙◌, Option, none, some, List, [], ◌∷◌, ◌++◌, String,
  str_eq, eq_iff, arith, length, get_elem?, Option-cases, Bool-cases, total, total-append,
  get_elem?-append_cases, if◌then◌else◌,
}
use token_bucket_rate_limite.Prelude.Map.{lookup, lookup-insert}
use token_bucket_rate_limite.Float.{Float}
use token_bucket_rate_limite.Clock.{Time}
use token_bucket_rate_limite.Limiter.Config.{Config}
use token_bucket_rate_limite.Limiter.Decision.{Decision}
use token_bucket_rate_limite.Limiter.Algorithm.{Limiter, new_limiter}
use token_bucket_rate_limite.Limiter.Manager.{Manager, acquire}
use token_bucket_rate_limite.Limiter.Manager.Pointers.{
  limiter_at-append, limiter_at_found, limiter_at-none,
}
use token_bucket_rate_limite.Limiter.Manager.View.{view, config_of, IsValid}
use token_bucket_rate_limite.Limiter.Manager.Concurrent.{holding, InFlight, Busy, begin_request}
use token_bucket_rate_limite.Limiter.Manager.Concurrent.History.{
  LimiterCall, times, answer_in, weigh, serve_all, run_from, or_made,
}
use token_bucket_rate_limite.Limiter.Manager.Concurrent.Sections.{acquire_cases}
use token_bucket_rate_limite.Limiter.Manager.Concurrent.Owners.{new_held}
use token_bucket_rate_limite.Limiter.Manager.Concurrent.Answers.{
  Keeps-map, append-Keeps, nil-calls, run_from-none, or_made-some,
}

module _ {F : Type 0} ⦃fl : Float F⦄ where
  -- The client's limiter has served the calls in their order, and its answers are those that the
  -- client's requests have.
  pub record IsInOrder (j : String) (cfg : Config F) (s : Busy F) (o : Option (Limiter F))
      (ks : List LimiterCall) : Type 0 where
    pub limiter : (view s.manager j).limiter ≡ (run_from o (times ks)).0
    pub answers : map (λ k. answer_in s.requests k.request) ks ≡ map some (run_from o (times ks)).1
    pub weighed :
        (f : Decision F → ℕ) → total (weigh j f) s.requests ≡ total f (run_from o (times ks)).1
    pub config : config_of (view s.manager j) ≡ cfg
    pub held :
        (i : ℕ) (q : InFlight F) (p : ℕ)
        → get_elem? s.requests i ≡ some q
        → q.stage ≡ holding p
        → q.client ≡ j
        → lookup j s.manager.limiters ≡ some p

  module _ (j : String) (cfg : Config F) (s : Busy F) (o : Option (Limiter F))
      (ks : List LimiterCall) (v : IsInOrder j cfg s o ks) where
    -- A request that begins, by what its manager shows of the client afterwards.
    appended :
        (id : String) (after : Manager F) (p : ℕ) (o' : Option (Limiter F))
        → (view after j).limiter ≡ (run_from o' (times ks)).0
        → (run_from o (times ks)).1 ≡ (run_from o' (times ks)).1
        → config_of (view after j) ≡ cfg
        → ((q : ℕ) → lookup j s.manager.limiters ≡ some q → lookup j after.limiters ≡ some q)
        → (id ≡ j → lookup j after.limiters ≡ some p)
        → IsInOrder j cfg
            (record {
              manager = after;
              requests = s.requests ++ (record { client = id; stage = holding p } ∷ []);
            })
            o'
            ks
    appended id after p o' shown same configured kept own =
        let new : InFlight F = record { client = id; stage = holding p } in
        record {
          limiter = shown;
          answers =
              Keeps-map s.requests (s.requests ++ (new ∷ [])) ks _ (append-Keeps s.requests new)
                (v.answers ∙ ap (map some) same);
          weighed = λ f.
              let nothing : weigh j f new ≡ 0 = ground arith in
              omega (
                arith,
                total-append (weigh j f) s.requests (new ∷ []),
                nothing,
                v.weighed f,
                ap (total f) same,
              );
          config = configured;
          held = λ i q p' at hold mine. elim (get_elem?-append_cases s.requests new i q at) [
            | inl before ↦ kept p' (v.held i q p' before hold mine)
            | inr is_new ↦
                let (c, e) = new_held id p p' q is_new hold in own (sym c ∙ mine) ∙ ap some (sym e)
          ];
        }

    abbrev heap : List (Limiter F)
    heap = s.manager.heap

    -- Before the client has a limiter, no call of one was made.
    nothing_called : o ≡ none → ks ≡ []
    unfolding run_from
    nothing_called none_yet =
        nil-calls s.requests ks (v.answers ∙ ap (λ x. map some (run_from x (times ks)).1) none_yet)

    module _ (valid : IsValid s.manager) where
      begins_own : (now : Time) → IsInOrder j cfg (begin_request s j now) (or_made cfg o now) ks
      unfolding acquire run_from serve_all
      begins_own now = elim (Option-cases (lookup j s.manager.limiters)) [
        | inl absent ↦
            let none_yet =
              run_from-none o (times ks)
                (sym v.limiter ∙ limiter_at-none s.manager.limiters heap valid.pointers j absent) in
            let uncalled = nothing_called none_yet in
            let l = new_limiter (config_of (view s.manager j)) now in
            let shown = limiter_at-append s.manager.limiters heap valid.pointers j l j in
            let found = lookup-insert j j (length heap) s.manager.limiters in
            rw (absent, acquire)
              (appended j _ (length heap) (or_made cfg o now)
                (rw (none_yet, uncalled) (ground (arith, shown, eq_iff j j, v.config)))
                (rw (none_yet, uncalled) refl) v.config (λ q e. cc)
                (λ e. ground (arith, found, eq_iff j j)))
        | inr (p, known) ↦
            let (l, at, shown) =
              limiter_at_found s.manager.limiters heap valid.pointers j p known in
            let kept = or_made-some cfg o (times ks) now l (sym v.limiter ∙ shown) in
            rw (kept, known, acquire)
              (appended j s.manager p o v.limiter refl v.config (λ q e. e) (λ e. known))
      ]

      begins_other :
          (id : String) (now : Time) → id ≢ j → IsInOrder j cfg (begin_request s id now) o ks
      begins_other id now other = elim (acquire_cases s.manager id now) [
        | inl (p, known, same) ↦
            rw same
              (appended id s.manager p o v.limiter refl v.config (λ q e. e) (λ e. absurd (other e)))
        | inr (l, same) ↦
            let shown = limiter_at-append s.manager.limiters heap valid.pointers id l j in
            rw same (
              appended id _ (length heap) o (ground (arith, shown, eq_iff id j, v.limiter)) refl
                v.config
                (λ q e.
                  ground (arith, lookup-insert id j (length heap) s.manager.limiters, eq_iff id j))
                (λ e. absurd (other e)))
      ]

    pub begins_lem :
        IsValid s.manager
        → (id : String) (now : Time)
        → IsInOrder j cfg (begin_request s id now) (if str_eq id j then or_made cfg o now else o) ks
    begins_lem valid id now = elim (Bool-cases (str_eq id j)) [
      | inl mine ↦
          let itself : j ≡ id = ground (arith, eq_iff id j) in
          rw mine (
            subst (λ x. IsInOrder j cfg (begin_request s x now) (or_made cfg o now) ks) itself
              (begins_own valid now))
      | inr other ↦ rw other (begins_other valid id now (λ same. ground (arith, eq_iff id j)))
    ]
