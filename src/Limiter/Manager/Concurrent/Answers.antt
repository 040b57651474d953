-- ===== src/Limiter/Manager/Concurrent/Answers.antt =====
-- The answers of requests that run at the same time, and a limiter on a sequence of calls:
-- `Allow` of internal/limiter/manager.go.
use mathlib.Core.Option
use mathlib.Core.List.{map}
use token_bucket_rate_limite.Prelude.{
  ℕ, ◌≡◌, ◌≢◌, inl, inr, refl, ap, subst, Option, none, some, List, [], ◌∷◌, ◌++◌, ◌==◌, arith,
  get_elem?, set, Option-cases, Bool-cases, get_elem?-append_left, get_elem?_lt, get_elem?-set_self,
  get_elem?-set_ne,
}
use token_bucket_rate_limite.Float.{Float}
use token_bucket_rate_limite.Clock.{Time}
use token_bucket_rate_limite.Limiter.Config.{Config}
use token_bucket_rate_limite.Limiter.Decision.{Decision}
use token_bucket_rate_limite.Limiter.Algorithm
use token_bucket_rate_limite.Limiter.Algorithm.{Limiter, new_limiter}
use token_bucket_rate_limite.Limiter.Manager.{Manager, call}
use token_bucket_rate_limite.Limiter.Manager.Concurrent.{Stage, holding, InFlight}
use token_bucket_rate_limite.Limiter.Manager.Concurrent.History.{
  LimiterCall, answer, answer_in, serve_all, serve_all-append, run_from, or_made,
}

module _ {F : Type 0} where
  -- Answers that are not taken back.
  abbrev pub Keeps : List (InFlight F) → List (InFlight F) → Type 0
  Keeps rs rs' = (i : ℕ) (d : Decision F) → answer_in rs i ≡ some d → answer_in rs' i ≡ some d

  pub Keeps-map :
      (rs rs' : List (InFlight F)) (ks : List LimiterCall) (ds : List (Decision F))
      → Keeps rs rs'
      → map (λ k. answer_in rs k.request) ks ≡ map some ds
      → map (λ k. answer_in rs' k.request) ks ≡ map some ds
  Keeps-map rs rs' [] ds kept e = e
  Keeps-map rs rs' (k ∷ ks) [] kept e = cc
  Keeps-map rs rs' (k ∷ ks) (d ∷ ds) kept e =
      let head : answer_in rs k.request ≡ some d = cc in
      let rest : map (λ k. answer_in rs k.request) ks ≡ map some ds = cc in
      let new = kept k.request d head in let all = Keeps-map rs rs' ks ds kept rest in cc

  pub append-Keeps : (rs : List (InFlight F)) (r : InFlight F) → Keeps rs (rs ++ (r ∷ []))
  append-Keeps rs r i d e = elim (Option-cases (get_elem? rs i)) [
    | inl absent ↦ ground (arith, absent, e)
    | inr (q, at) ↦
        ground (arith, e, at, get_elem?-append_left rs (r ∷ []) i (get_elem?_lt rs i at))
  ]

  pub set-Keeps :
      (rs : List (InFlight F)) (i : ℕ) (r : InFlight F) (stage : Stage F)
      → get_elem? rs i ≡ some r
      → ((d : Decision F) → answer r.stage ≡ some d → answer stage ≡ some d)
      → Keeps rs (set rs i (record r { stage = stage }))
  set-Keeps rs i r stage at kept k d e = elim (Bool-cases (i == k)) [
    | inl same ↦
        let itself : i ≡ k = ground arith in
        let here : get_elem? rs k ≡ some r = subst (λ x. get_elem? rs x ≡ some r) itself at in
        let before : answer r.stage ≡ some d = rw here at e in
        let now = get_elem?-set_self rs i (record r { stage = stage }) (get_elem?_lt rs i at) in
        subst (λ x. answer_in (set rs i (record r { stage = stage })) x ≡ some d) itself
          (rw now (kept d before))
    | inr other ↦
        let apart : i ≢ k = λ same. ground arith in
        rw (get_elem?-set_ne rs i k (record r { stage = stage }) apart) e
  ]

module _ {F : Type 0} ⦃fl : Float F⦄ where
  pub nil-calls :
      (rs : List (InFlight F)) (ks : List LimiterCall)
      → map (λ k. answer_in rs k.request) ks ≡ []
      → ks ≡ []
  nil-calls rs [] e = refl
  nil-calls rs (k ∷ ks) e = cc

  pub run_from-none :
      (o : Option (Limiter F)) (ts : List Time) → (run_from o ts).0 ≡ none → o ≡ none
  unfolding run_from
  run_from-none none ts e = refl
  run_from-none (some l) ts e = cc

  pub or_made-some :
      (cfg : Config F) (o : Option (Limiter F)) (ts : List Time) (now : Time) (l : Limiter F)
      → (run_from o ts).0 ≡ some l
      → or_made cfg o now ≡ o
  unfolding run_from
  or_made-some cfg none ts now l e = cc
  or_made-some cfg (some a) ts now l e = refl

  pub run_from-nil : (o : Option (Limiter F)) → ((run_from o []).0 ≡ o) × ((run_from o []).1 ≡ [])
  unfolding run_from serve_all
  run_from-nil none = (refl, refl)
  run_from-nil (some l) = (refl, refl)

  pub run_from-append :
      (o : Option (Limiter F)) (ts : List Time) (t : Time) (l : Limiter F)
      → (run_from o ts).0 ≡ some l
      → run_from o (ts ++ (t ∷ []))
        ≡ (some (Algorithm.allow l t).0, (run_from o ts).1 ++ ((Algorithm.allow l t).1 ∷ []))
  unfolding run_from
  run_from-append none ts t l e = cc
  run_from-append (some a) ts t l e =
      let last : (serve_all a ts).0 ≡ l = cc in rw (serve_all-append a ts t, last)

  pub call_decides :
      (m after : Manager F) (p : ℕ) (now : Time) (d : Decision F) (l : Limiter F)
      → get_elem? m.heap p ≡ some l
      → call m p now ≡ some (after, d)
      → (Algorithm.allow l now).1 ≡ d
  unfolding call
  call_decides m after p now d l at e =
      let good = rw (at, call) at e in
      ap (λ (o : Option (Manager F × Decision F)). (Option.get_or o (m, d)).1) good

  pub unanswered :
      (q : InFlight F) (p : ℕ) (a b : Decision F)
      → q.stage ≡ holding p
      → answer q.stage ≡ some a
      → some b ≡ some a
  unanswered q p a b hold e = let none_yet : none ≡ some a = rw hold at e in cc
