-- ===== src/Limiter/Manager/Concurrent/Agreeing.antt =====
-- The limiters of internal/limiter/manager.go and the configs that they were made for, while requests
-- run at the same time.
use token_bucket_rate_limite.Prelude.{
  ℕ, ◌≡◌, inl, inr, sym, subst, ◌∙◌, some, [], ◌∷◌, ◌++◌, String, false, str_eq, eq_iff, arith,
  ◌==◌, length, get_elem?, Option-cases, Bool-cases, get_elem?-append_left, get_elem?-append_last,
  get_elem?_lt, get_elem?-set_self, get_elem?-set_ne,
}
use token_bucket_rate_limite.Prelude.Map.{GoMap, delete, lookup, lookup-insert, lookup-delete}
use token_bucket_rate_limite.Float.{Float}
use token_bucket_rate_limite.Clock.{Time}
use token_bucket_rate_limite.Limiter.Config.{Config, validate}
use token_bucket_rate_limite.Limiter.Decision.{Decision}
use token_bucket_rate_limite.Limiter.Algorithm
use token_bucket_rate_limite.Limiter.Algorithm.{Limiter, new_limiter}
use token_bucket_rate_limite.Limiter.Manager.{
  Manager, set_config, remove_client, record_decision, acquire, call,
}
use token_bucket_rate_limite.Limiter.Manager.Pointers.{limiter_at_found}
use token_bucket_rate_limite.Limiter.Manager.View.{view, config_of, IsValid}
use token_bucket_rate_limite.Limiter.Manager.Agreement.{
  Suits, IsConfigured, new_limiter-Suits, allow-Suits,
}
use token_bucket_rate_limite.Limiter.Manager.Concurrent.{
  Busy, begins, calls, counts, configures, removes, Step, Reach, idle, later,
}
use token_bucket_rate_limite.Limiter.Manager.Concurrent.Sections.{call_cases, acquire_cases}

not_deleted :
    (id j : String) (p : ℕ) (m : GoMap ℕ)
    → lookup j (delete id m) ≡ some p
    → (str_eq id j ≡ false) × (lookup j m ≡ some p)
not_deleted id j p m e = ground (arith, lookup-delete id j m)

module _ {F : Type 0} ⦃fl : Float F⦄ where
  -- The pointer leads to a limiter that suits the config.
  abbrev pub SuitsAt : Manager F → ℕ → Config F → Type 0
  SuitsAt m p cfg = (l : Limiter F) × (get_elem? m.heap p ≡ some l) × Suits cfg l

  acquire-SuitsAt :
      (m : Manager F) (id : String) (now : Time) (p : ℕ) (cfg : Config F)
      → SuitsAt m p cfg
      → SuitsAt (acquire m id now).0 p cfg
  acquire-SuitsAt m id now p cfg (l, at, suits) = elim (acquire_cases m id now) [
    | inl (q, known, same) ↦ rw same (l, at, suits)
    | inr (new, same) ↦
        rw same
          (l, get_elem?-append_left m.heap (new ∷ []) p (get_elem?_lt m.heap p at) ∙ at, suits)
  ]

  call-SuitsAt :
      (m after : Manager F) (q : ℕ) (now : Time) (d : Decision F) (p : ℕ) (cfg : Config F)
      → call m q now ≡ some (after, d)
      → SuitsAt m p cfg
      → SuitsAt after p cfg
  call-SuitsAt m after q now d p cfg e (l, at, suits) =
      let (before, found, same) = call_cases m after q now d e in
      let next = (Algorithm.allow before now).0 in
      elim (Bool-cases (q == p)) [
        | inl itself ↦
            let is_p : q ≡ p = ground arith in
            let one : l ≡ before = cc in
            subst (λ x. SuitsAt after x cfg) is_p
              (rw same (
                next,
                get_elem?-set_self m.heap q next (get_elem?_lt m.heap q found),
                allow-Suits cfg before now (subst (Suits cfg) one suits),
              ))
        | inr other ↦ rw same (l, get_elem?-set_ne m.heap q p next (λ e. ground arith) ∙ at, suits)
      ]

  -- No step changes the numbers of a limiter.
  pub Step-SuitsAt :
      {s t : Busy F} (p : ℕ) (cfg : Config F)
      → Step s t
      → SuitsAt s.manager p cfg
      → SuitsAt t.manager p cfg
  unfolding record_decision set_config remove_client
  Step-SuitsAt {s = s} p cfg (begins id now) h = acquire-SuitsAt s.manager id now p cfg h
  Step-SuitsAt {s = s} p cfg (calls i r q now after d at hold e) h =
      call-SuitsAt s.manager after q now d p cfg e h
  Step-SuitsAt p cfg (counts i r d at done) h = h
  Step-SuitsAt {s = s} p cfg (configures id new) h = elim (Option-cases (validate new)) [
    | inl good ↦ rw (good, set_config) h
    | inr (error, bad) ↦ rw (bad, set_config) h
  ]
  Step-SuitsAt p cfg (removes id) h = h

  -- The limiter of each client suits its config, or the default.
  abbrev pub AllSuit : Manager F → Type 0
  AllSuit m =
      (j : String) (p : ℕ) → lookup j m.limiters ≡ some p → SuitsAt m p (config_of (view m j))

  begins-AllSuit :
      (m : Manager F) (id : String) (now : Time) → AllSuit m → AllSuit (acquire m id now).0
  unfolding acquire
  begins-AllSuit m id now h j p = elim (Option-cases (lookup id m.limiters)) [
    | inr (q, known) ↦ rw (known, acquire) (h j p)
    | inl absent ↦
        let new = new_limiter (config_of (view m id)) now in
        rw (absent, acquire, lookup-insert)
          (elim (Bool-cases (str_eq id j)) [
            | inl mine ↦ rw mine (λ e.
                let is_p : length m.heap ≡ p = cc in
                let is_j : id ≡ j = ground (arith, eq_iff id j) in
                let made : Manager F = record m { heap = m.heap ++ (new ∷ []) } in
                subst (λ x. SuitsAt made x (config_of (view m j))) is_p
                  (subst (λ k. SuitsAt made (length m.heap) (config_of (view m k))) is_j
                    (
                      new,
                      get_elem?-append_last m.heap new,
                      new_limiter-Suits (config_of (view m id)) now,
                    )))
            | inr other ↦ rw other (λ e.
                let (l, at, suits) = h j p e in
                (
                  l,
                  get_elem?-append_left m.heap (new ∷ []) p (get_elem?_lt m.heap p at) ∙ at,
                  suits,
                ))
          ])
  ]

  updates-AllSuit :
      (m : Manager F) (id : String) (cfg : Config F) → AllSuit m → AllSuit (set_config m id cfg).0
  unfolding set_config
  updates-AllSuit m id cfg h = elim (Option-cases (validate cfg)) [
    | inl good ↦
        rw (good, set_config)
          (λ j p e.
            let (other, known) = not_deleted id j p m.limiters e in
            rw (lookup-insert, other) (h j p known))
    | inr (error, bad) ↦ rw (bad, set_config) h
  ]

  Step-AllSuit : {s t : Busy F} → Step s t → AllSuit s.manager → AllSuit t.manager
  unfolding record_decision remove_client
  Step-AllSuit {s = s} (begins id now) h = begins-AllSuit s.manager id now h
  Step-AllSuit {s = s} (calls i r q now after d at hold e) h =
      let (l, found, same) = call_cases s.manager after q now d e in
      λ j p.
        subst
          (λ (x : Manager F). lookup j x.limiters ≡ some p → SuitsAt after p (config_of (view x j)))
          (sym same) (λ known. call-SuitsAt s.manager after q now d p _ e (h j p known))
  Step-AllSuit (counts i r d at done) h = h
  Step-AllSuit {s = s} (configures id cfg) h = updates-AllSuit s.manager id cfg h
  Step-AllSuit {s = s} (removes id) h = λ j p e.
      let (other, known) = not_deleted id j p s.manager.limiters e in
      rw (lookup-delete, other) (h j p known)

  pub Reach-AllSuit : {m : Manager F} {s : Busy F} → Reach m s → AllSuit m → AllSuit s.manager
  Reach-AllSuit idle h = h
  Reach-AllSuit (later r step) h = Step-AllSuit step (Reach-AllSuit r h)

  -- The same, of a manager that serves no request.
  pub AllSuit-IsConfigured :
      (m : Manager F) → IsValid m → ((j : String) → IsConfigured (view m j)) → AllSuit m
  AllSuit-IsConfigured m v h j p known =
      let (l, at, there) = limiter_at_found m.limiters m.heap v.pointers j p known in
      (l, at, rw there at (h j))
