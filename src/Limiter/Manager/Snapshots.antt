-- ===== src/Limiter/Manager/Snapshots.antt =====
-- `Snapshot` and `Restore` of internal/limiter/manager.go, as a client sees them.
use mathlib.Core.Option
use token_bucket_rate_limite.Prelude.{
  ℕ, ◌≡◌, refl, ◌∙◌, Option, none, some, List, [], ◌∷◌, String, eq_iff, arith, length, get_elem?,
  length-append, Option-cases, inl, inr,
}
use token_bucket_rate_limite.Prelude.Map.{
  GoMap, lookup, collect, lookup-collect, lookup-collect-some, IsMap, collect-IsMap,
}
use token_bucket_rate_limite.Limiter.Algorithm.{Limiter}
use token_bucket_rate_limite.Limiter.Persistence.{
  LimiterState, PersistedState, StandsFor, save_limiter, load_limiter, load_limiter-save_limiter,
}
use token_bucket_rate_limite.Limiter.Manager.{Manager, snapshot, restore_limiters, restore}
use token_bucket_rate_limite.Limiter.Manager.Pointers.{
  ArePointers, ArePointers-insert, limiter_at, limiter_at-append,
}
use token_bucket_rate_limite.Limiter.Manager.View.{view, IsValid}

module _ {F : Type 0} where
  restore_limiters_lem :
      (states : GoMap (LimiterState F)) (heap : List (Limiter F))
      → IsMap states
      → let (pointers, grown) = restore_limiters states heap in
        ArePointers pointers (length grown)
        × ((j : String) → limiter_at pointers grown j ≡ Option.bind (lookup j states) load_limiter)
  unfolding restore_limiters IsMap lookup limiter_at Option.bind
  restore_limiters_lem [] heap h =
      (record { is_map = tt; bounded = λ i p e. cc; separate = λ i j p e f. cc }, λ j. refl)
  restore_limiters_lem ((id, ls) ∷ states) heap h =
      let (pointers, grown) = restore_limiters states heap in
      let (valid, same) = restore_limiters_lem states heap h.1 in
      elim (Option-cases (load_limiter ls)) [
        | inl bad ↦
            rw (bad, restore_limiters) (valid, λ j. ground (arith, same j, bad, eq_iff id j, h.0))
        | inr (l, good) ↦
            rw (good, restore_limiters)
              (
                rw (length-append grown (l ∷ []))
                    (ArePointers-insert pointers (length grown) valid id),
                λ j. ground (
                  arith,
                  same j,
                  good,
                  eq_iff id j,
                  limiter_at-append pointers grown valid id l j,
                ),
              )
      ]

  -- `Restore` into a valid manager of any state whose maps have no key twice gives a valid manager,
  -- in which a client has its config of the state and the limiter that its saved state stands for,
  -- and the counts that it had before.
  pub restore-view :
      (m : Manager F) (s : PersistedState F)
      → IsValid m
      → IsMap s.configs
      → IsMap s.limiters
      → IsValid (restore m s)
        × ((j : String)
            → view (restore m s) j ≡ record {
              config = lookup j s.configs;
              limiter = Option.bind (lookup j s.limiters) load_limiter;
              counts = lookup j m.counts;
            })
  unfolding restore Option.bind
  restore-view m s v hc hl =
      let (pointers, same) = restore_limiters_lem s.limiters m.heap hl in
      (
        record {
          configs_map = collect-IsMap some s.configs;
          counts_map = v.counts_map;
          pointers = pointers;
        },
        λ j. ground (arith, same j, lookup-collect some j s.configs hc),
      )

  limiter_saved :
      (o : Option ℕ) (heap : List (Limiter F))
      → Option.bind
          (Option.bind (Option.bind o some) (λ p. Option.map save_limiter (get_elem? heap p)))
          load_limiter
        ≡ Option.bind o (get_elem? heap)
  unfolding Option.bind
  limiter_saved none heap = refl
  limiter_saved (some p) heap = elim (Option-cases (get_elem? heap p)) [
    | inl e ↦ rw e
    | inr (l, e) ↦ rw e (load_limiter-save_limiter l)
  ]

  -- The maps of a snapshot: a client's config, and what its limiter is saved as.
  pub snapshot_lem :
      (m : Manager F)
      → IsValid m
      → IsMap (snapshot m).configs
        × IsMap (snapshot m).limiters
        × ((j : String)
            → (lookup j (snapshot m).configs ≡ lookup j m.configs)
              × (Option.bind (lookup j (snapshot m).limiters) load_limiter
                  ≡ limiter_at m.limiters m.heap j))
  unfolding snapshot limiter_at
  snapshot_lem m v =
      let saved : ℕ → Option (LimiterState F) = λ p. Option.map save_limiter (get_elem? m.heap p) in
      let pointers = collect some m.limiters in
      let pointers_map = collect-IsMap some m.limiters in
      (
        collect-IsMap some m.configs,
        collect-IsMap saved pointers,
        λ j. (
          lookup-collect-some j m.configs v.configs_map,
          rw
              (
                lookup-collect saved j pointers pointers_map,
                lookup-collect some j m.limiters v.pointers.is_map,
              )
              (limiter_saved (lookup j m.limiters) m.heap),
        ),
      )

  -- What `Snapshot` saves of a valid manager, `Restore` brings back into any valid manager, which
  -- stays valid: each client has the config and
  -- the limiter that it had, with the tokens or counts in it. The counts of decisions are those of
  -- the manager restored into.
  pub restore-snapshot :
      (m other : Manager F)
      → IsValid m
      → IsValid other
      → let restored = restore other (snapshot m) in
        IsValid restored
        × ((j : String) → view restored j ≡ record (view m j) { counts = lookup j other.counts })
  restore-snapshot m other v w =
      let (configs_map, limiters_map, saved) = snapshot_lem m v in
      let (valid, same) = restore-view other (snapshot m) w configs_map limiters_map in
      (valid, λ j. ground (arith, same j, saved j))

  -- The same of any state that stands for the snapshot.
  pub restore-StandsFor :
      (m other : Manager F) (read : PersistedState F)
      → IsValid m
      → IsValid other
      → StandsFor read (snapshot m)
      → let restored = restore other read in
        IsValid restored
        × ((j : String) → view restored j ≡ record (view m j) { counts = lookup j other.counts })
  unfolding Option.bind
  restore-StandsFor m other read v w stands =
      let (configs_map, limiters_map, saved) = snapshot_lem m v in
      let (valid, same) = restore-view other read w stands.configs_map stands.limiters_map in
      (
        valid,
        λ j.
            let (config, limiter) = saved j in
            same j ∙ rw (stands.same_configs j, stands.same_limiters j, config, limiter) refl,
      )
