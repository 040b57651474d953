-- ===== src/Limiter/Manager/Concurrent/Held.antt =====
-- The limiters that requests have in hand while others run.
use token_bucket_rate_limite.Prelude.{
  ℕ, ◌≡◌, ◌≢◌, ◌⊎◌, inl, inr, sym, ap, ◌∙◌, some, [], ◌∷◌, String, eq_iff, arith, ◌==◌, get_elem?,
  set, Bool-cases, get_elem?_of_lt, if◌then◌else◌,
}
use token_bucket_rate_limite.Prelude.Map.{lookup, GoMap, IsMap}
use token_bucket_rate_limite.Float.{Float}
use token_bucket_rate_limite.Clock.{Time}
use token_bucket_rate_limite.Limiter.Decision.{Decision}
use token_bucket_rate_limite.Limiter.Algorithm
use token_bucket_rate_limite.Limiter.Algorithm.{Limiter, new_limiter}
use token_bucket_rate_limite.Limiter.Manager.{Manager, call}
use token_bucket_rate_limite.Limiter.Manager.View.{IsValid}
use token_bucket_rate_limite.Limiter.Manager.Concurrent.{
  holding, InFlight, Busy, begins, calls, counts, configures, removes, Reach, idle, later,
}
use token_bucket_rate_limite.Limiter.Manager.Concurrent.Owners.{
  IsOwned, begin_request-IsOwned, calls-IsOwned, counts-IsOwned, configures-IsOwned,
  removes-IsOwned,
}

module _ {F : Type 0} ⦃fl : Float F⦄ where
  module _ (m : Manager F) (v : IsValid m) where
    -- The owner of a limiter in the map of a manager that serves no request.
    abbrev first_owner : GoMap ℕ → ℕ → String
    first_owner [] p = ""
    first_owner ((j, q) ∷ limiters) p =
        let rest = first_owner limiters p in if q == p then j else rest

    lookup-first_owner :
        (limiters : GoMap ℕ) (j : String) (p : ℕ)
        → IsMap limiters
        → lookup j limiters ≡ some p
        → lookup (first_owner limiters p) limiters ≡ some p
    unfolding lookup IsMap
    lookup-first_owner [] j p h e = cc
    lookup-first_owner ((k, q) ∷ limiters) j p h e = ground (
      arith,
      lookup-first_owner limiters j p h.1,
      h.0,
      eq_iff k j,
      eq_iff k k,
      eq_iff k (first_owner limiters p),
      ap (λ i. lookup i limiters) {x = k} {y = first_owner limiters p},
    )

    pub Reach-IsOwned : {s : Busy F} → Reach m s → (owner : ℕ → String) × IsOwned s owner
    Reach-IsOwned idle = (
      first_owner m.limiters,
      record {
        valid = v;
        mapped = λ j p e.
            v.pointers.separate (first_owner m.limiters p) j p
              (lookup-first_owner m.limiters j p v.pointers.is_map e) e;
        held = λ i r p at hold. cc;
      },
    )
    Reach-IsOwned (later {s = s} r (begins id now)) =
        let (owner, o) = Reach-IsOwned r in begin_request-IsOwned s owner o id now
    Reach-IsOwned (later {s = s} r (calls i q p now after d at hold e)) =
        let (owner, o) = Reach-IsOwned r in (owner, calls-IsOwned s owner o i q p now after d e)
    Reach-IsOwned (later {s = s} r (counts i q d at done)) =
        let (owner, o) = Reach-IsOwned r in (owner, counts-IsOwned s owner o i q d)
    Reach-IsOwned (later {s = s} r (configures id cfg)) =
        let (owner, o) = Reach-IsOwned r in (owner, configures-IsOwned s owner o id cfg)
    Reach-IsOwned (later {s = s} r (removes id)) =
        let (owner, o) = Reach-IsOwned r in (owner, removes-IsOwned s owner o id)

    -- However calls of `Allow`, `SetConfig` and `RemoveClient` interleave, from a valid manager on:
    -- the manager is valid, a call that has its limiter in hand can go on with it, and the limiters
    -- that two calls have in hand differ or the calls are for the same client.
    pub Reach-separate :
        {s : Busy F} (i k : ℕ) (r q : InFlight F) (p p' : ℕ) (now : Time)
        → Reach m s
        → get_elem? s.requests i ≡ some r
        → r.stage ≡ holding p
        → get_elem? s.requests k ≡ some q
        → q.stage ≡ holding p'
        → IsValid s.manager
          × ((after : Manager F) × (d : Decision F) × (call s.manager p now ≡ some (after, d)))
          × ((p ≢ p') ⊎ (r.client ≡ q.client))
    unfolding call
    Reach-separate {s = s} i k r q p p' now reach at hold at' hold' =
        let (owner, o) = Reach-IsOwned reach in
        let (there, mine) = o.held i r p at hold in
        let (there', yours) = o.held k q p' at' hold' in
        let (l, found) = get_elem?_of_lt s.manager.heap p there in
        let (written, d) = Algorithm.allow l now in
        let next = record s.manager { heap = set s.manager.heap p written } in
        (
          o.valid,
          (next, d, rw (found, call)),
          elim (Bool-cases (p == p')) [
            | inl same ↦
                let same_pointer : p ≡ p' = ground arith in
                inr (sym mine ∙ ap owner same_pointer ∙ yours)
            | inr differ ↦ inl (ground arith)
          ],
        )
