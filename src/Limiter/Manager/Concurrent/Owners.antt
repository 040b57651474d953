-- ===== src/Limiter/Manager/Concurrent/Owners.antt =====
-- The clients that limiters belong to while requests run.
use token_bucket_rate_limite.Prelude.{
  ℕ, ◌<◌, ◌≡◌, ◌≢◌, inl, inr, sym, ap, ◌∙◌, some, [], ◌∷◌, String, eq_iff, arith, ◌==◌, length,
  get_elem?, set, Option-cases, length-append, length-set, get_elem?-set_cases,
  get_elem?-append_cases, if◌then◌else◌,
}
use token_bucket_rate_limite.Prelude.Map.{lookup, lookup-insert, lookup-delete, insert-IsMap}
use token_bucket_rate_limite.Float.{Float}
use token_bucket_rate_limite.Clock.{Time}
use token_bucket_rate_limite.Limiter.Config.{Config, validate}
use token_bucket_rate_limite.Limiter.Decision.{Decision}
use token_bucket_rate_limite.Limiter.Algorithm
use token_bucket_rate_limite.Limiter.Algorithm.{Limiter, new_limiter}
use token_bucket_rate_limite.Limiter.Manager.{
  Manager, set_config, remove_client, record_decision, call,
}
use token_bucket_rate_limite.Limiter.Manager.Pointers.{ArePointers-insert, ArePointers-delete}
use token_bucket_rate_limite.Limiter.Manager.View.{IsValid}
use token_bucket_rate_limite.Limiter.Manager.Updates.{remove_client-view}
use token_bucket_rate_limite.Limiter.Manager.Concurrent.{
  Stage, holding, decided, counted, InFlight, Busy, begin_request, advance,
}
use token_bucket_rate_limite.Limiter.Manager.Concurrent.Sections.{call_cases, acquire_cases}

module _ {F : Type 0} ⦃fl : Float F⦄ where
  -- Each limiter that was ever made has an owner, the client that it was made for: the map and
  -- the requests lead a client to its own limiters alone.
  pub record IsOwned (s : Busy F) (owner : ℕ → String) : Type 0 where
    pub valid : IsValid s.manager
    pub mapped : (j : String) (p : ℕ) → lookup j s.manager.limiters ≡ some p → owner p ≡ j
    pub held :
        (i : ℕ) (r : InFlight F) (p : ℕ)
        → get_elem? s.requests i ≡ some r
        → r.stage ≡ holding p
        → (p < length s.manager.heap) × (owner p ≡ r.client)

  -- A request that moves on to a stage in which it holds nothing leaves no new holder.
  held_kept :
      (s : Busy F) (owner : ℕ → String) (v : IsOwned s owner) (i : ℕ) (r : InFlight F)
      (stage : Stage F)
      → ((p : ℕ) → stage ≢ holding p)
      → (k : ℕ) (q : InFlight F) (p : ℕ)
      → get_elem? (set s.requests i (record r { stage = stage })) k ≡ some q
      → q.stage ≡ holding p
      → (p < length s.manager.heap) × (owner p ≡ q.client)
  held_kept s owner v i r stage free k q p at hold =
      elim (get_elem?-set_cases s.requests i (record r { stage = stage }) k q at) [
        | inl before ↦ v.held k q p before hold
        | inr new ↦ absurd (free p (ap (λ (x : InFlight F). x.stage) new ∙ hold))
      ]

  abbrev pointer_of : Stage F → ℕ
  pointer_of (holding p) = p
  pointer_of _ = 0

  pub new_held :
      (id : String) (p p' : ℕ) (q : InFlight F)
      → record { client = id; stage = holding p } ≡ q
      → q.stage ≡ holding p'
      → (q.client ≡ id) × (p' ≡ p)
  new_held id p p' q new hold = (
    sym (ap (λ (x : InFlight F). x.client) new),
    sym (ap pointer_of (ap (λ (x : InFlight F). x.stage) new ∙ hold)),
  )

  module _ (s : Busy F) (owner : ℕ → String) (v : IsOwned s owner) where
    -- A new limiter belongs to the client that it was made for.
    abbrev with_new : String → ℕ → String
    with_new id p = if p == length s.manager.heap then id else owner p

    pub begin_request-IsOwned :
        (id : String) (now : Time) → (next : ℕ → String) × IsOwned (begin_request s id now) next
    begin_request-IsOwned id now = elim (acquire_cases s.manager id now) [
      | inl (p, known, same) ↦ (
        owner,
        rw same (record {
          valid = v.valid;
          mapped = v.mapped;
          held = λ k q p' at hold.
              elim (get_elem?-append_cases s.requests (record { client = id; stage = holding p }) k
                q at) [
                  | inl before ↦ v.held k q p' before hold
                  | inr new ↦
                      let (c, e) = new_held id p p' q new hold in
                      rw (c, e) (v.valid.pointers.bounded id p known, v.mapped id p known)
                ];
        }),
      )
      | inr (l, same) ↦ (
        with_new id,
        rw same (record {
          valid = record {
            configs_map = v.valid.configs_map;
            counts_map = v.valid.counts_map;
            pointers =
                rw (length-append s.manager.heap (l ∷ [])) (
                  ArePointers-insert s.manager.limiters (length s.manager.heap) v.valid.pointers
                    id);
          };
          mapped = λ j p e. ground (
            arith,
            lookup-insert id j (length s.manager.heap) s.manager.limiters,
            eq_iff id j,
            v.mapped j p,
            v.valid.pointers.bounded j p,
          );
          held = λ k q p' at hold.
              let longer = length-append s.manager.heap (l ∷ []) in
              elim (get_elem?-append_cases s.requests
                (record { client = id; stage = holding (length s.manager.heap) }) k q at) [
                  | inl before ↦ ground (arith, longer, v.held k q p' before hold)
                  | inr new ↦
                      let (c, e) = new_held id (length s.manager.heap) p' q new hold in
                      ground (arith, longer)
                ];
        }),
      )
    ]

    pub calls-IsOwned :
        (i : ℕ) (r : InFlight F) (p : ℕ) (now : Time) (after : Manager F) (d : Decision F)
        → call s.manager p now ≡ some (after, d)
        → IsOwned (advance s i r after (decided d)) owner
    calls-IsOwned i r p now after d e =
        let (l, found, same) = call_cases s.manager after p now d e in
        let written = (Algorithm.allow l now).0 in
        rw same (record {
          valid = record {
            configs_map = v.valid.configs_map;
            counts_map = v.valid.counts_map;
            pointers = rw (length-set s.manager.heap p written) v.valid.pointers;
          };
          mapped = v.mapped;
          held =
              rw (length-set s.manager.heap p written)
                (held_kept s owner v i r (decided d) (λ p. λ (e : decided d ≡ holding p). cc));
        })

    pub counts-IsOwned :
        (i : ℕ) (r : InFlight F) (d : Decision F)
        → IsOwned (advance s i r (record_decision s.manager r.client d.allowed) (counted d)) owner
    unfolding record_decision
    counts-IsOwned i r d = record {
      valid = record {
        configs_map = v.valid.configs_map;
        counts_map = insert-IsMap r.client _ s.manager.counts v.valid.counts_map;
        pointers = v.valid.pointers;
      };
      mapped = v.mapped;
      held = held_kept s owner v i r (counted d) (λ p. λ (e : counted d ≡ holding p). cc);
    }

    pub configures-IsOwned :
        (id : String) (cfg : Config F)
        → IsOwned (record s { manager = (set_config s.manager id cfg).0 }) owner
    unfolding set_config
    configures-IsOwned id cfg = elim (Option-cases (validate cfg)) [
      | inl good ↦
          rw (good, set_config)
            (record {
              valid = record {
                configs_map = insert-IsMap id cfg s.manager.configs v.valid.configs_map;
                counts_map = v.valid.counts_map;
                pointers =
                    ArePointers-delete s.manager.limiters (length s.manager.heap) v.valid.pointers
                      id;
              };
              mapped =
                  λ j p e. v.mapped j p (ground (arith, lookup-delete id j s.manager.limiters));
              held = v.held;
            })
      | inr (error, bad) ↦ rw (bad, set_config) v
    ]

    pub removes-IsOwned :
        (id : String) → IsOwned (record s { manager = remove_client s.manager id }) owner
    unfolding remove_client
    removes-IsOwned id = record {
      valid = (remove_client-view s.manager v.valid id).0;
      mapped = λ j p e. v.mapped j p (ground (arith, lookup-delete id j s.manager.limiters));
      held = v.held;
    }
