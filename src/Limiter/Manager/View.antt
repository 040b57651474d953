-- ===== src/Limiter/Manager/View.antt =====
-- What the manager of internal/limiter/manager.go holds of one client, its invariant, and `Allow` as
-- a client sees it.
use mathlib.Core.Option
use token_bucket_rate_limite.Prelude.{
  ℕ, ◌≡◌, refl, Bool, Option, some, [], ◌∷◌, String, str_eq, eq_iff, arith, length, get_elem?, set,
  length-append, length-set, get_elem?-append_last, if◌then◌else◌, Option-cases, inl, inr,
}
use token_bucket_rate_limite.Prelude.Map.{lookup, lookup-insert, IsMap, insert-IsMap}
use token_bucket_rate_limite.Limiter.Manager.Pointers.{
  ArePointers, ArePointers-insert, limiter_at, limiter_at-append, limiter_at-set, limiter_at_found,
  limiter_at-none,
}
use token_bucket_rate_limite.Float.{Float}
use token_bucket_rate_limite.Clock.{Time}
use token_bucket_rate_limite.Limiter.Config.{Config}
use token_bucket_rate_limite.Limiter.Decision.{Decision}
use token_bucket_rate_limite.Limiter.Stats.{ClientStats, no_stats, bump}
use token_bucket_rate_limite.Limiter.Algorithm
use token_bucket_rate_limite.Limiter.Algorithm.{Limiter, new_limiter}
use token_bucket_rate_limite.Limiter.Manager.{
  Manager, default_config, record_decision, acquire, call, allow,
}

-- What the manager holds of one client.
pub record Client (F : Type 0) : Type 0 where
  pub config : Option (Config F)
  pub limiter : Option (Limiter F)
  pub counts : Option ClientStats

module _ {F : Type 0} where
  abbrev pub view : Manager F → String → Client F
  view m j = record {
    config = lookup j m.configs;
    limiter = limiter_at m.limiters m.heap j;
    counts = lookup j m.counts;
  }

  -- The maps have no key twice; a pointer leads to a limiter, and never to that of another client.
  pub record IsValid (m : Manager F) : Type 0 where
    pub configs_map : IsMap m.configs
    pub counts_map : IsMap m.counts
    pub pointers : ArePointers m.limiters (length m.heap)

-- The operations on one client.
module _ {F : Type 0} ⦃fl : Float F⦄ where
  abbrev pub config_of : Client F → Config F
  config_of c = Option.get_or c.config default_config

  -- The limiter that serves the next request.
  abbrev pub current : Client F → Time → Limiter F
  current c now = Option.get_or c.limiter (new_limiter (config_of c) now)

  abbrev pub client_allow : Client F → Time → Client F × Decision F
  client_allow c now =
      let (after, d) = Algorithm.allow (current c now) now in
      (
        record c {
          limiter = some after;
          counts = some (bump (Option.get_or c.counts no_stats) d.allowed);
        },
        d,
      )

  module _ (m : Manager F) (v : IsValid m) (id : String) where
    -- `acquire` gives a pointer to the current limiter of the client, and shows no other change.
    acquire_lem :
        (now : Time)
        → let (after, p) = acquire m id now in
          IsValid after
          × (lookup id after.limiters ≡ some p)
          × (get_elem? after.heap p ≡ some (current (view m id) now))
          × ((j : String)
              → view after j ≡ (
                  if str_eq id j
                  then record (view m id) { limiter = some (current (view m id) now) }
                  else view m j))
    unfolding acquire
    acquire_lem now = elim (Option-cases (lookup id m.limiters)) [
      | inl e ↦
          let new = new_limiter (config_of (view m id)) now in
          let absent = limiter_at-none m.limiters m.heap v.pointers id e in
          rw (e, acquire)
            (
              record {
                configs_map = v.configs_map;
                counts_map = v.counts_map;
                pointers =
                    rw (length-append m.heap (new ∷ []))
                      (ArePointers-insert m.limiters (length m.heap) v.pointers id);
              },
              ground (arith, lookup-insert id id (length m.heap) m.limiters, eq_iff id id),
              rw absent (get_elem?-append_last m.heap new),
              λ j. ground (
                arith,
                absent,
                limiter_at-append m.limiters m.heap v.pointers id new j,
                eq_iff id j,
              ),
            )
      | inr (p, e) ↦
          let (l, found, at) = limiter_at_found m.limiters m.heap v.pointers id p e in
          rw (e, acquire) (v, e, rw at found, λ j. ground (arith, at, eq_iff id j))
    ]

    -- A call of the limiter that the client's pointer leads to, and the count of its decision.
    served_lem :
        (p : ℕ) (l : Limiter F) (allowed : Bool)
        → lookup id m.limiters ≡ some p
        → let after = record_decision (record m { heap = set m.heap p l }) id allowed in
          IsValid after
          × ((j : String)
              → view after j ≡ (
                  if str_eq id j
                  then record (view m id) {
                    limiter = some l;
                    counts = some (bump (Option.get_or (lookup id m.counts) no_stats) allowed);
                  }
                  else view m j))
    unfolding record_decision
    served_lem p l allowed e =
        let count = bump (Option.get_or (lookup id m.counts) no_stats) allowed in
        (
          record {
            configs_map = v.configs_map;
            counts_map = insert-IsMap id count m.counts v.counts_map;
            pointers = rw (length-set m.heap p l) v.pointers;
          },
          λ j. ground (
            arith,
            limiter_at-set m.limiters m.heap v.pointers id l p j e,
            lookup-insert id j count m.counts,
            eq_iff id j,
          ),
        )

  call_lem :
      (m : Manager F) (p : ℕ) (now : Time) (l : Limiter F)
      → get_elem? m.heap p ≡ some l
      → call m p now
        ≡ some
            (record m { heap = set m.heap p (Algorithm.allow l now).0 }, (Algorithm.allow l now).1)
  unfolding call
  call_lem m p now l found = rw (found, call)

  module _ (m : Manager F) (v : IsValid m) (id : String) where
    -- `Allow` of a valid manager always answers, and leaves it valid. It serves the client as if it
    -- were alone, with the limiter that it has, or else a new one for its config or the default
    -- one; it counts the decision; and it changes no other client.
    pub allow-view :
        (now : Time)
        → (after : Manager F) × (allow m id now ≡ some (after, (client_allow (view m id) now).1))
          × IsValid after
          × ((j : String)
              → view after j ≡ (if str_eq id j then (client_allow (view m id) now).0 else view m j))
    unfolding allow
    allow-view now =
        let (valid, pointer, found, same) = acquire_lem m v id now in
        let (acquired, p) = acquire m id now in
        let (l, d) = Algorithm.allow (current (view m id) now) now in
        let (served, seen) = served_lem acquired valid id p l d.allowed pointer in
        (
          record_decision (record acquired { heap = set acquired.heap p l }) id d.allowed,
          rw (call_lem acquired p now (current (view m id) now) found) refl,
          served,
          λ j. ground (arith, seen j, same j, same id, eq_iff id j, eq_iff id id),
        )
