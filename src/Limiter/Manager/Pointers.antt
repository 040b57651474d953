-- ===== src/Limiter/Manager/Pointers.antt =====
-- The map of pointers and the heap that they lead into.
use mathlib.Core.Option
use token_bucket_rate_limite.Prelude.{
  ℕ, ◌<◌, ◌+◌, ◌≡◌, Option, none, some, List, [], ◌∷◌, ◌++◌, String, str_eq, eq_iff, arith, length,
  get_elem?, set, get_elem?-set_self, get_elem?-set_ne, get_elem?-append_left,
  get_elem?-append_last, get_elem?_of_lt, if◌then◌else◌, Option-cases, inl, inr,
}
use token_bucket_rate_limite.Prelude.Map.{
  GoMap, lookup, insert, delete, lookup-insert, lookup-delete, IsMap, insert-IsMap, delete-IsMap,
}

-- Pointers below `n`, no two of them equal.
pub record ArePointers (limiters : GoMap ℕ) (n : ℕ) : Type 0 where
  pub is_map : IsMap limiters
  pub bounded : (i : String) (p : ℕ) → lookup i limiters ≡ some p → p < n
  pub separate :
      (i j : String) (p : ℕ) → lookup i limiters ≡ some p → lookup j limiters ≡ some p → i ≡ j

module _ (limiters : GoMap ℕ) (n : ℕ) (v : ArePointers limiters n) (id : String) where
  pub ArePointers-insert : ArePointers (insert id n limiters) (n + 1)
  ArePointers-insert = record {
    is_map = insert-IsMap id n limiters v.is_map;
    bounded = λ i p h. ground (arith, rw (lookup-insert id i n limiters) at h, v.bounded i p);
    separate = λ i j p h k. ground (
      arith,
      rw (lookup-insert id i n limiters) at h,
      rw (lookup-insert id j n limiters) at k,
      v.bounded i p,
      v.bounded j p,
      v.separate i j p,
      eq_iff id i,
      eq_iff id j,
    );
  }

  pub ArePointers-delete : ArePointers (delete id limiters) n
  ArePointers-delete = record {
    is_map = delete-IsMap id limiters v.is_map;
    bounded = λ i p h. ground (arith, rw (lookup-delete id i limiters) at h, v.bounded i p);
    separate = λ i j p h k. ground (
      arith,
      rw (lookup-delete id i limiters) at h,
      rw (lookup-delete id j limiters) at k,
      v.separate i j p,
    );
  }

module _ {L : Type 0} where
  -- The limiter of a client.
  unfoldable pub limiter_at : GoMap ℕ → List L → String → Option L
  unfolding Option.bind
  limiter_at limiters heap j = Option.bind (lookup j limiters) (get_elem? heap)

  module _ (limiters : GoMap ℕ) (heap : List L) (v : ArePointers limiters (length heap))
      (id : String) where
    -- A new limiter at the end of the heap.
    pub limiter_at-append :
        (l : L) (j : String)
        → limiter_at (insert id (length heap) limiters) (heap ++ (l ∷ [])) j
          ≡ (if str_eq id j then some l else limiter_at limiters heap j)
    unfolding limiter_at
    limiter_at-append l j = elim (Option-cases (lookup j limiters)) [
      | inl e ↦
          ground (arith, e, lookup-insert id j (length heap) limiters, get_elem?-append_last heap l)
      | inr (p, e) ↦ ground (
        arith,
        e,
        lookup-insert id j (length heap) limiters,
        get_elem?-append_last heap l,
        get_elem?-append_left heap (l ∷ []) p,
        v.bounded j p e,
      )
    ]

    -- A limiter replaced where it lies.
    pub limiter_at-set :
        (l : L) (p : ℕ) (j : String)
        → lookup id limiters ≡ some p
        → limiter_at limiters (set heap p l) j
          ≡ (if str_eq id j then some l else limiter_at limiters heap j)
    unfolding limiter_at
    limiter_at-set l p j e = elim (Option-cases (lookup j limiters)) [
      | inl absent ↦ ground (arith, absent, eq_iff id j)
      | inr (q, found) ↦ ground (
        arith,
        found,
        eq_iff id j,
        v.separate id j p e,
        v.bounded id p e,
        get_elem?-set_self heap p l,
        get_elem?-set_ne heap p q l,
      )
    ]

    pub limiter_at-delete :
        (j : String)
        → limiter_at (delete id limiters) heap j
          ≡ (if str_eq id j then none else limiter_at limiters heap j)
    unfolding limiter_at
    limiter_at-delete j = ground (arith, lookup-delete id j limiters)

    -- A pointer in the map leads to a limiter.
    pub limiter_at_found :
        (p : ℕ)
        → lookup id limiters ≡ some p
        → (l : L) × (get_elem? heap p ≡ some l) × (limiter_at limiters heap id ≡ some l)
    unfolding limiter_at
    limiter_at_found p e =
        let (l, found) = get_elem?_of_lt heap p (v.bounded id p e) in
        (l, found, rw (e, limiter_at) found)

    pub limiter_at-none : lookup id limiters ≡ none → limiter_at limiters heap id ≡ none
    unfolding limiter_at
    limiter_at-none e = rw (e, limiter_at)
