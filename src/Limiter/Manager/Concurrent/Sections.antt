-- ===== src/Limiter/Manager/Concurrent/Sections.antt =====
-- What the critical sections of `Allow` in internal/limiter/manager.go do to the manager.
use mathlib.Core.Option
use token_bucket_rate_limite.Prelude.{
  ℕ, ◌≡◌, ◌⊎◌, inl, inr, sym, ap, some, Option, [], ◌∷◌, ◌++◌, String, length, get_elem?, set,
  Option-cases,
}
use token_bucket_rate_limite.Prelude.Map.{lookup, insert}
use token_bucket_rate_limite.Float.{Float}
use token_bucket_rate_limite.Clock.{Time}
use token_bucket_rate_limite.Limiter.Decision.{Decision}
use token_bucket_rate_limite.Limiter.Algorithm
use token_bucket_rate_limite.Limiter.Algorithm.{Limiter, new_limiter}
use token_bucket_rate_limite.Limiter.Manager.{Manager, default_config, acquire, call}

module _ {F : Type 0} ⦃fl : Float F⦄ where
  -- What a call of a limiter does to the manager.
  pub call_cases :
      (m after : Manager F) (p : ℕ) (now : Time) (d : Decision F)
      → call m p now ≡ some (after, d)
      → (l : Limiter F) × (get_elem? m.heap p ≡ some l)
        × (after ≡ record m { heap = set m.heap p (Algorithm.allow l now).0 })
  unfolding call
  call_cases m after p now d e = elim (Option-cases (get_elem? m.heap p)) [
    | inl absent ↦ let bad = rw (absent, call) at e in cc
    | inr (l, at) ↦
        let good = rw (at, call) at e in
        (l, at, sym (ap (λ (o : Option (Manager F × Decision F)). (Option.get_or o (m, d)).0) good))
  ]

  pub acquire_cases :
      (m : Manager F) (id : String) (now : Time)
      → ((p : ℕ) × (lookup id m.limiters ≡ some p) × (acquire m id now ≡ (m, p)))
        ⊎ ((l : Limiter F) × (acquire m id now ≡ (
          record m { limiters = insert id (length m.heap) m.limiters; heap = m.heap ++ (l ∷ []) },
          length m.heap,
        )))
  unfolding acquire
  acquire_cases m id now = elim (Option-cases (lookup id m.limiters)) [
    | inl e ↦
        inr (new_limiter (Option.get_or (lookup id m.configs) default_config) now, rw (e, acquire))
    | inr (p, e) ↦ inl (p, e, rw (e, acquire))
  ]
