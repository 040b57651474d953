-- ===== src/Prelude/Map.antt =====
-- Go maps with string keys, as association lists: `map[k]`, `map[k] = v`, `delete(map, k)`, and the
-- laws by which the other modules use them.
use mathlib.Core.Path.{◌≡◌, refl, ap, ◌∙◌}
use mathlib.Core.Bool.{Bool, true, false}
use mathlib.Core.Option
use mathlib.Core.Option.{Option, none, some}
use mathlib.Core.List.{List, [], ◌∷◌}
use Prim.Native.String.{String}
use native.Mathlib.Omega.{arith}
use text.Mathlib.Text.{◌==◌}
use text.Mathlib.TextEquality.{eq_iff}
use token_bucket_rate_limite.Prelude.Tests.{if◌then◌else◌}

abbrev pub GoMap {ℓ} : Type ℓ → Type ℓ
GoMap V = List (String × V)

module _ {ℓ} {V : Type ℓ} where
  unfoldable pub lookup : String → GoMap V → Option V
  lookup key [] = none
  lookup key (entry ∷ rest) = if entry.0 == key then some entry.1 else lookup key rest

  -- Every entry of the key goes, so a lookup misses whatever the list is.
  unfoldable pub delete : String → GoMap V → GoMap V
  delete key [] = []
  delete key (entry ∷ rest) =
      let others = delete key rest in if entry.0 == key then others else entry ∷ others

  unfoldable pub insert : String → V → GoMap V → GoMap V
  unfolding delete
  insert key value m = (key, value) ∷ delete key m

  pub lookup-delete :
      (k j : String) (m : GoMap V) → lookup j (delete k m) ≡ (if k == j then none else lookup j m)
  unfolding lookup delete
  lookup-delete k j [] = ground arith
  lookup-delete k j ((i, w) ∷ m) =
      ground (arith, lookup-delete k j m, eq_iff k j, eq_iff i j, eq_iff i k)

  pub lookup-insert :
      (k j : String) (v : V) (m : GoMap V)
      → lookup j (insert k v m) ≡ (if k == j then some v else lookup j m)
  unfolding lookup insert
  lookup-insert k j v m = ground (arith, lookup-delete k j m)

  -- No key twice, as in every Go map.
  unfoldable pub IsMap : GoMap V → Type ℓ
  unfolding lookup
  IsMap [] = Unit
  IsMap ((k, _) ∷ m) = (lookup k m ≡ none) × IsMap m

module _ {ℓ} {W : Type ℓ} where
  abbrev pub insert_some : String → Option W → GoMap W → GoMap W
  insert_some k none m = m
  insert_some k (some w) m = insert k w m

  lookup-insert_some :
      (k j : String) (o : Option W) (m : GoMap W)
      → lookup k m ≡ none
      → lookup j (insert_some k o m) ≡ (if k == j then o else lookup j m)
  lookup-insert_some k j none m h = ground (arith, eq_iff k j)
  lookup-insert_some k j (some w) m h = lookup-insert k j w m

module _ {ℓ κ} {V : Type ℓ} {W : Type κ} where
  -- `for k, v := range m { out[k] = w }` into an empty map, where `f v` gives the `w` of the
  -- entries that are not passed over. Go leaves the order open: here the last entry comes first.
  unfoldable pub collect : (V → Option W) → GoMap V → GoMap W
  collect f [] = []
  collect f ((k, v) ∷ m) = insert_some k (f v) (collect f m)

  bind-if :
      (b : Bool) (v : V) (o : Option V) (f : V → Option W)
      → (if b then f v else Option.bind o f) ≡ Option.bind (if b then some v else o) f
  unfolding Option.bind
  bind-if true v o f = refl
  bind-if false v o f = refl

  pub lookup-collect :
      (f : V → Option W) (j : String) (m : GoMap V)
      → IsMap m
      → lookup j (collect f m) ≡ Option.bind (lookup j m) f
  unfolding lookup collect IsMap Option.bind
  lookup-collect f j [] h = refl
  lookup-collect f j ((k, v) ∷ m) h =
      let absent : lookup k (collect f m) ≡ none =
        lookup-collect f k m h.1 ∙ ap (λ o. Option.bind o f) h.0 in
      lookup-insert_some k j (f v) (collect f m) absent
      ∙ ap (λ o. if k == j then f v else o) (lookup-collect f j m h.1)
      ∙ bind-if (k == j) v (lookup j m) f

module _ {ℓ} {V : Type ℓ} where
  pub delete-IsMap : (k : String) (m : GoMap V) → IsMap m → IsMap (delete k m)
  unfolding IsMap delete lookup
  delete-IsMap k [] h = tt
  delete-IsMap k ((j, w) ∷ m) h =
      ground (arith, eq_iff j k, eq_iff k j, delete-IsMap k m h.1, lookup-delete k j m)

  pub insert-IsMap : (k : String) (v : V) (m : GoMap V) → IsMap m → IsMap (insert k v m)
  unfolding IsMap insert
  insert-IsMap k v m h = (ground (arith, lookup-delete k k m, eq_iff k k), delete-IsMap k m h)

module _ {ℓ} {W : Type ℓ} where
  insert_some-IsMap :
      (k : String) (o : Option W) (m : GoMap W) → IsMap m → IsMap (insert_some k o m)
  insert_some-IsMap k none m h = h
  insert_some-IsMap k (some w) m h = insert-IsMap k w m h

module _ {ℓ κ} {V : Type ℓ} {W : Type κ} where
  pub collect-IsMap : (f : V → Option W) (m : GoMap V) → IsMap (collect f m)
  unfolding collect IsMap
  collect-IsMap f [] = tt
  collect-IsMap f ((k, v) ∷ m) = insert_some-IsMap k (f v) (collect f m) (collect-IsMap f m)

module _ {ℓ} {V : Type ℓ} where
  bind_some : (o : Option V) → Option.bind o some ≡ o
  unfolding Option.bind
  bind_some none = refl
  bind_some (some v) = refl

  -- A copy of a map.
  pub lookup-collect-some :
      (j : String) (m : GoMap V) → IsMap m → lookup j (collect some m) ≡ lookup j m
  lookup-collect-some j m h = lookup-collect some j m h ∙ bind_some (lookup j m)
