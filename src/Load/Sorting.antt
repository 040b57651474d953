-- ===== src/Load/Sorting.antt =====
-- A sort that has what `sort.Slice` documents, for the examples.
use token_bucket_rate_limite.Prelude.{
  ℕ, zero, suc, ◌≡◌, refl, some, List, [], ◌∷◌, ◌≤ℤ◌, leb_ℤ, arith, get_elem?, length, All,
  if◌then◌else◌, Bool-cases, inl, inr,
}
use token_bucket_rate_limite.Clock.{Duration}
use token_bucket_rate_limite.Load.Ranks.{IsSorted, IsSort}

abbrev insert_sorted : Duration → List Duration → List Duration
insert_sorted d [] = d ∷ []
insert_sorted d (e ∷ es) =
    let rest = insert_sorted d es in if leb_ℤ d e then d ∷ e ∷ es else e ∷ rest

abbrev pub insertion_sort : List Duration → List Duration
insertion_sort [] = []
insertion_sort (d ∷ ds) = insert_sorted d (insertion_sort ds)

All-insert_sorted :
    (b d : Duration) (es : List Duration)
    → b ≤ℤ d
    → All (λ e. b ≤ℤ e) es
    → All (λ e. b ≤ℤ e) (insert_sorted d es)
All-insert_sorted b d [] h k = (h, tt)
All-insert_sorted b d (e ∷ es) h (p, k) = ground (arith, All-insert_sorted b d es h k)

All-weaken :
    (a b : Duration) (es : List Duration) → a ≤ℤ b → All (λ e. b ≤ℤ e) es → All (λ e. a ≤ℤ e) es
All-weaken a b [] h k = tt
All-weaken a b (e ∷ es) h (p, k) = (omega arith, All-weaken a b es h k)

insert_sorted-IsSorted :
    (d : Duration) (es : List Duration) → IsSorted es → IsSorted (insert_sorted d es)
insert_sorted-IsSorted d [] h = (tt, tt)
insert_sorted-IsSorted d (e ∷ es) (p, h) = elim (Bool-cases (leb_ℤ d e)) [
  | inl le ↦ rw le ((ground arith, All-weaken d e es (ground arith) p), (p, h))
  | inr gt ↦ rw gt (All-insert_sorted e d es (ground arith) p, insert_sorted-IsSorted d es h)
]

length-insert_sorted :
    (d : Duration) (es : List Duration) → length (insert_sorted d es) ≡ suc (length es)
length-insert_sorted d [] = refl
length-insert_sorted d (e ∷ es) = ground (arith, length-insert_sorted d es)

after_head :
    (e : Duration) (rest : List Duration) (d : Duration) (es : List Duration) (i : ℕ) (x : Duration)
    → ((i : ℕ) (x : Duration)
        → get_elem? (d ∷ es) i ≡ some x
        → (j : ℕ) × (get_elem? rest j ≡ some x))
    → get_elem? (d ∷ e ∷ es) i ≡ some x
    → (j : ℕ) × (get_elem? (e ∷ rest) j ≡ some x)
after_head e rest d es zero x found at = let (j, there) = found 0 x at in (suc j, there)
after_head e rest d es (suc zero) x found at = (0, at)
after_head e rest d es (suc (suc i)) x found at =
    let (j, there) = found (suc i) x at in (suc j, there)

insert_sorted-kept :
    (d : Duration) (es : List Duration) (i : ℕ) (x : Duration)
    → get_elem? (d ∷ es) i ≡ some x
    → (j : ℕ) × (get_elem? (insert_sorted d es) j ≡ some x)
insert_sorted-kept d [] i x at = (i, at)
insert_sorted-kept d (e ∷ es) i x at = elim (Bool-cases (leb_ℤ d e)) [
  | inl le ↦ rw le (i, at)
  | inr gt ↦ rw gt (after_head e (insert_sorted d es) d es i x (insert_sorted-kept d es) at)
]

insertion_sort-kept :
    (ds : List Duration) (i : ℕ) (x : Duration)
    → get_elem? ds i ≡ some x
    → (j : ℕ) × (get_elem? (insertion_sort ds) j ≡ some x)
insertion_sort-kept [] i x at = (i, at)
insertion_sort-kept (d ∷ ds) zero x at = insert_sorted-kept d (insertion_sort ds) 0 x at
insertion_sort-kept (d ∷ ds) (suc i) x at =
    let (j, there) = insertion_sort-kept ds i x at in
    insert_sorted-kept d (insertion_sort ds) (suc j) x there

insertion_sort-IsSorted : (ds : List Duration) → IsSorted (insertion_sort ds)
insertion_sort-IsSorted [] = tt
insertion_sort-IsSorted (d ∷ ds) =
    insert_sorted-IsSorted d (insertion_sort ds) (insertion_sort-IsSorted ds)

length-insertion_sort : (ds : List Duration) → length (insertion_sort ds) ≡ length ds
length-insertion_sort [] = refl
length-insertion_sort (d ∷ ds) =
    omega (arith, length-insert_sorted d (insertion_sort ds), length-insertion_sort ds)

pub insertion_sort-IsSort : IsSort insertion_sort
insertion_sort-IsSort = record {
  sorted = insertion_sort-IsSorted;
  length-sort = length-insertion_sort;
  kept = insertion_sort-kept;
}
