-- ===== src/Load/Ranks.antt =====
-- The order statistics of `runThroughput` and `percentile` in loadtest/main.go.
use token_bucket_rate_limite.Prelude.{
  ℕ, zero, suc, ◌-◌, ◌≤◌, ◌<◌, ◌≡◌, refl, ap, subst, ◌∙◌, some, List, [], ◌∷◌, ℤ, pos, sub64, ◌≤ℤ◌,
  arith, get_elem?, length, All, get_elem?_of_lt, get_elem?_lt,
}
use token_bucket_rate_limite.Float.{Float, num, ◌≼◌, ◌≺◌}
use token_bucket_rate_limite.Float.Laws.{IsOrdered}
use token_bucket_rate_limite.Float.Exact.{IsExact, exact_max}
use token_bucket_rate_limite.Float.Rounding.{IsMonotone}
use token_bucket_rate_limite.Clock.{Duration}
use token_bucket_rate_limite.Load.Report.{
  Summary, summary, clamp_index, rank, percentile, hundredths, summarise, run_throughput,
}

abbrev pub IsSorted : List Duration → Type 0
IsSorted [] = Unit
IsSorted (d ∷ ds) = All (λ e. d ≤ℤ e) ds × IsSorted ds

-- What the code relies on of `sort.Slice`: it puts the elements in order and loses none.
pub record IsSort (sort : List Duration → List Duration) : Type 0 where
  pub sorted : (ds : List Duration) → IsSorted (sort ds)
  pub length-sort : (ds : List Duration) → length (sort ds) ≡ length ds
  pub kept :
      (ds : List Duration) (i : ℕ) (d : Duration)
      → get_elem? ds i ≡ some d
      → (j : ℕ) × (get_elem? (sort ds) j ≡ some d)

All-get_elem? :
    (P : Duration → Type 0) (ds : List Duration) (i : ℕ) (d : Duration)
    → All P ds
    → get_elem? ds i ≡ some d
    → P d
All-get_elem? P [] i d h at = cc
All-get_elem? P (e ∷ ds) zero d h at = subst P (ground arith) h.0
All-get_elem? P (e ∷ ds) (suc i) d (p, h) at = All-get_elem? P ds i d h at

sorted_mono :
    (ds : List Duration) (i j : ℕ) (d e : Duration)
    → IsSorted ds
    → i ≤ j
    → get_elem? ds i ≡ some d
    → get_elem? ds j ≡ some e
    → d ≤ℤ e
sorted_mono [] i j d e h le at ae = cc
sorted_mono (x ∷ ds) zero zero d e h le at ae = ground arith
sorted_mono (x ∷ ds) zero (suc j) d e (p, h) le at ae =
    ground (arith, All-get_elem? (λ y. x ≤ℤ y) ds j e p ae)
sorted_mono (x ∷ ds) (suc i) zero d e h le at ae = omega arith
sorted_mono (x ∷ ds) (suc i) (suc j) d e (p, h) le at ae =
    sorted_mono ds i j d e h (omega arith) at ae

All-of_get_elem? :
    (P : Duration → Type 0) (ds : List Duration)
    → ((i : ℕ) (d : Duration) → get_elem? ds i ≡ some d → P d)
    → All P ds
All-of_get_elem? P [] h = tt
All-of_get_elem? P (d ∷ ds) h = (h 0 d refl, All-of_get_elem? P ds (λ i. h (suc i)))

clamp_index-lt : (r : ℤ) (len : ℕ) → 0 < len → clamp_index r len < len
unfolding clamp_index
clamp_index-lt r len h = ground arith

-- Less than half of the int64 range away from 0, no subtraction of 1 wraps around.
clamp_index_mono :
    (x y : ℤ) (len : ℕ)
    → 0 < len
    → len ≤ exact_max
    → pos 0 ≤ℤ x
    → x ≤ℤ y
    → y ≤ℤ pos len
    → clamp_index (sub64 x (pos 1)) len ≤ clamp_index (sub64 y (pos 1)) len
unfolding clamp_index sub64
clamp_index_mono x y len some_of few low h high = ground arith

module _ {F : Type 0} ⦃fl : Float F⦄ (laws : IsOrdered F) (exact : IsExact F)
    (mono : IsMonotone F) where
  -- `math.Ceil(p*float64(len(sorted)))`
  abbrev scaled : ℕ → ℕ → F
  scaled a len = fl.ceil (fl.mul (hundredths a) (num len))

  hundredths-lt-infinity : (a : ℕ) → a ≤ 100 → hundredths a ≺ laws.infinity
  hundredths-lt-infinity a h = laws.div-lt-infinity a 100 (omega arith) (omega arith) (omega arith)

  zero-le-hundredths : (a : ℕ) → a ≤ 100 → ◌≼◌ {F = F} (num 0) (hundredths a)
  zero-le-hundredths a h = laws.zero-le-div a 100 (omega arith) (omega arith) (omega arith)

  zero-le-num : (n : ℕ) → n ≤ exact_max → ◌≼◌ {F = F} (num 0) (num n)
  zero-le-num n h = rw (exact.le-num 0 n (omega arith) h) (ground arith)

  zero-le-scaled : (a len : ℕ) → a ≤ 100 → len ≤ exact_max → ◌≼◌ {F = F} (num 0) (scaled a len)
  zero-le-scaled a len h few =
      subst (λ z. z ≼ scaled a len) (mono.ceil-num 0 (omega arith))
        (mono.ceil_mono (num 0) _ (
          laws.zero-le-mul (hundredths a) (num len) (zero-le-hundredths a h) (zero-le-num len few)
            (hundredths-lt-infinity a h) (laws.num-lt-infinity len (omega arith))))

  scaled_mono : (a b len : ℕ) → a ≤ b → b ≤ 100 → len ≤ exact_max → scaled a len ≼ scaled b len
  scaled_mono a b len h k few = mono.ceil_mono _ _ (
      laws.mul_mono (hundredths a) (hundredths b) (num len) (zero-le-hundredths a (omega arith))
        (mono.div_mono a b 100 h (omega arith) (omega arith) (omega arith)) (zero-le-num len few)
        (hundredths-lt-infinity b k) (laws.num-lt-infinity len (omega arith)))

  scaled_all : (len : ℕ) → len ≤ exact_max → scaled 100 len ≡ num len
  scaled_all len few =
      ap (λ x. fl.ceil (fl.mul x (num len))) (laws.div_self 100 (omega arith) (omega arith))
      ∙ ap fl.ceil (exact.mul-num 1 len (omega arith))
      ∙ ap (λ n. fl.ceil (num n)) (omega arith)
      ∙ mono.ceil-num len few

  scaled-le-num : (a len : ℕ) → a ≤ 100 → len ≤ exact_max → scaled a len ≼ num len
  scaled-le-num a len h few =
      subst (λ y. scaled a len ≼ y) (scaled_all len few) (scaled_mono a 100 len h (omega arith) few)

  rank_mono :
      (a b len : ℕ)
      → a ≤ b
      → b ≤ 100
      → 0 < len
      → len ≤ exact_max
      → clamp_index (rank {F = F} (hundredths a) len) len
        ≤ clamp_index (rank {F = F} (hundredths b) len) len
  unfolding rank
  rank_mono a b len h k some_of few =
      let most : ◌≼◌ {F = F} (num len) (num exact_max) =
        rw (exact.le-num len exact_max few (omega arith)) (ground arith) in
      let up =
        mono.to_ℤ_mono (scaled b len) (num len) (zero-le-scaled b len k few)
          (scaled-le-num b len k few) most in
      let middle =
        mono.to_ℤ_mono (scaled a len) (scaled b len) (zero-le-scaled a len (omega arith) few)
          (scaled_mono a b len h k few) (laws.le_trans _ _ _ (scaled-le-num b len k few) most) in
      let low =
        mono.to_ℤ_mono (num 0) (scaled a len) (zero-le-num 0 (omega arith))
          (zero-le-scaled a len (omega arith) few)
          (laws.le_trans _ _ _ (scaled-le-num a len (omega arith) few) most) in
      clamp_index_mono _ _ len some_of few
        (subst (λ z. z ≤ℤ fl.to_ℤ (scaled a len)) (exact.to_ℤ-num 0 (omega arith)) low) middle
        (subst (λ z. fl.to_ℤ (scaled b len) ≤ℤ z) (exact.to_ℤ-num len few) up)

  percentile-found :
      (ds : List Duration) (p : F)
      → 0 < length ds
      → (d : Duration) × (percentile ds p ≡ some d)
        × (get_elem? ds (clamp_index (rank p (length ds)) (length ds)) ≡ some d)
  unfolding percentile
  percentile-found [] p h = elim h [ ]
  percentile-found (d ∷ ds) p h =
      let (e, at) =
        get_elem?_of_lt (d ∷ ds) (clamp_index (rank p (length (d ∷ ds))) (length (d ∷ ds)))
          (clamp_index-lt _ _ h) in
      (e, at, at)

  summarise-ordered :
      (ds : List Duration)
      → IsSorted ds
      → 0 < length ds
      → length ds ≤ exact_max
      → (s : Summary) × (summarise F ds ≡ some s)
        × (s.least ≤ℤ s.p50)
        × (s.p50 ≤ℤ s.p95)
        × (s.p95 ≤ℤ s.p99)
        × (s.p99 ≤ℤ s.greatest)
        × (get_elem? ds 0 ≡ some s.least)
        × (get_elem? ds (length ds - 1) ≡ some s.greatest)
  unfolding summarise
  summarise-ordered ds h some_of few =
      let (least, is_least) = get_elem?_of_lt ds 0 some_of in
      let (greatest, is_greatest) = get_elem?_of_lt ds (length ds - 1) (omega arith) in
      let (p50, is_p50, at50) = percentile-found ds (hundredths 50) some_of in
      let (p95, is_p95, at95) = percentile-found ds (hundredths 95) some_of in
      let (p99, is_p99, at99) = percentile-found ds (hundredths 99) some_of in
      (
        record { least = least; p50 = p50; p95 = p95; p99 = p99; greatest = greatest },
        rw (is_least, is_p50, is_p95, is_p99, is_greatest),
        sorted_mono ds 0 _ least p50 h (omega arith) is_least at50,
        sorted_mono ds _ _ p50 p95 h
            (rank_mono 50 95 (length ds) (omega arith) (omega arith) some_of few) at50 at95,
        sorted_mono ds _ _ p95 p99 h
            (rank_mono 95 99 (length ds) (omega arith) (omega arith) some_of few) at95 at99,
        sorted_mono ds _ (length ds - 1) p99 greatest h
            (omega (
              arith,
              clamp_index-lt (rank {F = F} (hundredths 99) (length ds)) (length ds) some_of,
            ))
            at99 is_greatest,
        is_least,
        is_greatest,
      )

  -- With rounding as in IEEE 754 and a sort as documented, where there are latencies, and no more
  -- than a float64 can count: `runThroughput` does not panic, the minimum, the three percentiles
  -- and the maximum that it prints are in this order, and every latency is between the minimum and
  -- the maximum.
  pub run_throughput-ordered :
      (sort : List Duration → List Duration) (latencies : List Duration)
      → IsSort sort
      → 0 < length latencies
      → length latencies ≤ exact_max
      → (s : Summary) × (run_throughput F sort latencies ≡ some (summary s))
        × (s.least ≤ℤ s.p50)
        × (s.p50 ≤ℤ s.p95)
        × (s.p95 ≤ℤ s.p99)
        × (s.p99 ≤ℤ s.greatest)
        × All (λ d. (s.least ≤ℤ d) × (d ≤ℤ s.greatest)) latencies
  unfolding run_throughput
  run_throughput-ordered sort [] law some_of few = elim some_of [ ]
  run_throughput-ordered sort (d ∷ ds) law some_of few =
      let same = law.length-sort (d ∷ ds) in
      let (s, is_s, a, b, c, e, first, last) =
        summarise-ordered (sort (d ∷ ds)) (law.sorted (d ∷ ds)) (omega arith) (omega arith) in
      let between : (i : ℕ) (x : Duration)
          → get_elem? (d ∷ ds) i ≡ some x
          → (s.least ≤ℤ x) × (x ≤ℤ s.greatest) =
        λ i x at.
          let (j, there) = law.kept (d ∷ ds) i x at in
          let inside = get_elem?_lt (sort (d ∷ ds)) j there in
          (
            sorted_mono (sort (d ∷ ds)) 0 j s.least x (law.sorted (d ∷ ds)) (omega arith) first
                there,
            sorted_mono (sort (d ∷ ds)) j _ x s.greatest (law.sorted (d ∷ ds)) (omega arith) there
                last,
          ) in
      (s, rw is_s, a, b, c, e, All-of_get_elem? _ (d ∷ ds) between)
