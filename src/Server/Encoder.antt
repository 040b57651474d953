-- ===== src/Server/Encoder.antt =====
-- An encoder of the snapshots of two clients, for the tests of the server.
use token_bucket_rate_limite.Prelude.{
  ℕ, Bool, true, false, ◌&&◌, ◌||◌, ◌==◌, ◌⊎◌, ap, eq_iff, is_none, not, Option, sym, ◌∙◌,
  Option-cases, ◌≡◌, refl, none, some, [], ◌∷◌, String, str_eq, arith, if◌then◌else◌, inl, inr,
  subst, Bool-cases,
}
use token_bucket_rate_limite.Prelude.Map.{GoMap, lookup, IsMap}
use token_bucket_rate_limite.Float.Nano.{Nano, fin, inf, nan, nano_float}
use token_bucket_rate_limite.Limiter.Config.{Config, algorithm_token_bucket}
use token_bucket_rate_limite.Limiter.Persistence.{PersistedState, LimiterState}
use token_bucket_rate_limite.Disk.{Json, ReadsBack}
use token_bucket_rate_limite.Server.Shutdown.{IsJson, all_keys, all_utf8}
use token_bucket_rate_limite.Server.Fixtures.{slow_config}

abbrev is_fin : ℕ → Nano → Bool
is_fin n (fin m) = m == n
is_fin n _ = false

abbrev is_slow : Config Nano → Bool
is_slow c =
    is_fin 1_000_000_000 c.rps
    && is_fin 2_000_000_000 c.burst
    && str_eq c.algorithm algorithm_token_bucket

is_fin-eq : (n : ℕ) (x : Nano) → is_fin n x ≡ true → x ≡ fin n
is_fin-eq n nan h = cc
is_fin-eq n inf h = cc
is_fin-eq n (fin m) h = ap fin (ground arith)

is_slow-eq : (c : Config Nano) → is_slow c ≡ true → c ≡ slow_config
is_slow-eq c h =
    let rps = is_fin-eq 1_000_000_000 c.rps (ground arith) in
    let burst = is_fin-eq 2_000_000_000 c.burst (ground arith) in
    let algorithm : c.algorithm ≡ algorithm_token_bucket =
      ground (arith, eq_iff c.algorithm algorithm_token_bucket) in
    cc

-- The clients are "a" and "b", with one config.
abbrev all_slow : GoMap (Config Nano) → Bool
all_slow [] = true
all_slow ((key, c) ∷ configs) =
    let rest = all_slow configs in (str_eq key "a" || str_eq key "b") && is_slow c && rest

abbrev state_of : Bool → Bool → PersistedState Nano
state_of a b = record {
  configs =
      if a
      then (("a", slow_config) ∷ (if b then ("b", slow_config) ∷ [] else []))
      else if b
      then ("b", slow_config) ∷ []
      else [];
  limiters = [];
}

abbrev text_of : Bool → Bool → String
text_of a b = if a then (if b then "{a,b}" else "{a}") else if b then "{b}" else "{}"

abbrev has : String → GoMap (Config Nano) → Bool
has key configs = not (is_none (lookup key configs))

-- An encoder of the configs of two clients, which writes them in the order of their keys.
abbrev pub small_json : Json Nano
small_json = record {
  marshal = λ s. elim s.limiters [
    | [] ↦
        if all_slow s.configs then some (text_of (has "a" s.configs) (has "b" s.configs)) else none
    | l ∷ ls ↦ none
  ];
  unmarshal = λ text.
      if str_eq text "{a,b}"
      then some (state_of true true)
      else if str_eq text "{a}"
      then some (state_of true false)
      else if str_eq text "{b}"
      then some (state_of false true)
      else if str_eq text "{}"
      then some (state_of false false)
      else none;
}

text_read : (a b : Bool) → small_json.unmarshal (text_of a b) ≡ some (state_of a b)
text_read true true = refl
text_read true false = refl
text_read false true = refl
text_read false false = refl

all_three : (x y z : Bool) → (x && y && z) ≡ true → (x ≡ true) × (y ≡ true) × (z ≡ true)
all_three true true true h = (refl, refl, refl)
all_three true true false h = cc
all_three true false z h = cc
all_three false y z h = cc

slow_lookup :
    (configs : GoMap (Config Nano)) (j : String) (c : Config Nano)
    → all_slow configs ≡ true
    → lookup j configs ≡ some c
    → (c ≡ slow_config) × ((j ≡ "a") ⊎ (j ≡ "b"))
unfolding lookup
slow_lookup [] j c h e = cc
slow_lookup ((key, d) ∷ configs) j c h e =
    let (own, slow, rest) =
      all_three (str_eq key "a" || str_eq key "b") (is_slow d) (all_slow configs) h in
    elim (Bool-cases (str_eq key j)) [
      | inl mine ↦
          let is_j : key ≡ j = ground (arith, eq_iff key j) in
          let same : d ≡ c = ground (arith, e) in
          (
            sym same ∙ is_slow-eq d slow,
            elim (Bool-cases (str_eq key "a")) [
              | inl a ↦
                  let is_a : key ≡ "a" = ground (arith, eq_iff key "a") in inl (sym is_j ∙ is_a)
              | inr not_a ↦
                  let b : str_eq key "b" ≡ true = ground arith in
                  let is_b : key ≡ "b" = ground (arith, eq_iff key "b") in inr (sym is_j ∙ is_b)
            ],
          )
      | inr other ↦ slow_lookup configs j c rest (ground (arith, e))
    ]

abbrev IsSame : GoMap (Config Nano) → String → Type 0
IsSame configs j =
    lookup j (state_of (has "a" configs) (has "b" configs)).configs ≡ lookup j configs

a_absent : (b : Bool) → lookup "a" (state_of false b).configs ≡ none
unfolding lookup
a_absent true = refl
a_absent false = refl

a_there : (b : Bool) → lookup "a" (state_of true b).configs ≡ some slow_config
unfolding lookup
a_there true = refl
a_there false = refl

b_absent : (a : Bool) → lookup "b" (state_of a false).configs ≡ none
unfolding lookup
b_absent true = refl
b_absent false = refl

b_there : (a : Bool) → lookup "b" (state_of a true).configs ≡ some slow_config
unfolding lookup
b_there true = refl
b_there false = refl

neither :
    (a b : Bool) (j : String)
    → str_eq "a" j ≡ false
    → str_eq "b" j ≡ false
    → lookup j (state_of a b).configs ≡ none
unfolding lookup
neither true true j not_a not_b = ground arith
neither true false j not_a not_b = ground arith
neither false true j not_a not_b = ground arith
neither false false j not_a not_b = refl

state_same :
    (configs : GoMap (Config Nano)) (j : String)
    → all_slow configs ≡ true
    → lookup j (state_of (has "a" configs) (has "b" configs)).configs ≡ lookup j configs
state_same configs j h = elim (Bool-cases (str_eq "a" j)) [
  | inl a ↦
      let is_a : "a" ≡ j = ground (arith, eq_iff "a" j) in
      subst (IsSame configs) is_a (elim (Option-cases (lookup "a" configs)) [
        | inl absent ↦ rw absent (a_absent (has "b" configs))
        | inr (c, there) ↦
            rw (there, (slow_lookup configs "a" c h there).0) (a_there (has "b" configs))
      ])
  | inr not_a ↦ elim (Bool-cases (str_eq "b" j)) [
    | inl b ↦
        let is_b : "b" ≡ j = ground (arith, eq_iff "b" j) in
        subst (IsSame configs) is_b (elim (Option-cases (lookup "b" configs)) [
          | inl absent ↦ rw absent (b_absent (has "a" configs))
          | inr (c, there) ↦
              rw (there, (slow_lookup configs "b" c h there).0) (b_there (has "a" configs))
        ])
    | inr not_b ↦ elim (Option-cases (lookup j configs)) [
      | inl absent ↦ neither (has "a" configs) (has "b" configs) j not_a not_b ∙ sym absent
      | inr (c, there) ↦
          let one = (slow_lookup configs j c h there).1 in
          ground (arith, one, eq_iff "a" j, eq_iff "b" j)
    ]
  ]
]

state_of-IsMap : (a b : Bool) → IsMap (state_of a b).configs
unfolding IsMap lookup
state_of-IsMap true true = ground arith
state_of-IsMap true false = ground arith
state_of-IsMap false true = ground arith
state_of-IsMap false false = tt

small_json-back :
    (configs : GoMap (Config Nano)) (limiters : GoMap (LimiterState Nano))
    → ReadsBack small_json (record { configs = configs; limiters = limiters })
unfolding IsMap lookup
small_json-back configs [] text e = elim (Bool-cases (all_slow configs)) [
  | inl slow ↦
      let a = has "a" configs in
      let b = has "b" configs in
      let written : ◌≡◌ {A = Option String} (some (text_of a b)) (some text) = rw slow at e in
      let same : text_of a b ≡ text = cc in
      (
        state_of a b,
        subst (λ t. small_json.unmarshal t ≡ some (state_of a b)) same (text_read a b),
        record {
          configs_map = state_of-IsMap a b;
          limiters_map = tt;
          same_configs = λ j. state_same configs j slow;
          same_limiters = λ j. refl;
        },
      )
  | inr other ↦ let bad : ◌≡◌ {A = Option String} none (some text) = rw other at e in cc
]
small_json-back configs (l ∷ ls) text e = cc

read_as :
    (a b : Bool) (s : PersistedState Nano)
    → ◌≡◌ {A = Option (PersistedState Nano)} (some (state_of a b)) (some s)
    → state_of a b ≡ s
read_as a b s e = cc

unmarshal_cases :
    (text : String) (s : PersistedState Nano)
    → small_json.unmarshal text ≡ some s
    → (a : Bool) × (b : Bool) × (state_of a b ≡ s)
unmarshal_cases text s e = elim (Bool-cases (str_eq text "{a,b}")) [
  | inl ab ↦ (true, true, read_as true true s (rw ab at e))
  | inr not_ab ↦ elim (Bool-cases (str_eq text "{a}")) [
    | inl a ↦ (true, false, read_as true false s (rw (not_ab, a) at e))
    | inr not_a ↦ elim (Bool-cases (str_eq text "{b}")) [
      | inl b ↦ (false, true, read_as false true s (rw (not_ab, not_a, b) at e))
      | inr not_b ↦ elim (Bool-cases (str_eq text "{}")) [
        | inl empty ↦ (false, false, read_as false false s (rw (not_ab, not_a, not_b, empty) at e))
        | inr other ↦
            let bad : ◌≡◌ {A = Option (PersistedState Nano)} none (some s) =
              rw (not_ab, not_a, not_b, other) at e in
            cc
      ]
    ]
  ]
]

pub small_json-IsJson : IsJson small_json
unfolding IsMap
small_json-IsJson = record {
  is_utf8 = λ text. true;
  back = λ s configs_map limiters_map texts. small_json-back s.configs s.limiters;
  maps = λ s text e.
      let (a, b, same) = unmarshal_cases text s e in
      subst (λ (t : PersistedState Nano). IsMap t.configs × IsMap t.limiters) same
        (state_of-IsMap a b, tt);
}

all_keys-true :
    {A : Type 0} (algorithm : A → String) (entries : GoMap A)
    → all_keys small_json-IsJson.is_utf8 algorithm entries ≡ true
unfolding small_json-IsJson
all_keys-true algorithm [] = refl
all_keys-true algorithm (entry ∷ entries) = all_keys-true algorithm entries

pub small_json-utf8 : (s : PersistedState Nano) → all_utf8 small_json-IsJson.is_utf8 s ≡ true
small_json-utf8 s = ground (
  arith,
  all_keys-true (λ (c : Config Nano). c.algorithm) s.configs,
  all_keys-true (λ (l : LimiterState Nano). l.algorithm) s.limiters,
)
