-- ===== src/Limiter/Redis/Limits.antt =====
-- The limit of one client, when several instances of the server call `Allow` of
-- internal/limiter/redisstore.go at the same time on one Redis.
use mathlib.Core.List.{map}
use native.Mathlib.Nat.{mul-le-mul, le_refl}
use token_bucket_rate_limite.Prelude.{
  ℕ, ◌+◌, ◌-◌, ◌*◌, ◌≤◌, ◌≡◌, refl, List, [], ◌∷◌, String, str_eq, eq_iff, arith, if◌then◌else◌,
  total, Bool-cases, inl, inr, subst, sym,
}
use token_bucket_rate_limite.Float.{Float}
use token_bucket_rate_limite.Float.Laws.{IsOrdered}
use token_bucket_rate_limite.Float.Exact.{IsExact}
use token_bucket_rate_limite.Clock.{Time, Duration, at_second}
use token_bucket_rate_limite.Limiter.TokenBucket.Ideal.{Ideal}
use token_bucket_rate_limite.Limiter.Redis.Server.{Redis, IsRedis}
use token_bucket_rate_limite.Limiter.Redis.Store.{state_key, stats_key}
use token_bucket_rate_limite.Limiter.Redis.Keys.{keys_separate}
use token_bucket_rate_limite.Limiter.Redis.Closed.{config_used}
use token_bucket_rate_limite.Limiter.Redis.Agreement.{Holds}
use token_bucket_rate_limite.Limiter.Redis.Instances.{
  Instances, Happening, ran, lapsed, Turns, no_turn, reads_config, runs_script, tallies,
  bucket_lapses, counts_lapse,
}
use token_bucket_rate_limite.Limiter.Redis.Apart.{IsAnswering}
use token_bucket_rate_limite.Limiter.Redis.Served.{
  admits, IsPlain, cfg, IsServed, reads-IsServed, tallies-IsServed, runs_other-IsServed,
  lapses-IsServed, lapses_elsewhere-IsServed,
}
use token_bucket_rate_limite.Limiter.Redis.Ruled.{runs_own-IsServed}

-- What became of the bucket of one client, the last first.
abbrev happenings_of : String → List (String × Happening Time) → List (Happening Time)
happenings_of id [] = []
happenings_of id ((j, h) ∷ log) =
    let rest = happenings_of id log in if str_eq j id then h ∷ rest else rest

abbrev at_whole_second : Happening ℕ → Happening Time
at_whole_second (ran t) = ran (at_second t)
at_whole_second (lapsed t) = lapsed (at_second t)

-- The happenings, the last one first, come in order from `from` to `until`. A key lapses `k` seconds
-- or more after the last script that ran on it.
abbrev IsFalling : ℕ → ℕ → ℕ → List (Happening ℕ) → Type 0
IsFalling k from until [] = from ≤ until
IsFalling k from until (ran t ∷ es) = (t ≤ until) × IsFalling k from t es
IsFalling k from until (lapsed t ∷ es) = (k ≤ t) × (t ≤ until) × IsFalling k from (t - k) es

le_last : (k from last : ℕ) (es : List (Happening ℕ)) → IsFalling k from last es → from ≤ last
le_last k from last [] h = h
le_last k from last (ran t ∷ es) h = omega (arith, le_last k from t es h.1)
le_last k from last (lapsed t ∷ es) h = omega (arith, le_last k from (t - k) es h.2)

-- The last happening of some that are at whole seconds.
own_run_time :
    (hs : List (Happening Time)) (now : Time) (es : List (Happening ℕ))
    → ran now ∷ hs ≡ map at_whole_second es
    → (t : ℕ) × (earlier : List (Happening ℕ)) × (now ≡ at_second t)
      × (hs ≡ map at_whole_second earlier)
      × (es ≡ ran t ∷ earlier)
own_run_time hs now [] e = cc
own_run_time hs now (ran t ∷ earlier) e = (t, earlier, cc, cc, refl)
own_run_time hs now (lapsed t ∷ earlier) e = cc

own_lapse_time :
    (hs : List (Happening Time)) (now : Time) (es : List (Happening ℕ))
    → lapsed now ∷ hs ≡ map at_whole_second es
    → (t : ℕ) × (earlier : List (Happening ℕ)) × (now ≡ at_second t)
      × (hs ≡ map at_whole_second earlier)
      × (es ≡ lapsed t ∷ earlier)
own_lapse_time hs now [] e = cc
own_lapse_time hs now (ran t ∷ earlier) e = cc
own_lapse_time hs now (lapsed t ∷ earlier) e = (t, earlier, cc, cc, refl)

module _ {R T F : Type 0} ⦃fl : Float F⦄ (redis : Redis R T F) (server : IsAnswering redis)
    (ttl : Duration) (ordered : IsOrdered F) (exact : IsExact F) (laws : IsRedis redis) (i : Ideal)
    (id algorithm : String) (until k : ℕ) (plain : IsPlain F ttl i until k) where
  served :
      {r : R} {log : List (String × Happening Time)} {s : Instances R F} (last : ℕ)
      (es : List (Happening ℕ))
      → Holds redis laws exact r (state_key id) i
      → config_used redis ttl r id
        ≡ cfg redis server ttl ordered exact laws i id algorithm until k plain
      → Turns redis ttl r log s
      → happenings_of id log ≡ map at_whole_second es
      → IsFalling k i.anchor last es
      → last ≤ until
      → IsServed redis server ttl ordered exact laws i id algorithm until k plain last s
  served last es held configured no_turn times falling le = record {
    tokens = i.tokens;
    anchor = i.anchor;
    within = plain.fits.within;
    begun = omega arith;
    upto = le_last k i.anchor last es falling;
    holds = inl held;
    config = configured;
    asked_with = λ j v c now at mine p. cc;
    budget = omega arith;
  }
  served last es held configured (reads_config {s = s} j now turns) times falling le =
      reads-IsServed redis server ttl ordered exact laws i id algorithm until k plain last s j now
        (served last es held configured turns times falling le)
  served last es held configured (tallies {s = s} j v d turns at p) times falling le =
      tallies-IsServed redis server ttl ordered exact laws i id algorithm until k plain last j s v d
        (served last es held configured turns times falling le) at p
  served last es held configured (runs_script {log = log} {s = s} j v c now turns at p) times
        falling le =
      elim (Bool-cases (str_eq v.client id)) [
        | inl own ↦
            let told : ran now ∷ happenings_of id log ≡ map at_whole_second es = rw own at times in
            let (t, earlier, is_now, rest, same) =
              own_run_time (happenings_of id log) now es told in
            let in_order : IsFalling k i.anchor last (ran t ∷ earlier) =
              subst (IsFalling k i.anchor last) same falling in
            let (t_le, before) = in_order in
            let mine : v.client ≡ id = ground (arith, eq_iff v.client id) in
            runs_own-IsServed redis server ttl ordered exact laws i id algorithm until k plain last
              t j s v c now (served t earlier held configured turns rest before (omega arith)) at p
              mine is_now t_le le
        | inr other ↦
            let rest : happenings_of id log ≡ map at_whole_second es = rw other at times in
            runs_other-IsServed redis server ttl ordered exact laws i id algorithm until k plain
              last j s v c now (served last es held configured turns rest falling le) at p other
      ]
  served last es held configured (counts_lapse {s = s} j turns) times falling le =
      lapses_elsewhere-IsServed redis server ttl ordered exact laws i id algorithm until k plain
        last s (stats_key j) (λ e. (keys_separate id j).1 (sym e))
        (λ e. (keys_separate id j).2 (sym e))
        (served last es held configured turns times falling le)
  served last es held configured (bucket_lapses {log = log} {s = s} j now turns) times falling le =
      elim (Bool-cases (str_eq j id)) [
        | inl own ↦
            let told : lapsed now ∷ happenings_of id log ≡ map at_whole_second es =
              rw own at times in
            let (t, earlier, is_now, rest, same) =
              own_lapse_time (happenings_of id log) now es told in
            let in_order : IsFalling k i.anchor last (lapsed t ∷ earlier) =
              subst (IsFalling k i.anchor last) same falling in
            let (long, t_le, before) = in_order in
            let mine : j ≡ id = ground (arith, eq_iff j id) in
            rw mine (
              lapses-IsServed redis server ttl ordered exact laws i id algorithm until k plain last
                t s long t_le
                (served (t - k) earlier held configured turns rest before (omega arith)))
        | inr other ↦
            let rest : happenings_of id log ≡ map at_whole_second es = rw other at times in
            lapses_elsewhere-IsServed redis server ttl ordered exact laws i id algorithm until k
              plain last s (state_key j)
              (λ e. ground (arith, eq_iff j id, (keys_separate j id).3 e)) (keys_separate j id).0
              (served last es held configured turns rest falling le)
      ]

  -- When instances of the server call `Allow` at the same time on one Redis that answers and that
  -- nothing else uses, and a client's config has whole numbers and its hash holds a bucket of whole
  -- tokens that fit Lua's 14 digits, and that fills up within the lifetime of the hash: however the
  -- commands and the ends of keys interleave, if the client's scripts run at whole seconds in order
  -- from the last refill on, and its bucket lapses at whole seconds, a lifetime or more after the
  -- last script, the calls that are allowed of all instances together are at most the tokens that
  -- the bucket held and those that accrue until a time after the scripts.
  pub allowed_everywhere-le :
      {r : R} {log : List (String × Happening Time)} {s : Instances R F} (es : List (Happening ℕ))
      → Holds redis laws exact r (state_key id) i
      → config_used redis ttl r id
        ≡ cfg redis server ttl ordered exact laws i id algorithm until k plain
      → Turns redis ttl r log s
      → happenings_of id log ≡ map at_whole_second es
      → IsFalling k i.anchor until es
      → total (admits id) s.visits ≤ i.tokens + (until - i.anchor) * i.rate
  allowed_everywhere-le es held configured turns times falling =
      let v = served until es held configured turns times falling (omega arith) in
      let longer : v.anchor - i.anchor ≤ until - i.anchor = omega (arith, v.upto) in
      let grows = mul-le-mul longer (le_refl i.rate) in omega (arith, v.budget, grows)
