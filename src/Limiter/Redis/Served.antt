-- ===== src/Limiter/Redis/Served.antt =====
-- The bucket of one client on a Redis that instances of internal/limiter/redisstore.go share, and
-- the calls that it has allowed.
use mathlib.Core.Option
use native.Mathlib.Nat.{mul-le-mul, le_refl}
use token_bucket_rate_limite.Prelude.{
  ◌⊎◌, ℕ, ◌+◌, ◌-◌, ◌*◌, ◌^◌, ◌≤◌, ◌<◌, ◌≡◌, ◌≢◌, refl, sym, ap, ◌∙◌, false, ◌&&◌, some, [], ◌∷◌,
  String, str_eq, eq_iff, arith, if◌then◌else◌, pos, get_elem?, set, total, total-set, total-append,
  inl, inr, get_elem?-append_cases, get_elem?-set_cases,
}
use token_bucket_rate_limite.Float.{Float, num}
use token_bucket_rate_limite.Float.Laws.{IsOrdered}
use token_bucket_rate_limite.Float.Exact.{IsExact, exact_max}
use token_bucket_rate_limite.Clock.{Time, Duration}
use token_bucket_rate_limite.Limiter.Config.{Config}
use token_bucket_rate_limite.Limiter.Decision.{Decision}
use token_bucket_rate_limite.Limiter.Manager.{default_config}
use token_bucket_rate_limite.Limiter.TokenBucket.Ideal.{Ideal}
use token_bucket_rate_limite.Limiter.TokenBucket.Rate.{Fits}
use token_bucket_rate_limite.Limiter.Redis.Server.{Redis, IsRedis, reply_of}
use token_bucket_rate_limite.Limiter.Redis.Script.{token_bucket_lua}
use token_bucket_rate_limite.Limiter.Redis.Store.{
  state_key, config_key, config_of_fields, record_decision, arguments, decision_of,
}
use token_bucket_rate_limite.Limiter.Redis.Keys.{keys_separate}
use token_bucket_rate_limite.Limiter.Redis.Closed.{config_used}
use token_bucket_rate_limite.Limiter.Redis.Agreement.{Holds}
use token_bucket_rate_limite.Limiter.Redis.Instances.{
  Progress, asking, ruled, tallied, Visit, Instances, read_config, run_script, tally,
}
use token_bucket_rate_limite.Limiter.Redis.Apart.{
  IsAnswering, script_apart, tally_apart, config_lem, config_kept, kept-Holds,
}

-- The calls for the client that are allowed.
abbrev pub admits : {F : Type 0} → String → Visit F → ℕ
admits id v = elim (v.progress) [
  | asking cfg now ↦ 0
  | ruled d ↦ if str_eq v.client id && d.allowed then 1 else 0
  | tallied d ↦ if str_eq v.client id && d.allowed then 1 else 0
]

-- What the numbers of a bucket and the lifetime of its hash must be for the script to be exact.
pub record IsPlain (F : Type 0) ⦃fl : Float F⦄ (ttl : Duration) (i : Ideal) (until k : ℕ)
    : Type 0 where
  pub fits : Fits i until
  pub millis_fit : until * 1000 < 10 ^ 14
  pub capacity_short : i.capacity < 10 ^ 14
  pub rate_fits : i.rate ≤ exact_max
  -- A bucket fills up within the lifetime of its hash.
  pub fills : i.capacity ≤ k * i.rate
  pub lifetime : (0 < k) × (k ≤ exact_max) × (fl.to_ℤ (fl.seconds ttl) ≡ pos k)

module _ {R T F : Type 0} ⦃fl : Float F⦄ (redis : Redis R T F) (server : IsAnswering redis)
    (ttl : Duration) (ordered : IsOrdered F) (exact : IsExact F) (laws : IsRedis redis) (i : Ideal)
    (id algorithm : String) (until k : ℕ) (plain : IsPlain F ttl i until k) where
  open plain use {fits, millis_fit, capacity_short, rate_fits, lifetime, fills}

  abbrev pub cfg : Config F
  cfg = record { rps = num i.rate; burst = num i.capacity; algorithm = algorithm }

  -- The hash of the client holds a bucket, or has lapsed and the bucket is full. What the bucket lost
  -- is what was allowed.
  pub record IsServed (last : ℕ) (s : Instances R F) : Type 0 where
    pub tokens : ℕ
    pub anchor : ℕ
    pub within : tokens ≤ i.capacity
    pub begun : i.anchor ≤ anchor
    pub upto : anchor ≤ last
    pub holds :
        Holds redis laws exact s.server
          (state_key id)
          (record i { tokens = tokens; anchor = anchor })
        ⊎ ((server.fields s.server (state_key id) ≡ []) × (tokens ≡ i.capacity))
    pub config : config_used redis ttl s.server id ≡ cfg
    pub asked_with :
        (j : ℕ) (v : Visit F) (c : Config F) (now : Time)
        → get_elem? s.visits j ≡ some v
        → v.client ≡ id
        → v.progress ≡ asking c now
        → c ≡ cfg
    pub budget : total (admits id) s.visits + tokens ≤ i.tokens + (anchor - i.anchor) * i.rate

  abbrev asked_config : Progress F → Config F
  asked_config (asking c now) = c
  asked_config _ = cfg

  pub reads-IsServed :
      (last : ℕ) (s : Instances R F) (j : String) (now : Time)
      → IsServed last s
      → IsServed last (read_config redis ttl s j now)
  reads-IsServed last s j now v =
      let used =
        Option.get_or (config_of_fields redis ttl (server.fields s.server (config_key j)))
          default_config in
      let is_used : config_used redis ttl s.server j ≡ used =
        rw (config_lem redis server ttl s.server j) refl in
      rw (config_lem redis server ttl s.server j) record {
        tokens = v.tokens;
        anchor = v.anchor;
        within = v.within;
        begun = v.begun;
        upto = v.upto;
        holds = v.holds;
        config = v.config;
        asked_with = λ n w c later at mine p.
            elim (get_elem?-append_cases s.visits
              (record { client = j; progress = asking used now }) n w at) [
                | inl before ↦ v.asked_with n w c later before mine p
                | inr new ↦
                    let is_id : j ≡ id = ap (λ (x : Visit F). x.client) new ∙ mine in
                    let is_c : used ≡ c =
                      ap (λ (x : Visit F). asked_config x.progress) new ∙ ap asked_config p in
                    sym is_c ∙ sym is_used ∙ ap (config_used redis ttl s.server) is_id ∙ v.config
              ];
        budget = ground (
          arith,
          total-append (admits id) s.visits
              (record { client = j; progress = asking used now } ∷ []),
          v.budget,
        );
      }

  -- A call that moves on asks no more.
  pub asked_kept :
      (s : Instances R F) (last j : ℕ) (v : Visit F) (next : Progress F)
      → IsServed last s
      → ((c : Config F) (now : Time) → next ≢ asking c now)
      → (n : ℕ) (w : Visit F) (c : Config F) (now : Time)
      → get_elem? (set s.visits j (record v { progress = next })) n ≡ some w
      → w.client ≡ id
      → w.progress ≡ asking c now
      → c ≡ cfg
  asked_kept s last j v next sv moved n w c now at mine p =
      elim (get_elem?-set_cases s.visits j (record v { progress = next }) n w at) [
        | inl before ↦ sv.asked_with n w c now before mine p
        | inr new ↦ absurd (moved c now (ap (λ (x : Visit F). x.progress) new ∙ p))
      ]

  -- A command that leaves the client's config and bucket alone, and a call that has no new verdict
  -- for it.
  elsewhere-IsServed :
      (last j : ℕ) (s : Instances R F) (v : Visit F) (next : Progress F) (after : R)
      → IsServed last s
      → get_elem? s.visits j ≡ some v
      → ((c : Config F) (now : Time) → next ≢ asking c now)
      → admits id (record v { progress = next }) ≡ admits id v
      → server.fields after (state_key id) ≡ server.fields s.server (state_key id)
      → server.fields after (config_key id) ≡ server.fields s.server (config_key id)
      → IsServed last
          (record { server = after; visits = set s.visits j (record v { progress = next }) })
  elsewhere-IsServed last j s v next after sv at moved same state config = record {
    tokens = sv.tokens;
    anchor = sv.anchor;
    within = sv.within;
    begun = sv.begun;
    upto = sv.upto;
    holds = elim (sv.holds) [
      | inl held ↦ inl (
          kept-Holds redis server ttl exact laws s.server after (state_key id)
            (record i { tokens = sv.tokens; anchor = sv.anchor }) state held)
      | inr (gone, full) ↦ inr (state ∙ gone, full)
    ];
    config = config_kept redis server ttl s.server after id config ∙ sv.config;
    asked_with = asked_kept s last j v next sv moved;
    budget = omega (
      arith,
      total-set (admits id) s.visits j v (record v { progress = next }) at,
      same,
      sv.budget,
    );
  }

  pub tallies-IsServed :
      (last j : ℕ) (s : Instances R F) (v : Visit F) (d : Decision F)
      → IsServed last s
      → get_elem? s.visits j ≡ some v
      → v.progress ≡ ruled d
      → IsServed last (tally redis ttl s j v d)
  tallies-IsServed last j s v d sv at p =
      let measure : admits id v ≡ (if str_eq v.client id && d.allowed then 1 else 0) = rw p refl in
      let apart = keys_separate id v.client in
      elsewhere-IsServed last j s v (tallied d)
        (record_decision redis ttl s.server v.client d.allowed) sv at
        (λ c now. λ (e : tallied d ≡ asking c now). cc) (sym measure)
        (tally_apart redis server ttl s.server v.client (state_key id) d.allowed
          (λ e. apart.1 (sym e)))
        (tally_apart redis server ttl s.server v.client (config_key id) d.allowed
          (λ e. apart.2 (sym e)))

  pub runs_other-IsServed :
      (last j : ℕ) (s : Instances R F) (v : Visit F) (c : Config F) (now : Time)
      → IsServed last s
      → get_elem? s.visits j ≡ some v
      → v.progress ≡ asking c now
      → str_eq v.client id ≡ false
      → IsServed last (run_script redis ttl s j v c now)
  runs_other-IsServed last j s v c now sv at p other =
      let args = arguments redis ttl c now in
      let script = token_bucket_lua redis (state_key v.client) args in
      let (ran, reply) = script s.server in
      let next = ruled (decision_of c (Option.map reply_of reply)) in
      let measure : admits id v ≡ 0 = rw p refl in
      let apart = keys_separate v.client id in
      rw (server.runs script s.server) (
        elsewhere-IsServed last j s v next ran sv at (λ c' now'. λ (e : next ≡ asking c' now'). cc)
          (rw (measure, other) refl)
          (script_apart redis server ttl s.server (state_key v.client) (state_key id) args
            (λ e. ground (arith, eq_iff v.client id, apart.3 e)))
          (script_apart redis server ttl s.server (state_key v.client) (config_key id) args
            (apart.0)))

  -- A key lapses that is neither the client's bucket nor its config.
  pub lapses_elsewhere-IsServed :
      (last : ℕ) (s : Instances R F) (key : String)
      → key ≢ state_key id
      → key ≢ config_key id
      → IsServed last s
      → IsServed last (record s { server = redis.lapse s.server key })
  lapses_elsewhere-IsServed last s key state config sv =
      let after = redis.lapse s.server key in
      record {
        tokens = sv.tokens;
        anchor = sv.anchor;
        within = sv.within;
        begun = sv.begun;
        upto = sv.upto;
        holds = elim (sv.holds) [
          | inl held ↦ inl (
              kept-Holds redis server ttl exact laws s.server after (state_key id)
                (record i { tokens = sv.tokens; anchor = sv.anchor })
                (server.lapse_apart s.server key (state_key id) state) held)
          | inr (gone, full) ↦
              inr (server.lapse_apart s.server key (state_key id) state ∙ gone, full)
        ];
        config =
            config_kept redis server ttl s.server after id
              (server.lapse_apart s.server key (config_key id) config)
            ∙ sv.config;
        asked_with = sv.asked_with;
        budget = sv.budget;
      }

  -- The client's bucket lapses a lifetime or more after all that became of it: it was full by then.
  pub lapses-IsServed :
      (last t : ℕ) (s : Instances R F)
      → k ≤ t
      → t ≤ last
      → IsServed (t - k) s
      → IsServed last (record s { server = redis.lapse s.server (state_key id) })
  lapses-IsServed last t s long le sv =
      let after = redis.lapse s.server (state_key id) in
      let waited : k ≤ t - sv.anchor = omega (arith, sv.upto) in
      let grown = mul-le-mul waited (le_refl i.rate) in
      let split : t - sv.anchor + (sv.anchor - i.anchor) ≡ t - i.anchor =
        omega (arith, sv.begun, sv.upto) in
      record {
        tokens = i.capacity;
        anchor = t;
        within = omega arith;
        begun = omega (arith, sv.begun, sv.upto);
        upto = le;
        holds = inr (server.lapsed s.server (state_key id), refl);
        config =
            config_kept redis server ttl s.server after id
              (server.lapse_apart s.server (state_key id) (config_key id) (keys_separate id id).0)
            ∙ sv.config;
        asked_with = sv.asked_with;
        budget = ground (arith, fills, grown, sv.budget, ap (λ (n : ℕ). n * i.rate) split);
      }
