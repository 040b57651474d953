-- ===== src/Limiter/Redis/Ruled.antt =====
-- A script of one client on a Redis that instances of internal/limiter/redisstore.go share.
use mathlib.Core.Option
use native.Mathlib.Nat.{mul-le-mul, le_refl}
use token_bucket_rate_limite.Prelude.Map.{lookup}
use token_bucket_rate_limite.Prelude.{
  [], total, inl, inr, ℕ, ◌+◌, ◌-◌, ◌*◌, ◌≤◌, ◌≡◌, refl, ap, ◌∙◌, true, some, String, str_eq,
  eq_iff, arith, leb, if◌then◌else◌, get_elem?, total-set,
}
use token_bucket_rate_limite.Float.{Float}
use token_bucket_rate_limite.Float.Laws.{IsOrdered}
use token_bucket_rate_limite.Float.Exact.{IsExact}
use token_bucket_rate_limite.Clock.{Time, Duration, at_second}
use token_bucket_rate_limite.Limiter.Config.{Config}
use token_bucket_rate_limite.Limiter.Decision.{Decision}
use token_bucket_rate_limite.Limiter.TokenBucket.Ideal.{Ideal, accrued, ideal_allow}
use token_bucket_rate_limite.Limiter.TokenBucket.Rate.{Fits, Fits-InRange}
use token_bucket_rate_limite.Limiter.Redis.Server.{Redis, IsRedis, reply_of}
use token_bucket_rate_limite.Limiter.Redis.Script.{token_bucket_lua, loaded, read_number}
use token_bucket_rate_limite.Limiter.Redis.Store.{state_key, config_key, arguments, decision_of}
use token_bucket_rate_limite.Limiter.Redis.Keys.{keys_separate}
use token_bucket_rate_limite.Limiter.Redis.Decisions.{arguments-num, decided_lem}
use token_bucket_rate_limite.Limiter.Redis.Agreement.{
  IsShort, Holds, Loads, Holds-Loads, arguments_of, replies, token_bucket_lua-Loads,
}
use token_bucket_rate_limite.Limiter.Redis.Instances.{asking, ruled, Visit, Instances, run_script}
use token_bucket_rate_limite.Limiter.Redis.Apart.{IsAnswering, script_apart, config_kept}
use token_bucket_rate_limite.Limiter.Redis.Served.{admits, IsPlain, cfg, IsServed, asked_kept}

module _ {R T F : Type 0} ⦃fl : Float F⦄ (redis : Redis R T F) (server : IsAnswering redis)
    (ttl : Duration) (ordered : IsOrdered F) (exact : IsExact F) (laws : IsRedis redis) (i : Ideal)
    (id algorithm : String) (until k : ℕ) (plain : IsPlain F ttl i until k) where
  open plain use {fits, millis_fit, capacity_short, rate_fits, lifetime}

  abbrev used : Config F
  used = cfg redis server ttl ordered exact laws i id algorithm until k plain

  abbrev bucket_at : ℕ → ℕ → Ideal
  bucket_at tokens anchor = record i { tokens = tokens; anchor = anchor }

  bucket_at-IsShort :
      (tokens anchor t : ℕ)
      → tokens ≤ i.capacity
      → anchor ≤ t
      → t ≤ until
      → IsShort (bucket_at tokens anchor) t
  bucket_at-IsShort tokens anchor t within upto le =
      let within_until : Fits (bucket_at tokens anchor) until = record {
        within = within;
        seconds_fit = fits.seconds_fit;
        tokens_fit = fits.tokens_fit;
      } in
      record {
        in_range = Fits-InRange (bucket_at tokens anchor) until t within_until upto le;
        millis_fit = omega arith;
        capacity_short = capacity_short;
        rate_fits = rate_fits;
      }

  own_run :
      (tokens anchor t : ℕ) (r : R)
      → let b = bucket_at tokens anchor in
        IsShort b t
        → Loads redis laws exact r (state_key id) b t
        → let (after, verdict) = ideal_allow b t in
          let ran =
            (token_bucket_lua redis (state_key id) (arguments_of redis laws exact b t k) r).0 in
          Holds redis laws exact ran (state_key id) after
          × (redis.run
                (token_bucket_lua redis (state_key id) (arguments redis ttl used (at_second t)))
                r
              ≡ (ran, some (reply_of {F = F} (replies after verdict))))
  own_run tokens anchor t r short loads =
      let b = bucket_at tokens anchor in
      let (some_ttl, ttl_fits, is_ttl) = lifetime in
      let (held, said) =
        token_bucket_lua-Loads redis laws exact b t k r (state_key id) short some_ttl ttl_fits
          loads in
      (
        held,
        server.runs _ r
            ∙ rw (arguments-num ordered exact redis laws ttl b t k algorithm is_ttl, said) refl,
      )

  -- The bucket that a script finds at the second `t`: the one of the hash, or a full one.
  record IsFound (t : ℕ) (s : Instances R F) : Type 0 where
    tokens : ℕ
    anchor : ℕ
    within : tokens ≤ i.capacity
    begun : i.anchor ≤ anchor
    upto : anchor ≤ t
    loads : Loads redis laws exact s.server (state_key id) (bucket_at tokens anchor) t
    budget : total (admits id) s.visits + tokens ≤ i.tokens + (anchor - i.anchor) * i.rate

  full-Loads :
      (r : R) (t : ℕ)
      → server.fields r (state_key id) ≡ []
      → Loads redis laws exact r (state_key id) (bucket_at i.capacity t) t
  unfolding loaded read_number lookup Option.bind
  full-Loads r t gone = rw (server.hget_read r (state_key id) "tokens", gone) refl

  found :
      (t : ℕ) (s : Instances R F)
      → IsServed redis server ttl ordered exact laws i id algorithm until k plain t s
      → IsFound t s
  found t s sv = elim (sv.holds) [
    | inl held ↦ record {
      tokens = sv.tokens;
      anchor = sv.anchor;
      within = sv.within;
      begun = sv.begun;
      upto = sv.upto;
      loads =
          Holds-Loads redis laws exact s.server (state_key id) (bucket_at sv.tokens sv.anchor) t
            held;
      budget = sv.budget;
    }
    | inr (gone, full) ↦
        let later : sv.anchor - i.anchor ≤ t - i.anchor = omega (arith, sv.upto) in
        let grown = mul-le-mul later (le_refl i.rate) in
        record {
          tokens = i.capacity;
          anchor = t;
          within = omega arith;
          begun = omega (arith, sv.begun, sv.upto);
          upto = omega arith;
          loads = full-Loads s.server t gone;
          budget = omega (arith, full, grown, sv.budget);
        }
  ]

  -- The client's own script.
  pub runs_own-IsServed :
      (last t j : ℕ) (s : Instances R F) (v : Visit F) (c : Config F) (now : Time)
      → IsServed redis server ttl ordered exact laws i id algorithm until k plain t s
      → get_elem? s.visits j ≡ some v
      → v.progress ≡ asking c now
      → v.client ≡ id
      → now ≡ at_second t
      → t ≤ last
      → last ≤ until
      → IsServed redis server ttl ordered exact laws i id algorithm until k plain last
          (run_script redis ttl s j v c now)
  runs_own-IsServed last t j s v c now sv at p mine is_now le until_le =
      let f = found t s sv in
      let b = bucket_at f.tokens f.anchor in
      let short = bucket_at-IsShort f.tokens f.anchor t f.within f.upto (omega arith) in
      let (held, same_run) = own_run f.tokens f.anchor t s.server short f.loads in
      let verdict = leb 1 (accrued b t) in
      let args = arguments_of redis laws exact b t k in
      let ran = (token_bucket_lua redis (state_key id) args s.server).0 in
      let d = decision_of used (some (reply_of {F = F} (replies (ideal_allow b t).0 verdict))) in
      let is_verdict : d.allowed ≡ verdict =
        ap (λ (x : Decision F). x.allowed) (decided_lem ordered exact b t used refl short) in
      let is_cfg : c ≡ used = sv.asked_with j v c now at mine p in
      let runs : redis.run (token_bucket_lua redis (state_key v.client) (arguments redis ttl c now))
            s.server
          ≡ (ran, some (reply_of {F = F} (replies (ideal_allow b t).0 verdict))) =
        rw (mine, is_cfg, is_now) same_run in
      let next = record v { progress = ruled d } in
      let before : admits id v ≡ 0 = rw p refl in
      let same_id : str_eq v.client id ≡ true = ground (arith, eq_iff v.client id) in
      let counts : admits id next ≡ (if verdict then 1 else 0) = rw (same_id, is_verdict) refl in
      let split : t - f.anchor + (f.anchor - i.anchor) ≡ t - i.anchor =
        omega (arith, f.begun, f.upto) in
      let moved = total-set (admits id) s.visits j v next at in
      rw (runs, is_cfg)
        record {
          tokens = accrued b t - 1;
          anchor = t;
          within = omega arith;
          begun = omega (arith, f.begun, f.upto);
          upto = le;
          holds = inl held;
          config =
              config_kept redis server ttl s.server ran id (
                script_apart redis server ttl s.server (state_key id) (config_key id) args
                  ((keys_separate id id).0))
              ∙ sv.config;
          asked_with =
              asked_kept redis server ttl ordered exact laws i id algorithm until k plain s t j v
                (ruled d) sv (λ c' now'. λ (e : ruled d ≡ asking c' now'). cc);
          budget =
              ground (arith, moved, before, counts, f.budget, ap (λ (n : ℕ). n * i.rate) split);
        }
