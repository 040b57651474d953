-- ===== src/Limiter/Redis/Instances.antt =====
-- Several instances of the server that call `Allow` of internal/limiter/redisstore.go at the same
-- time on one Redis: an instance sends HGETALL, then the script and then HINCRBY with EXPIRE, and
-- others run between.
use mathlib.Core.Option
use token_bucket_rate_limite.Prelude.{ℕ, ◌≡◌, some, List, [], ◌∷◌, ◌++◌, String, get_elem?, set}
use token_bucket_rate_limite.Float.{Float}
use token_bucket_rate_limite.Clock.{Time, Duration}
use token_bucket_rate_limite.Limiter.Config.{Config}
use token_bucket_rate_limite.Limiter.Decision.{Decision}
use token_bucket_rate_limite.Limiter.Manager.{default_config}
use token_bucket_rate_limite.Limiter.Redis.Server.{Redis}
use token_bucket_rate_limite.Limiter.Redis.Script.{token_bucket_lua}
use token_bucket_rate_limite.Limiter.Redis.Store.{
  state_key, stats_key, get_config, arguments, decision_of, record_decision,
}

-- What becomes of a bucket, and at what time: a script runs on it, or its key lapses.
pub data Happening (A : Type 0) : Type 0 where
  ran lapsed : A → Happening A

-- How far a call of `Allow` is: it has its config and the time; it has the decision; it has counted the
-- decision and returns it.
pub data Progress (F : Type 0) : Type 0 where
  asking : Config F → Time → Progress F
  ruled : Decision F → Progress F
  tallied : Decision F → Progress F

pub record Visit (F : Type 0) : Type 0 where
  pub client : String
  pub progress : Progress F

-- The server, and every call of `Allow` that any instance ever made, in the order of their beginnings.
pub record Instances (R F : Type 0) : Type 0 where
  pub server : R
  pub visits : List (Visit F)

module _ {R T F : Type 0} ⦃fl : Float F⦄ (redis : Redis R T F) (ttl : Duration) where
  abbrev pub read_config : Instances R F → String → Time → Instances R F
  read_config s id now =
      let (after, stored) = get_config redis ttl s.server id in
      let cfg = Option.get_or stored default_config in
      record {
        server = after;
        visits = s.visits ++ (record { client = id; progress = asking cfg now } ∷ []);
      }

  abbrev pub run_script : Instances R F → ℕ → Visit F → Config F → Time → Instances R F
  run_script s i v cfg now =
      let (after, reply) =
        redis.run (token_bucket_lua redis (state_key v.client) (arguments redis ttl cfg now))
          s.server in
      record {
        server = after;
        visits = set s.visits i (record v { progress = ruled (decision_of cfg reply) });
      }

  abbrev pub tally : Instances R F → ℕ → Visit F → Decision F → Instances R F
  tally s i v d = record {
    server = record_decision redis ttl s.server v.client d.allowed;
    visits = set s.visits i (record v { progress = tallied d });
  }

  -- What the instances come to from a server that no call has reached, with what became of each
  -- client's bucket, the last first. The keys that EXPIRE gave a time to live lapse between commands.
  pub data Turns (r : R) : List (String × Happening Time) → Instances R F → Type 0 where
    no_turn : Turns r [] (record { server = r; visits = [] })
    reads_config :
        {log : List (String × Happening Time)} {s : Instances R F} (id : String) (now : Time)
        → Turns r log s
        → Turns r log (read_config s id now)
    runs_script :
        {log : List (String × Happening Time)} {s : Instances R F} (i : ℕ) (v : Visit F)
        (cfg : Config F) (now : Time)
        → Turns r log s
        → get_elem? s.visits i ≡ some v
        → v.progress ≡ asking cfg now
        → Turns r ((v.client, ran now) ∷ log) (run_script s i v cfg now)
    tallies :
        {log : List (String × Happening Time)} {s : Instances R F} (i : ℕ) (v : Visit F)
        (d : Decision F)
        → Turns r log s
        → get_elem? s.visits i ≡ some v
        → v.progress ≡ ruled d
        → Turns r log (tally s i v d)
    bucket_lapses :
        {log : List (String × Happening Time)} {s : Instances R F} (id : String) (now : Time)
        → Turns r log s
        → Turns r
            ((id, lapsed now) ∷ log)
            (record s { server = redis.lapse s.server (state_key id) })
    counts_lapse :
        {log : List (String × Happening Time)} {s : Instances R F} (id : String)
        → Turns r log s
        → Turns r log (record s { server = redis.lapse s.server (stats_key id) })
