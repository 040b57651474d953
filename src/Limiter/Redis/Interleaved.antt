-- ===== src/Limiter/Redis/Interleaved.antt =====
-- Two instances that serve one client at the same time, on the server in memory, and the theorem at
-- them.
use mathlib.Core.Option
use token_bucket_rate_limite.Prelude.{
  ◌+◌, ◌-◌, ◌*◌, ◌≤◌, refl, ◌∙◌, List, [], ◌∷◌, String, total, arith, eq_iff,
}
use token_bucket_rate_limite.Prelude.Map.{lookup}
use token_bucket_rate_limite.Float.Nano.{Nano, nano_float, Nano-IsOrdered, Nano-IsExact}
use token_bucket_rate_limite.Clock.{Time, at_second}
use token_bucket_rate_limite.Limiter.Redis.Memory.{
  Hashes, hash, memory, memory-IsRedis, hash-put, hash-drop,
}
use token_bucket_rate_limite.Limiter.Redis.Store.{
  config_key, state_key, get_config, config_of_fields,
}
use token_bucket_rate_limite.Limiter.Redis.Apart.{IsAnswering}
use token_bucket_rate_limite.Limiter.Redis.Served.{admits, IsPlain}
use token_bucket_rate_limite.Limiter.Redis.Instances.{
  Visit, asking, Instances, run_script, Happening, ran, lapsed, Turns, bucket_lapses, no_turn,
  reads_config, runs_script,
}
use token_bucket_rate_limite.Limiter.Redis.Limits.{allowed_everywhere-le}
use token_bucket_rate_limite.Limiter.Redis.Fixtures.{
  half_used, half_used_config, hour, hashes, hashes-Holds, hashes_config,
}

memory-IsAnswering : IsAnswering memory
unfolding hash
memory-IsAnswering = record {
  fields = hash;
  read = λ r key. refl;
  hget_read = λ r key field. refl;
  runs = λ f r. refl;
  hset_call_apart =
      λ r key other new ne. hash-put r key other new ∙ ground (arith, eq_iff key other, ne);
  expire_call_apart = λ r key other seconds ne. refl;
  hincr_by_apart =
      λ r key other field n ne. hash-put r key other _ ∙ ground (arith, eq_iff key other, ne);
  expire_apart = λ r key other d ne. refl;
  lapsed = λ r key. hash-drop (key ∷ []) r key ∙ ground (arith, eq_iff key key);
  lapse_apart =
      λ r key other ne. hash-drop (key ∷ []) r other ∙ ground (arith, eq_iff key other, ne);
}

half_used-IsPlain : IsPlain Nano hour half_used 3606 3600
half_used-IsPlain = record {
  fits = record { within = omega arith; seconds_fit = omega arith; tokens_fit = omega arith };
  millis_fit = omega arith;
  capacity_short = omega arith;
  rate_fits = omega arith;
  fills = omega arith;
  lifetime = (omega arith, omega arith, refl);
}

abbrev asked : Instances Hashes Nano
asked = record {
  server = hashes;
  visits =
      record { client = "a"; progress = asking half_used_config (at_second 6) }
      ∷ record { client = "a"; progress = asking half_used_config (at_second 6) }
      ∷ [];
}

abbrev visit : Visit Nano
visit = record { client = "a"; progress = asking half_used_config (at_second 6) }

-- Both instances have read the config when the first script runs.
abbrev first_ran : Instances Hashes Nano
first_ran = run_script memory hour asked 1 visit half_used_config (at_second 6)

abbrev both_ran : Instances Hashes Nano
both_ran = run_script memory hour first_ran 0 visit half_used_config (at_second 6)

asked-Turns : Turns memory hour hashes [] asked
unfolding get_config config_of_fields config_key hash lookup Option.bind
asked-Turns = reads_config "a" (at_second 6) (reads_config "a" (at_second 6) no_turn)

abbrev log : List (String × Happening Time)
log = ("a", ran (at_second 6)) ∷ ("a", ran (at_second 6)) ∷ []

both_ran-Turns : Turns memory hour hashes log both_ran
both_ran-Turns =
    runs_script 0 visit half_used_config (at_second 6)
      (runs_script 1 visit half_used_config (at_second 6) asked-Turns refl refl) refl refl

-- An hour later the bucket lapses.
abbrev lapsed_then : Instances Hashes Nano
lapsed_then = record both_ran { server = memory.lapse both_ran.server "ratelimit:state:a" }

lapsed_then-Turns : Turns memory hour hashes (("a", lapsed (at_second 3606)) ∷ log) lapsed_then
unfolding state_key
lapsed_then-Turns = bucket_lapses "a" (at_second 3606) both_ran-Turns

allowed_everywhere-le_example : total (admits "a") lapsed_then.visits ≤ 2 + (3606 - 5) * 2
unfolding state_key
allowed_everywhere-le_example =
    allowed_everywhere-le memory memory-IsAnswering hour Nano-IsOrdered Nano-IsExact memory-IsRedis
      half_used "a" "token_bucket" 3606 3600 half_used-IsPlain (lapsed 3606 ∷ ran 6 ∷ ran 6 ∷ [])
      hashes-Holds hashes_config lapsed_then-Turns refl
      (omega arith, omega arith, (omega arith, (omega arith, omega arith)))
