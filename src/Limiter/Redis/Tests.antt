-- ===== src/Limiter/Redis/Tests.antt =====
-- The Redis store on the server in memory, and the theorems at it.
use mathlib.Core.Option
use token_bucket_rate_limite.Prelude.{◌≡◌, ◌↔◌, ◌⊎◌, refl, none, some, [], ◌∷◌, ℤ, true, arith}
use token_bucket_rate_limite.Float.{num}
use token_bucket_rate_limite.Float.Nano.{Nano, nano_float, Nano-IsOrdered, Nano-IsExact}
use token_bucket_rate_limite.Clock.{at_second}
use token_bucket_rate_limite.Limiter.TokenBucket
use token_bucket_rate_limite.Limiter.TokenBucket.Ideal.{Ideal, embed}
use token_bucket_rate_limite.Limiter.Redis.Memory.{number, Hashes, memory, memory-IsRedis}
use token_bucket_rate_limite.Limiter.Redis.Script.{token_bucket_lua}
use token_bucket_rate_limite.Limiter.Redis.Store.{
  state_key, three_values, closed, decided, get_config, record_decision, allow,
}
use token_bucket_rate_limite.Limiter.Redis.Closed.{
  SaysAllow, config_used, script_run, allow_fails_closed,
}
use token_bucket_rate_limite.Limiter.Redis.Agreement.{
  IsShort, Holds, replies, arguments_of, token_bucket_lua-Holds,
}
use token_bucket_rate_limite.Limiter.Redis.Decisions.{allow-eq-token_bucket}
use token_bucket_rate_limite.Limiter.Redis.Fixtures.{
  half_used, hour, hashes, hashes-Holds, hashes_config,
}

half_used-IsShort : IsShort half_used 6
half_used-IsShort = record {
  in_range = record {
    forward = omega arith;
    seconds_fit = omega arith;
    tokens_fit = omega arith;
    capacity_fits = omega arith;
  };
  millis_fit = omega arith;
  capacity_short = omega arith;
  rate_fits = omega arith;
}

asked_hashes : (get_config memory hour hashes "a").0 ≡ hashes
unfolding get_config
asked_hashes = refl

allow_fails_closed_example :
    let (after, d) = allow memory hour hashes "a" (at_second 6) in
    let (ran, reply) = script_run memory hour hashes "a" (at_second 6) in
    let cfg = config_used memory hour hashes "a" in
    (d.allowed ≡ true ↔ SaysAllow reply)
    × (((Option.bind reply three_values ≡ none) × (d ≡ closed cfg))
        ⊎ ((values : ℤ × ℤ × ℤ) × (Option.bind reply three_values ≡ some values)
            × (d ≡ decided cfg values)))
    × (after ≡ record_decision memory hour ran "a" d.allowed)
allow_fails_closed_example = allow_fails_closed memory hour hashes "a" (at_second 6)

token_bucket_lua-Holds_example :
    let after : Ideal = record { tokens = 2; anchor = 6; capacity = 3; rate = 2 } in
    let (ran, reply) =
      token_bucket_lua memory "ratelimit:state:a"
        (arguments_of memory memory-IsRedis Nano-IsExact half_used 6 3600)
        hashes in
    Holds memory memory-IsRedis Nano-IsExact ran "ratelimit:state:a" after
    × (reply ≡ some (replies after true))
token_bucket_lua-Holds_example =
    token_bucket_lua-Holds memory memory-IsRedis Nano-IsExact half_used 6 3600 hashes
      "ratelimit:state:a" half_used-IsShort (omega arith) (omega arith) hashes-Holds

allow-eq-token_bucket_example :
    (allow memory hour hashes "a" (at_second 6)).1
    ≡ (TokenBucket.allow {F = Nano} (embed half_used) (at_second 6)).1
unfolding get_config state_key
allow-eq-token_bucket_example =
    allow-eq-token_bucket Nano-IsOrdered Nano-IsExact memory memory-IsRedis hour half_used 6 3600
      hashes "a" "token_bucket" half_used-IsShort (omega arith, omega arith, refl) hashes_config
      hashes-Holds (λ f. refl)

-- Client "a" has two allowed requests, client "b" a denied one.
abbrev two_clients : Hashes
two_clients = ("a", ("allowed", number (num 2)) ∷ []) ∷ ("b", ("denied", number (num 1)) ∷ []) ∷ []
