-- ===== src/Limiter/Redis/Store.antt =====
-- The methods of `RedisStore` in internal/limiter/redisstore.go, but for `Stats`. A method threads
-- the state of the server through the calls of the client in the code's order.
use mathlib.Core.Option
use Prim.Native.String.{◌++◌ as append}
use token_bucket_rate_limite.Prelude.{
  ◌/◌, Bool, false, ◌==◌, Option, none, some, [], ◌∷◌, String, ℤ, pos, negsuc, if◌then◌else◌,
}
use token_bucket_rate_limite.Prelude.Map.{GoMap, lookup}
use token_bucket_rate_limite.Float.{Float, num}
use token_bucket_rate_limite.Clock.{Time, Duration}
use token_bucket_rate_limite.Limiter.Config.{Config, ConfigError, validate}
use token_bucket_rate_limite.Limiter.Decision.{Decision, never_refills}
use token_bucket_rate_limite.Limiter.Manager.{default_config}
use token_bucket_rate_limite.Limiter.Redis.Server.{Redis, Value, integer, no_integer, Reply, array}
use token_bucket_rate_limite.Limiter.Redis.Script.{Arguments, token_bucket_lua}

unfoldable pub state_key : String → String
state_key id = append "ratelimit:state:" id

unfoldable pub config_key : String → String
config_key id = append "ratelimit:config:" id

unfoldable pub stats_key : String → String
stats_key id = append "ratelimit:stats:" id

-- time.UnixMilli, which rounds down
unfoldable pub unix_milli : Time → ℤ
unix_milli (pos n) = pos (n / 1_000_000)
unix_milli (negsuc n) = negsuc (n / 1_000_000)

-- `v, _ := value.(int64)`
abbrev pub int_of : Value → ℤ
int_of (integer n) = n
int_of no_integer = pos 0

-- `values, ok := res.([]interface{})` and the length, which is to be 3
abbrev pub three_values : Reply → Option (ℤ × ℤ × ℤ)
three_values (array (a ∷ b ∷ c ∷ [])) = some (int_of a, int_of b, int_of c)
three_values _ = none

abbrev pub is_one : ℤ → Bool
is_one (pos n) = n == 1
is_one (negsuc n) = false

-- The errors of `SetConfig`: of the validation, and of the two calls.
pub data StoreError (F : Type 0) : Type 0 where
  invalid : ConfigError F → StoreError F
  not_stored : StoreError F
  stale_state : StoreError F

module _ {F : Type 0} ⦃fl : Float F⦄ where
  unfoldable pub retry_after_from_remaining : Bool → F → F → Duration
  retry_after_from_remaining allowed remaining rate =
      if allowed
      then pos 0
      else if fl.le rate (num 0)
      then never_refills
      else let seconds = fl.div (fl.sub (num 1) remaining) rate in
        let clamped = if fl.lt seconds (num 0) then num 0 else seconds in
        fl.to_ℤ (fl.mul clamped (num 1_000_000_000))

  unfoldable pub reset_after_from_remaining : F → F → F → Duration
  reset_after_from_remaining limit remaining rate =
      if fl.le limit remaining
      then pos 0
      else if fl.le rate (num 0)
      then never_refills
      else let seconds = fl.div (fl.sub limit remaining) rate in
        fl.to_ℤ (fl.mul seconds (num 1_000_000_000))

  -- The decision of a request that fails closed.
  abbrev pub closed : Config F → Decision F
  closed cfg = record {
    allowed = false;
    limit = cfg.burst;
    remaining = num 0;
    retry_after = pos 0;
    reset_after = pos 0;
  }

  abbrev pub decided : Config F → ℤ × ℤ × ℤ → Decision F
  decided cfg (allowed_int, remaining_int, limit_int) =
      let allowed = is_one allowed_int in
      let remaining = fl.of_ℤ remaining_int in
      let limit = fl.of_ℤ limit_int in
      record {
        allowed = allowed;
        limit = limit;
        remaining = remaining;
        retry_after = retry_after_from_remaining allowed remaining cfg.rps;
        reset_after = reset_after_from_remaining limit remaining cfg.rps;
      }

  -- An error of the client or of the script, and a reply of another form, fail closed.
  unfoldable pub decision_of : Config F → Option Reply → Decision F
  decision_of cfg none = closed cfg
  decision_of cfg (some reply) = elim (three_values reply) [
    | none ↦ closed cfg
    | some values ↦ decided cfg values
  ]

module _ {R T F : Type 0} ⦃fl : Float F⦄ (redis : Redis R T F) (ttl : Duration) where
  open redis use {
    of_float, of_int, of_string, to_string, empty, parse_float, run, hget_all, hset, del, hincr_by,
    expire,
  }

  -- The config that the fields of a hash stand for; a missing field is an empty string.
  unfoldable pub config_of_fields : GoMap T → Option (Config F)
  config_of_fields [] = none
  config_of_fields fields = some (record {
    rps = parse_float (Option.get_or (lookup "rps" fields) empty);
    burst = parse_float (Option.get_or (lookup "burst" fields) empty);
    algorithm = to_string (Option.get_or (lookup "algorithm" fields) empty);
  })

  unfoldable pub get_config : R → String → R × Option (Config F)
  get_config r id =
      let (after, fields) = hget_all r (config_key id) in
      (after, Option.bind fields config_of_fields)

  unfoldable pub record_decision : R → String → Bool → R
  record_decision r id allowed =
      let key = stats_key id in
      let (counted, ok) = hincr_by r key (if allowed then "allowed" else "denied") (pos 1) in
      if ok then (expire counted key ttl).0 else counted

  unfoldable pub arguments : Config F → Time → Arguments T
  arguments cfg now = record {
    capacity = of_float cfg.burst;
    refill_rate = of_float cfg.rps;
    now_millis = of_int (unix_milli now);
    ttl_seconds = of_int (fl.to_ℤ (fl.seconds ttl));
  }

  unfoldable pub allow : R → String → Time → R × Decision F
  allow r id now =
      let (asked, stored) = get_config r id in
      let cfg = Option.get_or stored default_config in
      let (ran, reply) = run (token_bucket_lua redis (state_key id) (arguments cfg now)) asked in
      let d = decision_of cfg reply in (record_decision ran id d.allowed, d)

  -- `none` is the nil error.
  unfoldable pub set_config : R → String → Config F → R × Option (StoreError F)
  set_config r id cfg = elim (validate cfg) [
    | some e ↦ (r, some (invalid e))
    | none ↦
        let fields =
          ("rps", of_float cfg.rps)
          ∷ ("burst", of_float cfg.burst)
          ∷ ("algorithm", of_string cfg.algorithm)
          ∷ [] in
        let (stored, ok) = hset r (config_key id) fields in
        let (dropped, gone) = del stored (state_key id ∷ []) in
        if ok
        then (if gone then (dropped, none) else (dropped, some stale_state))
        else (stored, some not_stored)
  ]

  unfoldable pub remove_client : R → String → R
  remove_client r id = (del r (config_key id ∷ state_key id ∷ [])).0
