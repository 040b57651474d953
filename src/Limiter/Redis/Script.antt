-- ===== src/Limiter/Redis/Script.antt =====
-- The Lua script of internal/limiter/redisstore.go. Lua's numbers are float64.
use mathlib.Core.Option
use token_bucket_rate_limite.Prelude.{Option, none, some, List, [], ◌∷◌, String, if◌then◌else◌}
use token_bucket_rate_limite.Float.{Float, num}
use token_bucket_rate_limite.Limiter.Redis.Server.{Redis}

-- The script's ARGV.
pub record Arguments (T : Type 0) : Type 0 where
  pub capacity : T
  pub refill_rate : T
  pub now_millis : T
  pub ttl_seconds : T

-- The bucket that is read, or a full one if a field is missing.
unfoldable pub loaded : {F : Type 0} → Option F → Option F → F → F → F × F
loaded (some tokens) (some ts) capacity now = (tokens, ts)
loaded (some tokens) none capacity now = (capacity, now)
loaded none ts capacity now = (capacity, now)

module _ {R T F : Type 0} ⦃fl : Float F⦄ (redis : Redis R T F) where
  open redis use {hget, hset_call, expire_call, tonumber, tostring}

  -- `tonumber(redis.call('HGET', key, field))`
  unfoldable pub read_number : R → String → String → Option F
  unfolding Option.bind
  read_number r key field = Option.bind (hget r key field) tonumber

  -- Refill: the tokens at `now`, by math.min.
  unfoldable pub refilled : F × F → F → F → F → F
  refilled (tokens, ts) capacity refill_rate now =
      let elapsed = fl.div (fl.sub now ts) (num 1000) in
      let grown = fl.add tokens (fl.mul elapsed refill_rate) in
      if fl.lt grown capacity then grown else capacity

  -- From the refill on, with the numbers that the arguments stand for.
  unfoldable pub refill_and_consume : String → F → F → F → T → R → R × Option (List F)
  refill_and_consume key capacity refill_rate now ttl_seconds r =
      let bucket = loaded (read_number r key "tokens") (read_number r key "ts") capacity now in
      let tokens = refilled bucket capacity refill_rate now in
      let allowed = fl.le (num 1) tokens in
      let left = if allowed then fl.sub tokens (num 1) else tokens in
      let written = hset_call r key (("tokens", tostring left) ∷ ("ts", tostring now) ∷ []) in
      elim (tonumber ttl_seconds) [
        | none ↦ (written, none)
        | some ttl ↦ (
          expire_call written key ttl,
          some ((if allowed then num 1 else num 0) ∷ fl.floor left ∷ capacity ∷ []),
        )
      ]

  -- Arithmetic on an argument that is no number is a Lua error.
  unfoldable pub token_bucket_lua : String → Arguments T → R → R × Option (List F)
  token_bucket_lua key argv r = elim (tonumber argv.capacity) [
    | none ↦ (r, none)
    | some capacity ↦ elim (tonumber argv.refill_rate) [
      | none ↦ (r, none)
      | some refill_rate ↦ elim (tonumber argv.now_millis) [
        | none ↦ (r, none)
        | some now ↦ refill_and_consume key capacity refill_rate now argv.ttl_seconds r
      ]
    ]
  ]
