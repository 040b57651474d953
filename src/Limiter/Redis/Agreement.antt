-- ===== src/Limiter/Redis/Agreement.antt =====
-- The store of internal/limiter/redisstore.go against the token bucket in memory, at whole seconds
-- and with whole tokens, on a server that answers.
use mathlib.Core.Option
use token_bucket_rate_limite.Prelude.{
  ℕ, ◌+◌, ◌-◌, ◌*◌, ◌^◌, ◌≤◌, ◌<◌, ◌≡◌, refl, Bool, some, List, [], ◌∷◌, String, pos, arith, ◌∙◌,
  leb, if◌then◌else◌,
}
use token_bucket_rate_limite.Prelude.Map.{lookup}
use token_bucket_rate_limite.Float.{Float, num}
use token_bucket_rate_limite.Float.Exact.{IsExact, exact_max}
use token_bucket_rate_limite.Limiter.TokenBucket.Ideal.{Ideal, accrued, ideal_allow, InRange}
use token_bucket_rate_limite.Limiter.Redis.Server.{Redis, IsRedis}
use token_bucket_rate_limite.Limiter.Redis.Script.{
  Arguments, loaded, read_number, refilled, refill_and_consume, token_bucket_lua,
}

-- What Lua's 14 digits and float64 hold until the second `s`, in milliseconds.
pub record IsShort (i : Ideal) (s : ℕ) : Type 0 where
  pub in_range : InRange i s
  pub millis_fit : s * 1000 < 10 ^ 14
  pub capacity_short : i.capacity < 10 ^ 14
  pub rate_fits : i.rate ≤ exact_max

-- The numbers that the script replies with.
abbrev pub replies : {F : Type 0} ⦃fl : Float F⦄ → Ideal → Bool → List F
replies after verdict =
    (if verdict then num 1 else num 0) ∷ num after.tokens ∷ num after.capacity ∷ []

module _ {R T F : Type 0} ⦃fl : Float F⦄ (redis : Redis R T F) (laws : IsRedis redis)
    (exact : IsExact F) where
  open exact use {lt-num, le-num, add-num, sub-num, mul-num, div-num, floor-num}

  -- The hash of the key holds the bucket.
  abbrev pub Holds : R → String → Ideal → Type 0
  Holds r key i =
      (read_number redis r key "tokens" ≡ some (num i.tokens))
      × (read_number redis r key "ts" ≡ some (num (i.anchor * 1000)))

  -- The bucket that the script reads at the second `s`: what the hash holds, or a full one.
  abbrev pub Loads : R → String → Ideal → ℕ → Type 0
  Loads r key i s =
      loaded (read_number redis r key "tokens") (read_number redis r key "ts") (num i.capacity)
        (num (s * 1000))
      ≡ (num i.tokens, num (i.anchor * 1000))

  pub Holds-Loads : (r : R) (key : String) (i : Ideal) (s : ℕ) → Holds r key i → Loads r key i s
  unfolding loaded
  Holds-Loads r key i s (tokens, ts) = rw (tokens, ts, loaded) refl

  refilled-num :
      (i : Ideal) (s : ℕ)
      → IsShort i s
      → refilled redis
          (num i.tokens, num (i.anchor * 1000))
          (num i.capacity)
          (num i.rate)
          (num (s * 1000))
        ≡ num (accrued i s)
  unfolding refilled
  refilled-num i s h =
      let d = s - i.anchor in
      let open_forward = h.in_range.forward in
      let split : s * 1000 - i.anchor * 1000 ≡ d * 1000 = omega arith in
      rw
        (
          sub-num (s * 1000) (i.anchor * 1000) (omega arith) (omega arith),
          split,
          div-num d 1000 (omega arith) (omega arith),
          mul-num d i.rate (omega (arith, h.in_range.tokens_fit)),
          add-num i.tokens (d * i.rate) h.in_range.tokens_fit,
          lt-num (i.tokens + d * i.rate) i.capacity h.in_range.tokens_fit h.in_range.capacity_fits,
        )
        (ground arith)

  left-num :
      (t : ℕ) → t ≤ exact_max → (if leb 1 t then fl.sub (num t) (num 1) else num t) ≡ num (t - 1)
  left-num t h = ground (arith, sub-num t 1)

  read_number_of :
      (r : R) (key field : String) (t : T) (n : ℕ)
      → redis.hget r key field ≡ some t
      → redis.tonumber t ≡ some (num n)
      → read_number redis r key field ≡ some (num n)
  unfolding read_number Option.bind
  read_number_of r key field t n e f = rw e f

  -- What the script writes.
  written : R → String → ℕ → ℕ → ℕ → R
  written r key tokens millis ttl =
      redis.expire_call
        (redis.hset_call r key
          (("tokens", redis.tostring (num tokens)) ∷ ("ts", redis.tostring (num millis)) ∷ []))
        key (num ttl)

  read_written :
      (r : R) (key : String) (tokens millis ttl : ℕ)
      → tokens < 10 ^ 14
      → millis < 10 ^ 14
      → 0 < ttl
      → (read_number redis (written r key tokens millis ttl) key "tokens" ≡ some (num tokens))
        × (read_number redis (written r key tokens millis ttl) key "ts" ≡ some (num millis))
  unfolding written lookup
  read_written r key tokens millis ttl h k some_ttl =
      let fields =
        ("tokens", redis.tostring (num tokens)) ∷ ("ts", redis.tostring (num millis)) ∷ [] in
      let set = redis.hset_call r key fields in
      (
        read_number_of (written r key tokens millis ttl) key "tokens" (redis.tostring (num tokens))
            tokens
            (laws.hget-expire_call set key key "tokens" ttl some_ttl
              ∙ laws.hget-hset_call r key "tokens" fields (redis.tostring (num tokens)) refl)
            (laws.tonumber-tostring tokens h),
        read_number_of (written r key tokens millis ttl) key "ts" (redis.tostring (num millis))
            millis
            (laws.hget-expire_call set key key "ts" ttl some_ttl
              ∙ laws.hget-hset_call r key "ts" fields (redis.tostring (num millis)) refl)
            (laws.tonumber-tostring millis k),
      )

  refill_and_consume-num :
      (i : Ideal) (s ttl : ℕ) (r : R) (key : String) (ttl_seconds : T)
      → IsShort i s
      → redis.tonumber ttl_seconds ≡ some (num ttl)
      → Loads r key i s
      → let (after, verdict) = ideal_allow i s in
        refill_and_consume redis key (num i.capacity) (num i.rate) (num (s * 1000)) ttl_seconds r
        ≡ (written r key after.tokens (s * 1000) ttl, some (replies after verdict))
  unfolding refill_and_consume written
  refill_and_consume-num i s ttl r key ttl_seconds h is_ttl loads =
      let t = accrued i s in
      rw
        (
          is_ttl,
          refill_and_consume,
          loads,
          refilled-num i s h,
          le-num 1 t (omega arith) (omega arith),
          left-num t (omega arith),
          floor-num (t - 1) (omega arith),
        )
        refl

  -- The script's arguments for the numbers of the bucket.
  abbrev pub arguments_of : Ideal → ℕ → ℕ → Arguments T
  arguments_of i s ttl = record {
    capacity = redis.of_float (num i.capacity);
    refill_rate = redis.of_float (num i.rate);
    now_millis = redis.of_int (pos (s * 1000));
    ttl_seconds = redis.of_int (pos ttl);
  }

  token_bucket_lua-num :
      (i : Ideal) (s ttl : ℕ) (r : R) (key : String)
      → IsShort i s
      → ttl ≤ exact_max
      → Loads r key i s
      → let (after, verdict) = ideal_allow i s in
        token_bucket_lua redis key (arguments_of i s ttl) r
        ≡ (written r key after.tokens (s * 1000) ttl, some (replies after verdict))
  unfolding token_bucket_lua
  token_bucket_lua-num i s ttl r key h ttl_fits loads =
      rw
        (
          token_bucket_lua,
          laws.tonumber-of_float i.capacity (omega (arith, h.capacity_short)),
          laws.tonumber-of_float i.rate h.rate_fits,
          laws.tonumber-of_int (s * 1000) (omega (arith, h.millis_fit)),
        )
        (refill_and_consume-num i s ttl r key (redis.of_int (pos ttl)) h
          (laws.tonumber-of_int ttl ttl_fits) loads)

  -- The script on a bucket that it reads.
  pub token_bucket_lua-Loads :
      (i : Ideal) (s ttl : ℕ) (r : R) (key : String)
      → IsShort i s
      → 0 < ttl
      → ttl ≤ exact_max
      → Loads r key i s
      → let (after, verdict) = ideal_allow i s in
        let (ran, reply) = token_bucket_lua redis key (arguments_of i s ttl) r in
        Holds ran key after × (reply ≡ some (replies after verdict))
  token_bucket_lua-Loads i s ttl r key h some_ttl ttl_fits loads =
      let t = accrued i s in
      rw (token_bucket_lua-num i s ttl r key h ttl_fits loads) (
        read_written r key (t - 1) (s * 1000) ttl (omega (arith, h.capacity_short)) h.millis_fit
            some_ttl,
        refl,
      )

  -- On a hash that holds a bucket of whole tokens, with whole rate and capacity, at a whole second
  -- that is not before the bucket's last refill, with a lifetime of whole seconds above 0, where
  -- Redis and Lua do as documented and no number exceeds what they and float64 hold exactly, the
  -- script does what the ideal bucket does: its reply is the same verdict and the same tokens left,
  -- and the hash holds the bucket after the request.
  pub token_bucket_lua-Holds :
      (i : Ideal) (s ttl : ℕ) (r : R) (key : String)
      → IsShort i s
      → 0 < ttl
      → ttl ≤ exact_max
      → Holds r key i
      → let (after, verdict) = ideal_allow i s in
        let (ran, reply) = token_bucket_lua redis key (arguments_of i s ttl) r in
        Holds ran key after × (reply ≡ some (replies after verdict))
  token_bucket_lua-Holds i s ttl r key h some_ttl ttl_fits holds =
      token_bucket_lua-Loads i s ttl r key h some_ttl ttl_fits (Holds-Loads r key i s holds)
