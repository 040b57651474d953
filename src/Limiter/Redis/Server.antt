-- ===== src/Limiter/Redis/Server.antt =====
-- What internal/limiter/redisstore.go uses of a Redis server, of Lua and of the package go-redis,
-- over any type `R` of states of the server and `T` of strings that it stores.
use mathlib.Core.List.{map}
use token_bucket_rate_limite.Prelude.{
  ℕ, ◌^◌, ◌≤◌, ◌<◌, ◌≡◌, ◌≢◌, Bool, Option, some, List, String, ℤ, pos,
}
use token_bucket_rate_limite.Prelude.Map.{GoMap, lookup}
use token_bucket_rate_limite.Float.{Float, num}
use token_bucket_rate_limite.Float.Exact.{exact_max}
use token_bucket_rate_limite.Clock.{Duration}

-- A script's reply, as go-redis gives it: a `[]interface{}` whose elements may be int64 values.
pub data Value : Type 0 where
  integer : ℤ → Value
  no_integer : Value

pub data Reply : Type 0 where
  array : List Value → Reply
  no_array : Reply

pub record Redis (R T F : Type 0) : Type 0 where
  -- redis.call('HGET', …), redis.call('HSET', …) and redis.call('EXPIRE', …) in a script
  pub hget : R → String → String → Option T
  pub hset_call : R → String → GoMap T → R
  pub expire_call : R → String → F → R
  -- Lua's conversions
  pub tonumber : T → Option F
  pub tostring : F → T
  -- the strings that go-redis sends for a float64, an int64 and a string, and back
  pub of_float : F → T
  pub of_int : ℤ → T
  pub of_string : String → T
  pub to_string : T → String
  pub empty : T
  -- strconv.ParseFloat, whose error is ignored
  pub parse_float : T → F
  -- The client's methods. A script gives its table of numbers, or stops at a Lua error. An answer
  -- `none` or `false` is an error; what it leaves behind is open.
  pub run : (R → R × Option (List F)) → R → R × Option Reply
  pub hget_all : R → String → R × Option (GoMap T)
  pub hset : R → String → GoMap T → R × Bool
  pub del : R → List String → R × Bool
  pub hincr_by : R → String → String → ℤ → R × Bool
  pub expire : R → String → Duration → R × Bool
  -- The key goes away, as EXPIRE has it when its time to live has run out.
  pub lapse : R → String → R

-- What Redis and Lua document of hashes and numbers: HSET sets the fields that it names, EXPIRE
-- with a positive time keeps them until the key lapses, `tostring` writes 14 digits.
pub record IsRedis {R T F : Type 0} ⦃fl : Float F⦄ (redis : Redis R T F) : Type 0 where
  pub hget-hset_call :
      (r : R) (key field : String) (fields : GoMap T) (t : T)
      → lookup field fields ≡ some t
      → redis.hget (redis.hset_call r key fields) key field ≡ some t
  pub hget-hset_call_ne :
      (r : R) (key other field : String) (fields : GoMap T)
      → key ≢ other
      → redis.hget (redis.hset_call r key fields) other field ≡ redis.hget r other field
  pub hget-expire_call :
      (r : R) (key other field : String) (seconds : ℕ)
      → 0 < seconds
      → redis.hget (redis.expire_call r key (num seconds)) other field ≡ redis.hget r other field
  pub tonumber-of_float :
      (n : ℕ) → n ≤ exact_max → redis.tonumber (redis.of_float (num n)) ≡ some (num n)
  pub tonumber-of_int :
      (n : ℕ) → n ≤ exact_max → redis.tonumber (redis.of_int (pos n)) ≡ some (num n)
  pub tonumber-tostring :
      (n : ℕ) → n < 10 ^ 14 → redis.tonumber (redis.tostring (num n)) ≡ some (num n)

-- Redis cuts the numbers of a script's table to integers.
abbrev pub reply_of : {F : Type 0} ⦃fl : Float F⦄ → List F → Reply
reply_of ⦃fl⦄ xs = array (map (λ x. integer (fl.to_ℤ x)) xs)
