-- ===== src/Limiter/Redis/Memory.antt =====
-- A server in memory that always answers, and that has the laws of `IsRedis`. The tests run on it.
use mathlib.Core.Option
use token_bucket_rate_limite.Prelude.{
  ◌≡◌, refl, ap, ◌∙◌, Option, none, some, List, [], ◌∷◌, ◌++◌, String, true, str_eq, eq_iff, arith,
  if◌then◌else◌,
}
use token_bucket_rate_limite.Prelude.Map.{
  GoMap, lookup, insert, delete, lookup-insert, lookup-delete,
}
use token_bucket_rate_limite.Float.{num}
use token_bucket_rate_limite.Float.Nano.{Nano, nano_float}
use token_bucket_rate_limite.Limiter.Redis.Counts.{is_in}
use token_bucket_rate_limite.Limiter.Redis.Server.{Redis, IsRedis, reply_of}

pub data Text : Type 0 where
  number : Nano → Text
  word : String → Text

abbrev pub as_number : Text → Option Nano
as_number (number x) = some x
as_number (word s) = none

abbrev as_word : Text → String
as_word (number x) = ""
as_word (word s) = s

abbrev pub Hashes : Type 0
Hashes = GoMap (GoMap Text)

unfoldable pub hash : Hashes → String → GoMap Text
unfolding lookup
hash r key = Option.get_or (lookup key r) []

-- The new fields hide the old ones.
unfoldable pub put : Hashes → String → GoMap Text → Hashes
unfolding hash insert
put r key fields = insert key (fields ++ hash r key) r

abbrev pub drop : Hashes → List String → Hashes
drop r [] = r
drop r (key ∷ keys) = drop (delete key r) keys

abbrev pub memory : Redis Hashes Text Nano
memory = record {
  hget = λ r key field. lookup field (hash r key);
  hset_call = put;
  expire_call = λ r key seconds. r;
  tonumber = as_number;
  tostring = number;
  of_float = number;
  of_int = λ n. number (nano_float.of_ℤ n);
  of_string = word;
  to_string = as_word;
  empty = word "";
  parse_float = λ t. Option.get_or (as_number t) (num 0);
  run = λ f r. ((f r).0, Option.map reply_of (f r).1);
  hget_all = λ r key. (r, some (hash r key));
  hset = λ r key fields. (put r key fields, true);
  del = λ r keys. (drop r keys, true);
  hincr_by = λ r key field n.
      let old = Option.get_or (Option.bind (lookup field (hash r key)) as_number) (num 0) in
      (put r key ((field, number (nano_float.add old (nano_float.of_ℤ n))) ∷ []), true);
  expire = λ r key d. (r, true);
  lapse = λ r key. drop r (key ∷ []);
}

pub lookup-append :
    (field : String) (fields old : GoMap Text) (t : Text)
    → lookup field fields ≡ some t
    → lookup field (fields ++ old) ≡ some t
unfolding lookup
lookup-append field [] old t h = ground arith
lookup-append field (entry ∷ fields) old t h = ground (arith, lookup-append field fields old t)

pub hash-drop :
    (keys : List String) (r : Hashes) (key : String)
    → hash (drop r keys) key ≡ (if is_in key keys then [] else hash r key)
unfolding hash
hash-drop [] r key = refl
hash-drop (k ∷ keys) r key = ground (arith, hash-drop keys (delete k r) key, lookup-delete k key r)

pub hash-put :
    (r : Hashes) (key other : String) (fields : GoMap Text)
    → hash (put r key fields) other
      ≡ (if str_eq key other then fields ++ hash r key else hash r other)
unfolding hash put
hash-put r key other fields =
    ground (arith, lookup-insert key other (fields ++ hash r key) r, eq_iff key other)

pub memory-IsRedis : IsRedis memory
memory-IsRedis = record {
  hget-hset_call = λ r key field fields t h.
      ap (lookup field) (hash-put r key key fields)
      ∙ ground (arith, eq_iff key key, lookup-append field fields (hash r key) t h);
  hget-hset_call_ne = λ r key other field fields ne.
      ap (lookup field) (hash-put r key other fields) ∙ ground (arith, eq_iff key other, ne);
  hget-expire_call = λ r key other field seconds h. refl;
  tonumber-of_float = λ n h. refl;
  tonumber-of_int = λ n h. refl;
  tonumber-tostring = λ n h. refl;
}
