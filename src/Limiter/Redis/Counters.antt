-- ===== src/Limiter/Redis/Counters.antt =====
-- A server in memory whose hashes are counters, one for each client. The tests of `Stats` run on it.
use mathlib.Core.Option
use Prim.Native.String.{[] as no_text, ◌∷◌ as char_then, ◌++◌ as append}
use text.Mathlib.TextLemmas.{nil-append, cons-append}
use token_bucket_rate_limite.Prelude.{
  ℕ, suc, ◌≡◌, ◌≢◌, refl, ap, ◌∙◌, Bool, true, false, not, ◌&&◌, Option, none, some, List, [], ◌∷◌,
  String, str_eq, eq_iff, ℤ, pos, All, Bool-cases, Option-cases, inl, inr, arith, if◌then◌else◌,
}
use token_bucket_rate_limite.Prelude.Map.{GoMap, lookup}
use token_bucket_rate_limite.Float.{num}
use token_bucket_rate_limite.Float.Nano.{Nano, nano_float}
use token_bucket_rate_limite.Limiter.Redis.Server.{Redis}
use token_bucket_rate_limite.Limiter.Redis.Store.{stats_key}
use token_bucket_rate_limite.Limiter.Redis.Memory.{
  Text, as_number, number, word, Hashes, hash, put, hash-put, memory,
}
use token_bucket_rate_limite.Limiter.Redis.Stats.{Scans, stats_prefix}
use token_bucket_rate_limite.Limiter.Redis.Keys.{keys_separate}
use token_bucket_rate_limite.Limiter.Redis.Counts.{is_in, is_empty, IsCounting}

-- The text after a prefix of it.
unfoldable pub strip : String → String → String
strip no_text s = s
strip (char_then c p) no_text = no_text
strip (char_then c p) (char_then d s) = strip p s

strip-append : (p s : String) → strip p (append p s) ≡ s
unfolding strip
strip-append no_text s = nil-append s
strip-append (char_then c p) s = rw (cons-append c p s) (strip-append p s)

abbrev client_of : String → String
client_of key = strip stats_prefix key

client_of-stats_key : (id : String) → client_of (stats_key id) ≡ id
unfolding stats_key
client_of-stats_key id = strip-append stats_prefix id

abbrev pub whole : Text → ℤ
whole (number x) = nano_float.to_ℤ x
whole (word s) = pos 0

-- The keys of the clients that have counts.
unfoldable pub keys_in : Hashes → Hashes → List String
keys_in r [] = []
keys_in r (entry ∷ entries) =
    let rest = keys_in r entries in
    if is_empty (hash r entry.0) then rest else stats_key entry.0 ∷ rest

abbrev pub counters : Redis Hashes Text Nano
counters = record memory {
  hget_all = λ r key. (r, some (hash r (client_of key)));
  hincr_by = λ r key field n. memory.hincr_by r (client_of key) field n;
  lapse = λ r key. memory.lapse r (client_of key);
}

abbrev pub counter_scans : Scans Hashes Text
counter_scans = record {
  scan = λ r pattern. (r, keys_in r r);
  parse_int = whole;
  trim_prefix = λ key prefix. strip prefix key;
}

whole-increment :
    (o : Option Text) (n : ℕ)
    → whole (Option.get_or o (word "")) ≡ pos n
    → whole (number (nano_float.add (Option.get_or (Option.bind o as_number) (num 0)) (num 1)))
      ≡ pos (suc n)
unfolding Option.bind
whole-increment none n e = ground arith
whole-increment (some (word s)) n e = ground arith
whole-increment (some (number x)) n e = ground arith

keys_in-matched :
    (r entries : Hashes) → All (λ k. (id : String) × (k ≡ stats_key id)) (keys_in r entries)
unfolding keys_in
keys_in-matched r [] = tt
keys_in-matched r ((id, f) ∷ entries) = elim (Bool-cases (is_empty (hash r id))) [
  | inl e ↦ rw e (keys_in-matched r entries)
  | inr e ↦ rw e ((id, refl), keys_in-matched r entries)
]

abbrev has {ℓ} : {A : Type ℓ} → Option A → Bool
has none = false
has (some x) = true

keys_in-present :
    (r entries : Hashes) (id : String)
    → is_in (stats_key id) (keys_in r entries)
      ≡ (has (lookup id entries) && not (is_empty (hash r id)))
unfolding keys_in lookup
keys_in-present r [] id = refl
keys_in-present r ((j, f) ∷ entries) id = ground (
  arith,
  keys_in-present r entries id,
  eq_iff j id,
  eq_iff (stats_key j) (stats_key id),
  (keys_separate j id).5,
  ap stats_key {x = j} {y = id},
  ap (hash r) {x = j} {y = id},
)

hash-has :
    (r : Hashes) (id : String)
    → (has (lookup id r) && not (is_empty (hash r id))) ≡ not (is_empty (hash r id))
unfolding hash
hash-has r id = elim (Option-cases (lookup id r)) [
  | inl e ↦ rw (e, hash)
  | inr (f, e) ↦ rw (e, hash)
]

-- One field put into a hash, and the lookups after it.
put_one :
    (r : Hashes) (id field : String) (t : Text)
    → hash (put r id ((field, t) ∷ [])) id ≡ (field, t) ∷ hash r id
put_one r id field t = ground (arith, hash-put r id id ((field, t) ∷ []), eq_iff id id)

put_apart :
    (r : Hashes) (id other field : String) (t : Text)
    → id ≢ other
    → hash (put r id ((field, t) ∷ [])) other ≡ hash r other
put_apart r id other field t ne =
    ground (arith, hash-put r id other ((field, t) ∷ []), eq_iff id other, ne)

lookup_first :
    (field other : String) (t : Text) (f : GoMap Text)
    → lookup other ((field, t) ∷ f) ≡ (if str_eq field other then some t else lookup other f)
unfolding lookup
lookup_first field other t f = refl

pub counters-IsCounting : IsCounting counters counter_scans
counters-IsCounting = record {
  fields = λ r key. hash r (client_of key);
  keys = λ r. keys_in r r;
  read = λ r key. refl;
  scanned = λ r. refl;
  matched = λ r. keys_in-matched r r;
  present = λ r id. rw (client_of-stats_key id) (keys_in-present r r id ∙ hash-has r id);
  trimmed = λ id. client_of-stats_key id;
  no_number = refl;
  incremented = λ r id field n e few.
      let before = rw (client_of-stats_key id) at e in
      let new = number (
        nano_float.add (Option.get_or (Option.bind (lookup field (hash r id)) as_number) (num 0))
          (num 1)) in
      let found : lookup field ((field, new) ∷ hash r id) ≡ some new =
        ground (arith, lookup_first field field new (hash r id), eq_iff field field) in
      rw (client_of-stats_key id, put_one r id field new, found)
        (refl, refl, whole-increment (lookup field (hash r id)) n before);
  increment_kept = λ r id field other ne.
      let new = number (
        nano_float.add (Option.get_or (Option.bind (lookup field (hash r id)) as_number) (num 0))
          (num 1)) in
      rw (client_of-stats_key id, put_one r id field new)
        (ground (arith, lookup_first field other new (hash r id), eq_iff field other, ne));
  increment_apart = λ r id other field ne.
      rw (client_of-stats_key id, client_of-stats_key other) (put_apart r id other field _ ne);
  expired = λ r key other ttl. refl;
}
