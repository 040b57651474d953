-- ===== src/Limiter/Persistence.antt =====
-- internal/limiter/persistence.go: the serializable state of the limiters and of a Manager.
use token_bucket_rate_limite.Prelude.{String, Option, none, some, str_eq, if◌then◌else◌, ◌≡◌, refl}
use mathlib.Core.Option
use token_bucket_rate_limite.Prelude.Map.{GoMap, lookup, IsMap}
use token_bucket_rate_limite.Limiter.Config.{
  Config, algorithm_token_bucket, algorithm_sliding_window,
}
use token_bucket_rate_limite.Limiter.TokenBucket
use token_bucket_rate_limite.Limiter.TokenBucket.{BucketState}
use token_bucket_rate_limite.Limiter.SlidingWindow
use token_bucket_rate_limite.Limiter.SlidingWindow.{SlidingWindowState}
use token_bucket_rate_limite.Limiter.Algorithm.{Limiter, bucket, sliding}

-- The tagged union. A nil pointer is `none`.
pub record LimiterState (F : Type 0) : Type 0 where
  pub algorithm : String
  pub token_bucket : Option (BucketState F)
  pub sliding_window : Option (SlidingWindowState F)

pub record PersistedState (F : Type 0) : Type 0 where
  pub configs : GoMap (Config F)
  pub limiters : GoMap (LimiterState F)

-- Two states with the same entries, whatever the order that their maps have them in. The first has
-- no key twice.
pub record StandsFor {F : Type 0} (read s : PersistedState F) : Type 0 where
  pub configs_map : IsMap read.configs
  pub limiters_map : IsMap read.limiters
  pub same_configs : (j : String) → lookup j read.configs ≡ lookup j s.configs
  pub same_limiters : (j : String) → lookup j read.limiters ≡ lookup j s.limiters

module _ {F : Type 0} where
  -- The type switch of `Snapshot`.
  unfoldable pub save_limiter : Limiter F → LimiterState F
  save_limiter (bucket b) = record {
    algorithm = algorithm_token_bucket;
    token_bucket = some (TokenBucket.state b);
    sliding_window = none;
  }
  save_limiter (sliding s) = record {
    algorithm = algorithm_sliding_window;
    token_bucket = none;
    sliding_window = some (SlidingWindow.state s);
  }

  -- The `switch` of `Restore`: a tag whose state is missing, and an unknown tag, give no limiter.
  unfoldable pub load_limiter : LimiterState F → Option (Limiter F)
  load_limiter ls =
      let as_bucket : Option (Limiter F) =
        if str_eq ls.algorithm algorithm_token_bucket
        then Option.map (λ s. bucket (TokenBucket.new_token_bucket_from_state s)) ls.token_bucket
        else none in
      if str_eq ls.algorithm algorithm_sliding_window
      then elim ls.sliding_window [
        | some s ↦ some (sliding (SlidingWindow.new_sliding_window_from_state s))
        | none ↦ as_bucket
      ]
      else as_bucket

  -- What is saved is loaded back, whatever the limiter.
  pub load_limiter-save_limiter : (l : Limiter F) → load_limiter (save_limiter l) ≡ some l
  unfolding load_limiter save_limiter TokenBucket.state SlidingWindow.state
      TokenBucket.new_token_bucket_from_state SlidingWindow.new_sliding_window_from_state
  load_limiter-save_limiter (bucket b) = refl
  load_limiter-save_limiter (sliding s) = refl
