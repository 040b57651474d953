-- ===== src/Limiter/Algorithm.antt =====
-- internal/limiter/limiter.go and `newLimiter` of internal/limiter/manager.go: the interface
-- `Limiter`, as the two types that satisfy it, and the limiter that a configuration asks for.
use token_bucket_rate_limite.Prelude.{str_eq, if◌then◌else◌}
use token_bucket_rate_limite.Float.{Float, num}
use token_bucket_rate_limite.Clock.{Time, Duration}
use token_bucket_rate_limite.Limiter.Config.{Config, algorithm_sliding_window}
use token_bucket_rate_limite.Limiter.Decision.{Decision}
use token_bucket_rate_limite.Limiter.TokenBucket
use token_bucket_rate_limite.Limiter.TokenBucket.{TokenBucket, new_token_bucket}
use token_bucket_rate_limite.Limiter.SlidingWindow
use token_bucket_rate_limite.Limiter.SlidingWindow.{SlidingWindow, new_sliding_window}

pub data Limiter (F : Type 0) : Type 0 where
  bucket : TokenBucket F → Limiter F
  sliding : SlidingWindow F → Limiter F

module _ {F : Type 0} ⦃fl : Float F⦄ where
  unfoldable pub allow : Limiter F → Time → Limiter F × Decision F
  allow (bucket b) now = let (after, d) = TokenBucket.allow b now in (bucket after, d)
  allow (sliding s) now = let (after, d) = SlidingWindow.allow s now in (sliding after, d)

  -- Burst/RPS seconds, as a time.Duration
  unfoldable pub window_of : Config F → Duration
  window_of cfg = fl.to_ℤ (fl.mul (fl.div cfg.burst cfg.rps) (num 1_000_000_000))

  unfoldable pub new_limiter : Config F → Time → Limiter F
  new_limiter cfg now =
      if str_eq cfg.algorithm algorithm_sliding_window
      then sliding (new_sliding_window cfg.burst (window_of cfg) now)
      else bucket (new_token_bucket cfg.burst cfg.rps now)
