-- ===== src/Limiter/Decision.antt =====
-- internal/limiter/decision.go: the result of a rate-limit check.
use token_bucket_rate_limite.Prelude.{ℕ, ◌+◌, Bool, pos, List, [], ◌∷◌, if◌then◌else◌}
use token_bucket_rate_limite.Clock.{Duration, max_duration}

abbrev pub never_refills : Duration
never_refills = pos max_duration

pub record Decision (F : Type 0) : Type 0 where
  pub allowed : Bool
  pub limit : F
  pub remaining : F
  pub retry_after : Duration
  pub reset_after : Duration

-- How many requests of a sequence were allowed.
unfoldable pub count_allowed : {F : Type 0} → List (Decision F) → ℕ
count_allowed [] = 0
count_allowed (d ∷ ds) = (if d.allowed then 1 else 0) + count_allowed ds
