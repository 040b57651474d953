-- ===== src/Limiter/Stats.antt =====
-- internal/limiter/stats.go: the counts of one client, as int64.
use token_bucket_rate_limite.Prelude.{ℤ, pos, Bool, add64, if◌then◌else◌}

pub record ClientStats : Type 0 where
  pub allowed : ℤ
  pub denied : ℤ

-- The zero value, which a map lookup gives for a missing key.
abbrev pub no_stats : ClientStats
no_stats = record { allowed = pos 0; denied = pos 0 }

-- `stats.Allowed++` or `stats.Denied++`
unfoldable pub bump : ClientStats → Bool → ClientStats
bump s allowed =
    if allowed
    then record s { allowed = add64 s.allowed (pos 1) }
    else record s { denied = add64 s.denied (pos 1) }
