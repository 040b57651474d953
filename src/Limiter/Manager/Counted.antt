-- ===== src/Limiter/Manager/Counted.antt =====
-- `Stats` of internal/limiter/manager.go, against the requests.
use mathlib.Core.Option
use token_bucket_rate_limite.Prelude.{◌≡◌, ap, some, String, str_eq, arith, if◌then◌else◌}
use token_bucket_rate_limite.Prelude.Map.{lookup, lookup-collect-some}
use token_bucket_rate_limite.Float.{Float}
use token_bucket_rate_limite.Clock.{Time}
use token_bucket_rate_limite.Limiter.Decision.{Decision}
use token_bucket_rate_limite.Limiter.Stats.{no_stats, bump}
use token_bucket_rate_limite.Limiter.Manager.{Manager, stats, allow}
use token_bucket_rate_limite.Limiter.Manager.View.{view, IsValid, client_allow, allow-view}

module _ {F : Type 0} ⦃fl : Float F⦄ where
  pub stats-view : (m : Manager F) (j : String) → IsValid m → lookup j (stats m) ≡ (view m j).counts
  unfolding stats
  stats-view m j v = lookup-collect-some j m.counts v.counts_map

  -- After a request to a valid manager, `Stats` shows one more allowed or denied request of the
  -- client, by the decision, counted from zero if it showed none, and for every other client what
  -- it showed before.
  stats-allow :
      (m : Manager F) (id : String) (now : Time)
      → IsValid m
      → (after : Manager F) × (d : Decision F) × (allow m id now ≡ some (after, d))
        × ((j : String)
            → lookup j (stats after) ≡ (
                if str_eq id j
                then some (bump (Option.get_or (lookup id (stats m)) no_stats) d.allowed)
                else lookup j (stats m)))
  stats-allow m id now v =
      let (after, same, valid, seen) = allow-view m v id now in
      (
        after,
        (client_allow (view m id) now).1,
        same,
        λ j. ground (
          arith,
          stats-view after j valid,
          stats-view m j v,
          stats-view m id v,
          ap (λ c. c.counts) (seen j),
        ),
      )
