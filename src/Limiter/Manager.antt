-- ===== src/Limiter/Manager.antt =====
-- internal/limiter/manager.go: one limiter per client, made on first use, the clients' configs and
-- their counts. The children: View and Updates on what the operations do to one client, Snapshots
-- on Snapshot and Restore, Agreement on the states that a manager gets to, Counted on Stats,
-- Concurrent on calls of `Allow` that run at the same time.
--
-- The map of limiters holds pointers, here addresses in `heap`, where the limiters live. `mu` makes
-- the get-or-create one step (`acquire`), the limiter's own mutex a call of it (`call`), `statsMu`
-- the count (`record_decision`); `allow` is the three in sequence.
mod Pointers
pub mod View
pub mod Updates
pub mod Agreement
pub mod Counted
pub mod Snapshots
mod Concurrent
mod Tests
use mathlib.Core.Option
use token_bucket_rate_limite.Prelude.{
  ℕ, Bool, Option, none, some, List, [], ◌∷◌, ◌++◌, String, length, get_elem?, set,
}
use token_bucket_rate_limite.Prelude.Map.{GoMap, lookup, insert, delete, collect}
use token_bucket_rate_limite.Float.{Float, num}
use token_bucket_rate_limite.Clock.{Time}
use token_bucket_rate_limite.Limiter.Config.{Config, ConfigError, validate, algorithm_token_bucket}
use token_bucket_rate_limite.Limiter.Decision.{Decision}
use token_bucket_rate_limite.Limiter.Stats.{ClientStats, no_stats, bump}
use token_bucket_rate_limite.Limiter.Algorithm
use token_bucket_rate_limite.Limiter.Algorithm.{Limiter, new_limiter}
use token_bucket_rate_limite.Limiter.Persistence.{
  LimiterState, PersistedState, save_limiter, load_limiter,
}

pub record Manager (F : Type 0) : Type 0 where
  pub configs : GoMap (Config F)
  pub limiters : GoMap ℕ
  pub heap : List (Limiter F)
  pub counts : GoMap ClientStats

module _ {F : Type 0} where
  abbrev pub new_manager : Manager F
  new_manager = record { configs = []; limiters = []; heap = []; counts = [] }

  unfoldable pub get_config : Manager F → String → Option (Config F)
  get_config m id = lookup id m.configs

  unfoldable pub remove_client : Manager F → String → Manager F
  remove_client m id = record m { configs = delete id m.configs; limiters = delete id m.limiters }

  unfoldable pub record_decision : Manager F → String → Bool → Manager F
  record_decision m id allowed = record m {
    counts = insert id (bump (Option.get_or (lookup id m.counts) no_stats) allowed) m.counts;
  }

  unfoldable pub stats : Manager F → GoMap ClientStats
  stats m = collect some m.counts

  -- The limiters are read after `mu` is released, through the pointers that were copied.
  unfoldable pub snapshot : Manager F → PersistedState F
  snapshot m = record {
    configs = collect some m.configs;
    limiters =
        collect (λ p. Option.map save_limiter (get_elem? m.heap p)) (collect some m.limiters);
  }

  -- The loop of `Restore`: each limiter is a new object.
  unfoldable pub restore_limiters :
      GoMap (LimiterState F) → List (Limiter F) → GoMap ℕ × List (Limiter F)
  restore_limiters [] heap = ([], heap)
  restore_limiters ((id, ls) ∷ states) heap =
      let (pointers, grown) = restore_limiters states heap in
      elim (load_limiter ls) [
        | none ↦ (pointers, grown)
        | some l ↦ (insert id (length grown) pointers, grown ++ (l ∷ []))
      ]

  unfoldable pub restore : Manager F → PersistedState F → Manager F
  restore m s =
      let (pointers, grown) = restore_limiters s.limiters m.heap in
      record m { configs = collect some s.configs; limiters = pointers; heap = grown }

module _ {F : Type 0} ⦃fl : Float F⦄ where
  abbrev pub default_config : Config F
  default_config = record { rps = num 1; burst = num 5; algorithm = algorithm_token_bucket }

  -- `none` is the nil error.
  unfoldable pub set_config : Manager F → String → Config F → Manager F × Option (ConfigError F)
  set_config m id cfg = elim (validate cfg) [
    | some e ↦ (m, some e)
    | none ↦ (record m { configs = insert id cfg m.configs; limiters = delete id m.limiters }, none)
  ]

  -- The part of `Allow` under `mu`: the client's limiter, made if it has none.
  unfoldable pub acquire : Manager F → String → Time → Manager F × ℕ
  acquire m id now =
      let cfg = Option.get_or (lookup id m.configs) default_config in
      elim (lookup id m.limiters) [
        | some p ↦ (m, p)
        | none ↦ (
          record m {
            limiters = insert id (length m.heap) m.limiters;
            heap = m.heap ++ (new_limiter cfg now ∷ []);
          },
          length m.heap,
        )
      ]

  -- `lim.Allow()`. `none` is a pointer to nothing.
  unfoldable pub call : Manager F → ℕ → Time → Option (Manager F × Decision F)
  call m p now = elim (get_elem? m.heap p) [
    | none ↦ none
    | some l ↦
        let (after, d) = Algorithm.allow l now in some (record m { heap = set m.heap p after }, d)
  ]

  unfoldable pub allow : Manager F → String → Time → Option (Manager F × Decision F)
  allow m id now =
      let (acquired, p) = acquire m id now in
      Option.map (λ r. (record_decision r.0 id r.1.allowed, r.1)) (call acquired p now)
