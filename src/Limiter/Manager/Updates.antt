-- ===== src/Limiter/Manager/Updates.antt =====
-- `SetConfig` and `RemoveClient` of internal/limiter/manager.go, as a client sees them.
use token_bucket_rate_limite.Prelude.{
  ◌≡◌, refl, none, some, String, str_eq, eq_iff, arith, length, if◌then◌else◌, Option-cases,
  is_none, ◌&&◌, inl, inr,
}
use token_bucket_rate_limite.Prelude.Map.{
  lookup, lookup-insert, lookup-delete, IsMap, insert-IsMap, delete-IsMap,
}
use token_bucket_rate_limite.Limiter.Manager.Pointers.{ArePointers-delete, limiter_at-delete}
use token_bucket_rate_limite.Float.{Float}
use token_bucket_rate_limite.Limiter.Config.{Config, validate}
use token_bucket_rate_limite.Limiter.Manager.{Manager, new_manager, set_config, remove_client}
use token_bucket_rate_limite.Limiter.Manager.View.{view, IsValid}

module _ {F : Type 0} ⦃fl : Float F⦄ where
  module _ (m : Manager F) (v : IsValid m) (id : String) where
    -- On a valid manager, which stays valid, `SetConfig` refuses a configuration that does not
    -- validate, and changes nothing. Any other it stores for the client alone, whose limiter it
    -- drops.
    pub set_config-view :
        (cfg : Config F)
        → let (after, error) = set_config m id cfg in
          (error ≡ validate cfg)
          × IsValid after
          × ((j : String)
              → view after j ≡ (
                  if is_none (validate cfg) && str_eq id j
                  then record (view m id) { config = some cfg; limiter = none }
                  else view m j))
    unfolding set_config
    set_config-view cfg = elim (Option-cases (validate cfg)) [
      | inr (e, bad) ↦ rw (bad, set_config) (refl, v, λ j. refl)
      | inl good ↦
          rw (good, set_config)
            (
              refl,
              record {
                configs_map = insert-IsMap id cfg m.configs v.configs_map;
                counts_map = v.counts_map;
                pointers = ArePointers-delete m.limiters (length m.heap) v.pointers id;
              },
              λ j. ground (
                arith,
                lookup-insert id j cfg m.configs,
                limiter_at-delete m.limiters m.heap v.pointers id j,
                eq_iff id j,
              ),
            )
    ]

    -- On a valid manager, which stays valid, `RemoveClient` drops the config and the limiter of the
    -- client alone, and keeps its counts.
    pub remove_client-view :
        IsValid (remove_client m id)
        × ((j : String)
            → view (remove_client m id) j ≡ (
                if str_eq id j
                then record (view m id) { config = none; limiter = none }
                else view m j))
    unfolding remove_client
    remove_client-view = (
      record {
        configs_map = delete-IsMap id m.configs v.configs_map;
        counts_map = v.counts_map;
        pointers = ArePointers-delete m.limiters (length m.heap) v.pointers id;
      },
      λ j. ground (
        arith,
        lookup-delete id j m.configs,
        limiter_at-delete m.limiters m.heap v.pointers id j,
        eq_iff id j,
      ),
    )

pub new_manager-IsValid : {F : Type 0} → IsValid (new_manager {F = F})
unfolding IsMap lookup
new_manager-IsValid = record {
  configs_map = tt;
  counts_map = tt;
  pointers = record { is_map = tt; bounded = λ i p h. cc; separate = λ i j p h k. cc };
}
