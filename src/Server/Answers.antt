-- ===== src/Server/Answers.antt =====
-- The routes of main.go and internal/httpapi on the store in memory: every request has an answer.
use token_bucket_rate_limite.Prelude.{◌≡◌, inl, inr, refl, some}
use token_bucket_rate_limite.Float.{Float}
use token_bucket_rate_limite.Clock.{Time}
use token_bucket_rate_limite.Limiter.Config.{ConfigError}
use token_bucket_rate_limite.Limiter.Manager
use token_bucket_rate_limite.Limiter.Manager.{Manager, new_manager, snapshot, restore}
use token_bucket_rate_limite.Limiter.Manager.View.{IsValid}
use token_bucket_rate_limite.Limiter.Manager.Updates.{set_config-view, remove_client-view}
use token_bucket_rate_limite.Limiter.Store.{manager_store}
use token_bucket_rate_limite.Http.Defs.{Response, Codec}
use token_bucket_rate_limite.Http.Handlers
use token_bucket_rate_limite.Http.Handlers.{check, set_client_config, get_client_config}
use token_bucket_rate_limite.Http.Serving.{check-Reports, sum-cases}
use token_bucket_rate_limite.Server.Tables.{
  IsServing, AreServing, AreServing-insert, AreServing-empty, serve-AreServing,
}
use token_bucket_rate_limite.Http.Routes.{
  Request, Mux, IsMux, register_admin, register_check, register_stats, routes, serve,
}

module _ {F : Type 0} ⦃fl : Float F⦄ (codec : Codec (ConfigError F) F) where
  check-IsServing : IsServing IsValid (λ s key body now. check manager_store codec s key now)
  check-IsServing m key body now v =
      let (after, w, same, reports, valid, seen) = check-Reports codec m key now v in
      (after, w, same, valid)

  set_client_config-IsServing :
      IsServing IsValid (λ s key body now. some (set_client_config manager_store codec s key body))
  unfolding set_client_config
  set_client_config-IsServing m key body now v =
      let (after, w) = set_client_config manager_store codec m key body in
      let kept : IsValid after = elim (sum-cases codec (codec.decode_config body)) [
        | inl (message, bad) ↦ rw (bad, set_client_config) v
        | inr (cfg, decodes) ↦ rw (decodes, set_client_config) (set_config-view m v key cfg).1
      ] in
      (after, w, refl, kept)

  routes-AreServing : AreServing IsValid (routes manager_store codec)
  unfolding routes register_admin register_check register_stats get_client_config Handlers.stats
      Handlers.remove_client Manager.get_config
  routes-AreServing =
      AreServing-insert IsValid _ _ _ (λ m key body now v. (m, _, refl, v))
        (AreServing-insert IsValid _ _ _ check-IsServing (
          AreServing-insert IsValid _ _ _
            (λ m key body now v. (_, _, refl, (remove_client-view m v key).0))
            (AreServing-insert IsValid _ _ _ (λ m key body now v. (m, _, refl, v))
              (AreServing-insert IsValid _ _ _ set_client_config-IsServing (
                AreServing-insert IsValid _ _ _ (λ m key body now v. (m, _, refl, v))
                  (AreServing-empty IsValid))))))

  -- Whatever the request is, the server answers it on a valid manager and leaves that valid.
  pub serve-IsServing :
      (mux : Mux (Manager F)) (m : Manager F) (r : Request) (now : Time)
      → IsMux mux
      → IsValid m
      → (after : Manager F) × (w : Response) × (serve manager_store codec mux m r now
          ≡ some (after, w))
        × IsValid after
  serve-IsServing mux m r now laws v =
      serve-AreServing manager_store codec IsValid mux m r now laws routes-AreServing v
