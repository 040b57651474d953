-- ===== src/Limiter/Manager/Agreement.antt =====
-- The states that a manager of internal/limiter/manager.go gets to by its operations, and how the
-- limiters in them relate to the configs.
use mathlib.Core.Option
use token_bucket_rate_limite.Prelude.{
  ◌≡◌, Option, none, some, String, str_eq, eq_iff, arith, if◌then◌else◌, Bool, true, false, ◌&&◌,
  ap, sym, ◌∙◌, subst, is_none,
}
use token_bucket_rate_limite.Float.{Float}
use token_bucket_rate_limite.Clock.{Time}
use token_bucket_rate_limite.Limiter.Config.{Config, algorithm_sliding_window, validate}
use token_bucket_rate_limite.Prelude.Map.{lookup}
use token_bucket_rate_limite.Limiter.Manager.Pointers.{limiter_at}
use token_bucket_rate_limite.Limiter.Decision.{Decision}
use token_bucket_rate_limite.Limiter.TokenBucket
use token_bucket_rate_limite.Limiter.TokenBucket.{new_token_bucket}
use token_bucket_rate_limite.Limiter.SlidingWindow
use token_bucket_rate_limite.Limiter.SlidingWindow.{new_sliding_window, roll}
use token_bucket_rate_limite.Limiter.Algorithm
use token_bucket_rate_limite.Limiter.Algorithm.{Limiter, bucket, sliding, window_of, new_limiter}
use token_bucket_rate_limite.Limiter.Manager.{
  Manager, new_manager, set_config, remove_client, snapshot, restore, allow,
}
use token_bucket_rate_limite.Limiter.Manager.View.{
  Client, view, IsValid, config_of, current, client_allow, allow-view,
}
use token_bucket_rate_limite.Limiter.Manager.Updates.{
  set_config-view, remove_client-view, new_manager-IsValid,
}
use token_bucket_rate_limite.Limiter.Manager.Snapshots.{restore-snapshot}

module _ {F : Type 0} ⦃fl : Float F⦄ where
  -- The limiter has the algorithm and the numbers of the config.
  abbrev pub Suits : Config F → Limiter F → Type 0
  Suits cfg (bucket b) =
      (b.capacity ≡ cfg.burst)
      × (b.refill_rate ≡ cfg.rps)
      × ¬ (cfg.algorithm ≡ algorithm_sliding_window)
  Suits cfg (sliding s) =
      (s.limit ≡ cfg.burst)
      × (s.window ≡ window_of cfg)
      × (cfg.algorithm ≡ algorithm_sliding_window)

  abbrev pub SuitsIfAny : Config F → Option (Limiter F) → Type 0
  SuitsIfAny cfg none = Unit
  SuitsIfAny cfg (some l) = Suits cfg l

  -- The limiter of the client, if it has one, suits the config of the client, or the default.
  abbrev pub IsConfigured : Client F → Type 0
  IsConfigured c = SuitsIfAny (config_of c) c.limiter

  -- The states of managers, by the operations that led there. A snapshot may be of another manager,
  -- which is how a server starts again.
  pub data Reachable : Manager F → Type 0 where
    started : Reachable new_manager
    requested :
        (m : Manager F) (id : String) (now : Time) (after : Manager F) (d : Decision F)
        → Reachable m
        → allow m id now ≡ some (after, d)
        → Reachable after
    configured :
        (m : Manager F) (id : String) (cfg : Config F)
        → Reachable m
        → Reachable (set_config m id cfg).0
    removed : (m : Manager F) (id : String) → Reachable m → Reachable (remove_client m id)
    restored :
        (m other : Manager F)
        → Reachable m
        → Reachable other
        → Reachable (restore other (snapshot m))

  pub new_limiter-Suits : (cfg : Config F) (now : Time) → Suits cfg (new_limiter cfg now)
  unfolding new_limiter new_token_bucket new_sliding_window
  new_limiter-Suits cfg now = ground (arith, eq_iff cfg.algorithm algorithm_sliding_window)

  pub allow-Suits :
      (cfg : Config F) (l : Limiter F) (now : Time)
      → Suits cfg l
      → Suits cfg (Algorithm.allow l now).0
  unfolding Algorithm.allow TokenBucket.allow TokenBucket.refill SlidingWindow.allow roll
  allow-Suits cfg (bucket b) now h = h
  allow-Suits cfg (sliding s) now h = ground arith

  get_or-Suits :
      (cfg : Config F) (o : Option (Limiter F)) (now : Time)
      → SuitsIfAny cfg o
      → Suits cfg (Option.get_or o (new_limiter cfg now))
  get_or-Suits cfg none now h = new_limiter-Suits cfg now
  get_or-Suits cfg (some l) now h = h

  client_allow-IsConfigured :
      (c : Client F) (now : Time) → IsConfigured c → IsConfigured (client_allow c now).0
  client_allow-IsConfigured c now h =
      allow-Suits (config_of c) (current c now) now (get_or-Suits (config_of c) c.limiter now h)

  if-IsConfigured :
      (b : Bool) (c d : Client F)
      → IsConfigured c
      → IsConfigured d
      → IsConfigured (if b then c else d)
  if-IsConfigured true c d h k = h
  if-IsConfigured false c d h k = k

  -- However a manager was used, its state is valid, and no client is limited by another algorithm,
  -- capacity, rate or window than its config has now, or the default one if it has no config.
  pub Reachable-IsConfigured :
      (m : Manager F) → Reachable m → IsValid m × ((j : String) → IsConfigured (view m j))
  unfolding limiter_at Option.bind lookup
  Reachable-IsConfigured m started = (new_manager-IsValid, λ j. tt)
  Reachable-IsConfigured m (requested n id now after d r e) =
      let (valid, suits) = Reachable-IsConfigured n r in
      let (m', same, valid', seen) = allow-view n valid id now in
      let same_state : m' ≡ after =
        ap (λ (o : Option (Manager F × Decision F)). (Option.get_or o (n, d)).0) (sym same ∙ e) in
      subst (λ x. IsValid x × ((j : String) → IsConfigured (view x j))) same_state
        (
          valid',
          λ j. subst IsConfigured (sym (seen j)) (
              if-IsConfigured (str_eq id j) (client_allow (view n id) now).0 (view n j)
                (client_allow-IsConfigured (view n id) now (suits id)) (suits j)),
        )
  Reachable-IsConfigured m (configured n id cfg r) =
      let (valid, suits) = Reachable-IsConfigured n r in
      let (same, valid', seen) = set_config-view n valid id cfg in
      (
        valid',
        λ j. subst IsConfigured (sym (seen j)) (
            if-IsConfigured (is_none (validate cfg) && str_eq id j)
              (record (view n id) { config = some cfg; limiter = none }) (view n j) tt (suits j)),
      )
  Reachable-IsConfigured m (removed n id r) =
      let (valid, suits) = Reachable-IsConfigured n r in
      let (valid', seen) = remove_client-view n valid id in
      (
        valid',
        λ j. subst IsConfigured (sym (seen j)) (
            if-IsConfigured (str_eq id j) (record (view n id) { config = none; limiter = none })
              (view n j) tt (suits j)),
      )
  Reachable-IsConfigured m (restored n other r s) =
      let (valid, suits) = Reachable-IsConfigured n r in
      let (valid', seen) = restore-snapshot n other valid (Reachable-IsConfigured other s).0 in
      (valid', λ j. subst IsConfigured (sym (seen j)) (suits j))
