-- ===== src/Server/Main.antt =====
-- `main` and `runSnapshotter` of main.go, with the store in memory.
--
-- The HTTP server, the snapshotter and `main` run at once; what they do to the manager and to the
-- disk is here a sequence of events, in the order in which the mutexes and the file system take
-- them. The signal comes after the last event, and `Shutdown` has no request left to wait for.
-- `none` is a panic.
use token_bucket_rate_limite.Prelude.{
  Bool, String, Option, none, some, List, [], ◌∷◌, leb_ℤ, pos, if◌then◌else◌,
}
use token_bucket_rate_limite.Float.{Float}
use token_bucket_rate_limite.Clock.{Time, Duration}
use token_bucket_rate_limite.Limiter.Config.{ConfigError}
use token_bucket_rate_limite.Limiter.Manager.{Manager, new_manager}
use token_bucket_rate_limite.Limiter.Store.{manager_store}
use token_bucket_rate_limite.Http.Defs.{Codec}
use token_bucket_rate_limite.Http.Routes.{Request, Mux, serve}
use token_bucket_rate_limite.Disk.{Files, Json}
use token_bucket_rate_limite.Disk.Restart.{snapshot_once, restore_state}
use token_bucket_rate_limite.Server.Settings.{ServerConfig}

-- A request at a time, or a tick of the snapshotter's ticker.
pub data Event : Type 0 where
  asks : Request → Time → Event
  ticks : Event

-- time.NewTicker panics for an interval that is not above 0.
abbrev pub ticker_panics : Duration → Bool
ticker_panics interval = leb_ℤ interval (pos 0)

module _ {D F : Type 0} ⦃fl : Float F⦄ (files : Files D) (json : Json F)
    (codec : Codec (ConfigError F) F) (mux : Mux (Manager F)) where
  -- The manager that the server starts with.
  abbrev pub initial : D → String → Manager F
  initial d path = restore_state files json new_manager d path

  -- The events between the start and the signal, with the snapshots at `path`.
  unfoldable pub serve_events : String → D → Manager F → List Event → Option (D × Manager F)
  serve_events path d m [] = some (d, m)
  serve_events path d m (ticks ∷ events) =
      serve_events path (snapshot_once files json d path m) m events
  serve_events path d m (asks r now ∷ events) = elim (serve manager_store codec mux m r now) [
    | none ↦ none
    | some (after, w) ↦ serve_events path d after events
  ]

  -- A run of the server from its start to the end of `main`: the disk and the manager that it
  -- leaves.
  unfoldable pub run_in_memory : ServerConfig → D → List Event → Option (D × Manager F)
  run_in_memory cfg d events =
      let path = cfg.snapshot_path in
      let served = serve_events path d (initial d path) events in
      if ticker_panics cfg.snapshot_interval then none else elim served [
        | none ↦ none
        | some (disk, m) ↦ some (snapshot_once files json disk path m, m)
      ]
