-- ===== src/Server/Kill.antt =====
-- The server of main.go is killed: what the next run starts with on the store in memory.
use mathlib.Core.Option
use token_bucket_rate_limite.Prelude.{◌≡◌, Option, none, List, [], ◌∷◌, String}
use token_bucket_rate_limite.Float.{Float}
use token_bucket_rate_limite.Limiter.Manager.{Manager}
use token_bucket_rate_limite.Limiter.Manager.View.{view, IsValid}
use token_bucket_rate_limite.Server.Main.{Event, asks, ticks}

-- Requests, and no tick of the snapshotter.
abbrev pub IsQuiet : List Event → Type 0
IsQuiet [] = Unit
IsQuiet (asks r now ∷ events) = IsQuiet events
IsQuiet (ticks ∷ events) = ⊥

-- What a manager shows of each client when it starts from the saved state of another.
abbrev pub StartsFrom : {F : Type 0} → Manager F → Manager F → Type 0
StartsFrom m restored =
    IsValid restored × ((j : String) → view restored j ≡ record (view m j) { counts = none })
