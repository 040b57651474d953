-- ===== src/Server/Shutdown.antt =====
-- Runs of the server of main.go on the store in memory, from one start to the next.
use token_bucket_rate_limite.Prelude.{
  ◌≡◌, ◌⊎◌, inl, inr, refl, some, List, [], ◌∷◌, String, is_none, Option-cases, Bool-cases, Bool,
  true, ◌&&◌,
}
use token_bucket_rate_limite.Prelude.Map.{GoMap, IsMap}
use token_bucket_rate_limite.Float.{Float}
use token_bucket_rate_limite.Limiter.Config.{Config, ConfigError}
use token_bucket_rate_limite.Limiter.Persistence.{PersistedState, LimiterState}
use token_bucket_rate_limite.Limiter.Manager.{Manager, new_manager, snapshot}
use token_bucket_rate_limite.Limiter.Manager.View.{IsValid}
use token_bucket_rate_limite.Limiter.Manager.Updates.{new_manager-IsValid}
use token_bucket_rate_limite.Limiter.Manager.Snapshots.{restore-view, snapshot_lem}
use token_bucket_rate_limite.Http.Defs.{Codec}
use token_bucket_rate_limite.Http.Routes.{Mux, IsMux}
use token_bucket_rate_limite.Disk.{
  Contents, found, missing, unreadable, Files, Json, ReadsBack, load,
}
use token_bucket_rate_limite.Disk.Restart.{snapshot_once, restore_state}
use token_bucket_rate_limite.Server.Main.{Event, asks, ticks, serve_events}
use token_bucket_rate_limite.Server.Answers.{serve-IsServing}

-- Every key and algorithm of a state is UTF-8, as utf8.ValidString tests it.
abbrev pub all_keys {ℓ} : {A : Type ℓ} → (String → Bool) → (A → String) → GoMap A → Bool
all_keys is_utf8 algorithm [] = true
all_keys is_utf8 algorithm ((key, x) ∷ entries) =
    let rest = all_keys is_utf8 algorithm entries in is_utf8 key && is_utf8 (algorithm x) && rest

abbrev pub all_utf8 : {F : Type 0} → (String → Bool) → PersistedState F → Bool
all_utf8 {F = F} is_utf8 s =
    all_keys is_utf8 (λ (c : Config F). c.algorithm) s.configs
    && all_keys is_utf8 (λ (l : LimiterState F). l.algorithm) s.limiters

-- What the code relies on of encoding/json: a text that was made of a state whose strings are UTF-8
-- is read as a state with the same entries, in the order of the text, and an object is read as a
-- map, which has no key twice. Strings that are no UTF-8 are changed.
pub record IsJson {F : Type 0} (json : Json F) : Type 0 where
  pub is_utf8 : String → Bool
  pub back :
      (s : PersistedState F)
      → IsMap s.configs
      → IsMap s.limiters
      → all_utf8 is_utf8 s ≡ true
      → ReadsBack json s
  pub maps :
      (s : PersistedState F) (text : String)
      → json.unmarshal text ≡ some s
      → IsMap s.configs × IsMap s.limiters

contents-cases :
    (c : Contents) → (c ≡ missing) ⊎ (c ≡ unreadable) ⊎ ((text : String) × (c ≡ found text))
contents-cases (found text) = inr (inr (text, refl))
contents-cases missing = inl refl
contents-cases unreadable = inr (inl refl)

pub snapshot-ReadsBack :
    {F : Type 0} (json : Json F) (laws : IsJson json) (m : Manager F)
    → IsValid m
    → all_utf8 laws.is_utf8 (snapshot m) ≡ true
    → ReadsBack json (snapshot m)
snapshot-ReadsBack json laws m v texts =
    let (configs_map, limiters_map, saved) = snapshot_lem m v in
    laws.back (snapshot m) configs_map limiters_map texts

module _ {D F : Type 0} (files : Files D) (json : Json F) (laws : IsJson json) where
  -- A manager that is restored before the first request.
  load-IsMap :
      (d : D) (path : String)
      → let s = (load files json d path).0 in IsMap s.configs × IsMap s.limiters
  unfolding load IsMap
  load-IsMap d path = elim (contents-cases (files.read_file d path)) [
    | inl absent ↦ rw (absent, load) (tt, tt)
    | inr (inl unread) ↦ rw (unread, load) (tt, tt)
    | inr (inr (text, at)) ↦ elim (Option-cases (json.unmarshal text)) [
      | inl bad ↦ rw (at, load, bad) (tt, tt)
      | inr (s, good) ↦ rw (at, load, good) (laws.maps s text good)
    ]
  ]

  pub restored-IsValid :
      (d : D) (path : String) → IsValid (restore_state files json (new_manager {F = F}) d path)
  unfolding restore_state
  restored-IsValid d path =
      let (s, error) = load files json d path in
      let (configs_map, limiters_map) = load-IsMap d path in
      elim (Bool-cases (is_none error)) [
        | inl loaded ↦
            rw loaded (restore-view new_manager s new_manager-IsValid configs_map limiters_map).0
        | inr failed ↦ rw failed new_manager-IsValid
      ]

module _ {D F : Type 0} ⦃fl : Float F⦄ (files : Files D) (json : Json F)
    (codec : Codec (ConfigError F) F) (mux : Mux (Manager F)) (laws : IsMux mux) where
  pub serve_events-IsValid :
      (path : String) (d : D) (m : Manager F) (events : List Event)
      → IsValid m
      → (disk : D) × (after : Manager F) × (serve_events files json codec mux path d m events
          ≡ some (disk, after))
        × IsValid after
  unfolding serve_events
  serve_events-IsValid path d m [] v = (d, m, refl, v)
  serve_events-IsValid path d m (ticks ∷ events) v =
      serve_events-IsValid path (snapshot_once files json d path m) m events v
  serve_events-IsValid path d m (asks r now ∷ events) v =
      let (after, w, same, valid) = serve-IsServing codec mux m r now laws v in
      let (disk, last, ends, good) = serve_events-IsValid path d after events valid in
      (disk, last, rw (same, serve_events, ends), good)
