-- ===== src/Server/Interval.antt =====
-- SNAPSHOT_INTERVAL_SECS of main.go, and the snapshotter that it is for.
use token_bucket_rate_limite.Prelude.{
  ℤ, negsuc, mul64, ◌≤ℤ◌, ◌^◌, ◌↔◌, ◌≢◌, ◌≡◌, inl, inr, refl, Option, none, some, List, String,
  arith, eq_iff, leb_ℤ, pos, Option-cases, Bool-cases, str_eq,
}
use token_bucket_rate_limite.Float.{Float}
use token_bucket_rate_limite.Limiter.Config.{ConfigError}
use token_bucket_rate_limite.Limiter.Manager.{Manager, new_manager}
use token_bucket_rate_limite.Http.Defs.{Codec}
use token_bucket_rate_limite.Http.Routes.{Mux, IsMux}
use token_bucket_rate_limite.Disk.{Files, Json}
use token_bucket_rate_limite.Disk.Restart.{restore_state}
use token_bucket_rate_limite.Server.Main.{Event, run_in_memory}
use token_bucket_rate_limite.Server.Settings.{second, load_interval, load_config}
use token_bucket_rate_limite.Server.Shutdown.{IsJson, serve_events-IsValid, restored-IsValid}

-- Where the number of seconds is no more than 272 years, the product with a second does not wrap.
mul64-second :
    (secs : ℤ)
    → negsuc (2 ^ 33) ≤ℤ secs
    → secs ≤ℤ pos (2 ^ 33)
    → (mul64 secs second ≤ℤ pos 0) ↔ (secs ≤ℤ pos 0)
unfolding mul64
mul64-second secs low high = ground arith

module _ (env : String → String) (atoi : String → Option ℤ) where
  abbrev pub interval_text : String
  interval_text = env "SNAPSHOT_INTERVAL_SECS"

  -- The variable is set to a number that is not above 0.
  abbrev pub IsRefused : Type 0
  IsRefused = (interval_text ≢ "") × (secs : ℤ) × (atoi interval_text ≡ some secs) × (secs ≤ℤ pos 0)

  load_interval-refused :
      ((secs : ℤ)
        → atoi interval_text ≡ some secs
        → (negsuc (2 ^ 33) ≤ℤ secs) × (secs ≤ℤ pos (2 ^ 33)))
      → (load_interval env atoi ≤ℤ pos 0) ↔ IsRefused
  unfolding load_interval
  load_interval-refused range = elim (Bool-cases (str_eq interval_text "")) [
    | inl unset ↦ rw (unset, load_interval) (ground (arith, eq_iff interval_text ""))
    | inr set ↦ elim (Option-cases (atoi interval_text)) [
      | inl bad ↦ rw (set, load_interval, bad) (ground (arith, bad))
      | inr (secs, good) ↦
          let (low, high) = range secs good in
          let (there, back) = mul64-second secs low high in
          rw (set, load_interval, good)
            (
              λ h. (λ e. ground (arith, eq_iff interval_text ""), secs, refl, there h),
              λ r. back (ground (arith, r)),
            )
    ]
  ]

module _ {D F : Type 0} ⦃fl : Float F⦄ (files : Files D) (json : Json F)
    (codec : Codec (ConfigError F) F) (mux : Mux (Manager F)) (json_laws : IsJson json)
    (mux_laws : IsMux mux) where
  -- On a ServeMux and an encoding/json as documented, with the store in memory, where
  -- SNAPSHOT_INTERVAL_SECS is unset, is no number, or is a number of seconds within 272 years
  -- either way: the server panics if, and only if, it is a number and not above 0.
  pub run_in_memory-none_iff :
      (env : String → String) (atoi : String → Option ℤ) (d : D) (events : List Event)
      → ((secs : ℤ)
          → atoi (interval_text env atoi) ≡ some secs
          → (negsuc (2 ^ 33) ≤ℤ secs) × (secs ≤ℤ pos (2 ^ 33)))
      → (run_in_memory files json codec mux (load_config env atoi) d events ≡ none)
        ↔ IsRefused env atoi
  unfolding run_in_memory load_config
  run_in_memory-none_iff env atoi d events range =
      let path = (load_config env atoi).snapshot_path in
      let begun : Manager F = restore_state files json new_manager d path in
      let (before, m, ends, valid) =
        serve_events-IsValid files json codec mux mux_laws path d begun events
          (restored-IsValid files json json_laws d path) in
      let refused = load_interval-refused env atoi range in
      elim (Bool-cases (leb_ℤ (load_interval env atoi) (pos 0))) [
        | inl stops ↦ rw (stops, run_in_memory) (λ e. refused.0 (ground arith), λ r. refl)
        | inr goes ↦ rw (goes, run_in_memory, ends) (λ e. cc, λ r. ground (arith, refused.1 r))
      ]
