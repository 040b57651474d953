-- ===== src/Disk/Tests.antt =====
-- The snapshot file on a disk in memory, and the theorems at it.
use token_bucket_rate_limite.Prelude.{◌≡◌, ◌⊎◌, refl, none, some, [], String}
use token_bucket_rate_limite.Prelude.Map.{GoMap, lookup, insert, delete, collect, IsMap}
use token_bucket_rate_limite.Float.{num}
use token_bucket_rate_limite.Float.Nano.{Nano, nano_float}
use token_bucket_rate_limite.Limiter.Config.{Config, algorithm_token_bucket, validate}
use token_bucket_rate_limite.Limiter.Manager.{Manager, new_manager, set_config, snapshot}
use token_bucket_rate_limite.Limiter.Manager.View.{view, IsValid}
use token_bucket_rate_limite.Limiter.Manager.Updates.{new_manager-IsValid, set_config-view}
use token_bucket_rate_limite.Disk.{Json, ReadsBack, save_through, save}
use token_bucket_rate_limite.Disk.Restart.{snapshot_once, restore_state}
use token_bucket_rate_limite.Disk.Crash.{Interrupted, after_write, restore_state-Interrupted}
use token_bucket_rate_limite.Disk.Memory.{moved, ram, ram-IsFiles}

-- One client, and a codec for the one state of its manager.
abbrev small_config : Config Nano
small_config = record { rps = num 1; burst = num 2; algorithm = algorithm_token_bucket }

abbrev one_client : Manager Nano
one_client = (set_config new_manager "a" small_config).0

one_client-IsValid : IsValid one_client
one_client-IsValid = (set_config-view new_manager new_manager-IsValid "a" small_config).1

abbrev one_state : Json Nano
one_state = record {
  marshal = λ s. some "one client";
  unmarshal = λ text. some (snapshot one_client);
}

one_state-ReadsBack : ReadsBack one_state (snapshot one_client)
unfolding IsMap set_config validate snapshot collect lookup insert delete
one_state-ReadsBack text e = (
  snapshot one_client,
  refl,
  record {
    configs_map = (refl, tt);
    limiters_map = tt;
    same_configs = λ j. refl;
    same_limiters = λ j. refl;
  },
)

-- No call fails on this disk.
saved_without_error : (save ram one_state [] "state.json" (snapshot one_client)).1 ≡ none
unfolding save save_through moved lookup insert delete
saved_without_error = refl

-- The process is killed while it writes the temporary file.
abbrev half_written : GoMap String
half_written = insert "state.json.tmp-*" "one cl" (insert "state.json.tmp-*" "" [])

restore_state-Interrupted_example :
    Interrupted ram one_state [] "state.json"
      (snapshot one_client)
      (snapshot_once ram one_state [] "state.json" one_client)
    × (let restored = restore_state ram one_state new_manager half_written "state.json" in
        (restored ≡ restore_state ram one_state new_manager [] "state.json")
        ⊎ (IsValid restored
            × ((j : String)
                → view restored j ≡ record (view one_client j) {
                  counts = lookup j (new_manager {F = Nano}).counts;
                })))
restore_state-Interrupted_example =
    restore_state-Interrupted ram one_state ram-IsFiles one_client new_manager one_client-IsValid
      new_manager-IsValid [] "state.json" half_written one_state-ReadsBack
      (after_write "state.json.tmp-*" "one cl" refl)
