-- ===== src/Disk/Restart.antt =====
-- `snapshotOnce` and `restoreState` of main.go: the manager is saved, and restored by the next run.
use token_bucket_rate_limite.Prelude.{
  ◌≡◌, ◌⊎◌, inl, inr, refl, none, some, String, if◌then◌else◌, is_none,
}
use token_bucket_rate_limite.Prelude.Map.{lookup}
use token_bucket_rate_limite.Limiter.Manager.{Manager, snapshot, restore}
use token_bucket_rate_limite.Limiter.Manager.View.{view, IsValid}
use token_bucket_rate_limite.Limiter.Manager.Snapshots.{restore-StandsFor}
use token_bucket_rate_limite.Disk.{Files, Json, DiskError, IsFiles, ReadsBack, save, load}
use token_bucket_rate_limite.Disk.Saving.{load-save}

module _ {D F : Type 0} (files : Files D) (json : Json F) where
  -- An error is only logged.
  unfoldable pub snapshot_once : D → String → Manager F → D
  snapshot_once d path m = (save files json d path (snapshot m)).0

  unfoldable pub restore_state : Manager F → D → String → Manager F
  restore_state m d path =
      let (s, error) = load files json d path in if is_none error then restore m s else m

  module _ (laws : IsFiles files) (m other : Manager F) (v : IsValid m) (w : IsValid other) where
    -- On a file system as documented, a valid manager is saved, and another valid one restored from
    -- the file, where the JSON of the snapshot is read as a state that stands for it. If the save
    -- has no error, each client then has the config and the limiter that it had when it was saved,
    -- and the counts of the manager restored into. If it has one, the restored manager is the one
    -- that the file before it gives.
    pub restore_state-snapshot_once :
        (d : D) (path : String)
        → ReadsBack json (snapshot m)
        → let restored = restore_state other (snapshot_once d path m) path in
          let error = (save files json d path (snapshot m)).1 in
          ((error ≡ none)
            × IsValid restored
            × ((j : String)
                → view restored j ≡ record (view m j) { counts = lookup j other.counts }))
          ⊎ (((e : DiskError) × (error ≡ some e)) × (restored ≡ restore_state other d path))
    unfolding restore_state snapshot_once
    restore_state-snapshot_once d path back =
        elim (load-save files json laws d path (snapshot m) back) [
          | inl (ok, read, loaded, stands) ↦
              let (valid, seen) = restore-StandsFor m other read v w stands in
              inl (ok, rw loaded valid, λ j. rw loaded (seen j))
          | inr (failed, same) ↦ inr (failed, rw same refl)
        ]
