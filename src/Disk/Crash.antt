-- ===== src/Disk/Crash.antt =====
-- A process that is killed while `Save` of internal/store/snapshot.go runs, and the next one, which
-- starts from the file that is left.
use Prim.Native.String.{◌++◌ as append}
use token_bucket_rate_limite.Prelude.{
  ◌≡◌, ◌≢◌, ◌⊎◌, inl, inr, refl, ◌∙◌, Bool, true, Option, none, some, String, Option-cases,
  Bool-cases,
}
use token_bucket_rate_limite.Prelude.Map.{lookup}
use token_bucket_rate_limite.Limiter.Persistence.{PersistedState, StandsFor}
use token_bucket_rate_limite.Limiter.Manager.{Manager, snapshot}
use token_bucket_rate_limite.Limiter.Manager.View.{view, IsValid}
use token_bucket_rate_limite.Limiter.Manager.Snapshots.{restore-StandsFor}
use token_bucket_rate_limite.Disk.{found, Files, Json, IsFiles, ReadsBack, save_through, save, load}
use token_bucket_rate_limite.Disk.Saving.{load-found, load_kept}
use token_bucket_rate_limite.Disk.Restart.{snapshot_once, restore_state}

module _ {D F : Type 0} (files : Files D) (json : Json F) (d : D) (path : String)
    (s : PersistedState F) where
  open files use {dir, base, read_file, create_temp, write, close, rename, remove}

  abbrev created : D × Option String
  created = create_temp d (dir path) (append (base path) ".tmp-*")

  abbrev closing : String → String → D × Bool
  closing tmp text = close (write created.0 tmp text).0 tmp

  -- The disks that `Save` goes through, from call to call. `part` is what has been written of the
  -- temporary file.
  pub data Interrupted : D → Type 0 where
    untouched : Interrupted d
    after_create : Interrupted created.0
    after_write :
        (tmp part : String) → created.1 ≡ some tmp → Interrupted (write created.0 tmp part).0
    after_close : (tmp part : String) → created.1 ≡ some tmp → Interrupted (closing tmp part).0
    after_failure :
        (tmp part : String) → created.1 ≡ some tmp → Interrupted (remove (closing tmp part).0 tmp)
    after_rename :
        (tmp text : String)
        → created.1 ≡ some tmp
        → json.marshal s ≡ some text
        → (write created.0 tmp text).1 ≡ true
        → (closing tmp text).1 ≡ true
        → Interrupted (rename (closing tmp text).0 tmp path).0
    after_remove :
        (tmp text : String)
        → created.1 ≡ some tmp
        → json.marshal s ≡ some text
        → (write created.0 tmp text).1 ≡ true
        → (closing tmp text).1 ≡ true
        → Interrupted (remove (rename (closing tmp text).0 tmp path).0 tmp)

  -- The last of them is the disk that `Save` returns with.
  save-Interrupted : Interrupted (save files json d path s).0
  unfolding save save_through
  save-Interrupted = elim (Option-cases (json.marshal s)) [
    | inl bad ↦ rw (bad, save) untouched
    | inr (text, good) ↦ elim (Option-cases created.1) [
      | inl refused ↦ rw (good, save, refused) after_create
      | inr (tmp, made) ↦ elim (Bool-cases (write created.0 tmp text).1) [
        | inl wrote ↦ elim (Bool-cases (closing tmp text).1) [
          | inl ended ↦
              rw (good, save, made, wrote, ended) (after_remove tmp text made good wrote ended)
          | inr failed ↦ rw (good, save, made, wrote, failed) (after_failure tmp text made)
        ]
        | inr failed ↦ rw (good, save, made, failed) (after_failure tmp text made)
      ]
    ]
  ]

  module _ (laws : IsFiles files) where
    -- What is at the path: what was there, or the whole state.
    abbrev IsWhole : D → Type 0
    IsWhole after =
        (read_file after path ≡ read_file d path)
        ⊎ ((text : String) × (json.marshal s ≡ some text) × (read_file after path ≡ found text))

    created_kept : read_file created.0 path ≡ read_file d path
    created_kept =
        laws.temp_kept d (dir path) (append (base path) ".tmp-*") path
          (λ e. (laws.temp_new d path path e).0 refl)

    module _ (tmp : String) (made : created.1 ≡ some tmp) where
      apart : tmp ≢ path
      apart = (laws.temp_new d path tmp made).0

      written_kept :
          (part : String) → read_file (write created.0 tmp part).0 path ≡ read_file d path
      written_kept part = laws.write_kept created.0 tmp path part apart ∙ created_kept

      closed_kept : (part : String) → read_file (closing tmp part).0 path ≡ read_file d path
      closed_kept part = laws.close_kept (write created.0 tmp part).0 tmp path ∙ written_kept part

      renamed-IsWhole :
          (text : String)
          → json.marshal s ≡ some text
          → (write created.0 tmp text).1 ≡ true
          → IsWhole (rename (closing tmp text).0 tmp path).0
      renamed-IsWhole text good wrote = elim (Bool-cases (rename (closing tmp text).0 tmp path).1) [
        | inl moved ↦
            let fresh = (laws.temp_new d path tmp made).1 in
            inr (
              text,
              good,
              laws.renamed (closing tmp text).0 tmp path moved
                  ∙ laws.close_kept (write created.0 tmp text).0 tmp tmp
                  ∙ laws.written created.0 tmp text fresh wrote,
            )
        | inr failed ↦
            inl (laws.rename_kept (closing tmp text).0 tmp path failed ∙ closed_kept text)
      ]

    Interrupted-IsWhole : {left : D} → Interrupted left → IsWhole left
    Interrupted-IsWhole untouched = inl refl
    Interrupted-IsWhole after_create = inl created_kept
    Interrupted-IsWhole (after_write tmp part made) = inl (written_kept tmp made part)
    Interrupted-IsWhole (after_close tmp part made) = inl (closed_kept tmp made part)
    Interrupted-IsWhole (after_failure tmp part made) = inl (
        laws.remove_kept (closing tmp part).0 tmp path (apart tmp made) ∙ closed_kept tmp made part)
    Interrupted-IsWhole (after_rename tmp text made good wrote ended) =
        renamed-IsWhole tmp made text good wrote
    Interrupted-IsWhole (after_remove tmp text made good wrote ended) =
        rw (laws.remove_kept (rename (closing tmp text).0 tmp path).0 tmp path (apart tmp made))
          (renamed-IsWhole tmp made text good wrote)

    -- On each of the disks `Load` gives what it gave before, or else a state that stands for the one
    -- that is saved, without an error.
    load-Interrupted :
        (left : D)
        → ReadsBack json s
        → Interrupted left
        → (load files json left path ≡ load files json d path)
          ⊎ ((read : PersistedState F) × (load files json left path ≡ (read, none))
              × StandsFor read s)
    load-Interrupted left back cut = elim (Interrupted-IsWhole cut) [
      | inl same ↦ inl (load_kept files json laws d path s left same)
      | inr (text, good, at) ↦
          let (read, good_read, stands) = back text good in
          inr (read, load-found files json laws d path s left text read at good_read, stands)
    ]

module _ {D F : Type 0} (files : Files D) (json : Json F) (laws : IsFiles files)
    (m other : Manager F) (v : IsValid m) (w : IsValid other) where
  -- On a file system as documented and where the JSON of the snapshot is read as a state that
  -- stands for it, whenever the process is killed while it saves a valid manager, the manager that
  -- is restored from the disk that is left is the one that would have been without the save, or
  -- else it is valid and each client has the config and the limiter that it had, with the counts of
  -- the manager restored into. A save that is not interrupted leaves such a disk too.
  pub restore_state-Interrupted :
      (d : D) (path : String) (left : D)
      → ReadsBack json (snapshot m)
      → Interrupted files json d path (snapshot m) left
      → Interrupted files json d path (snapshot m) (snapshot_once files json d path m)
        × (let restored = restore_state files json other left path in
            (restored ≡ restore_state files json other d path)
            ⊎ (IsValid restored
                × ((j : String)
                    → view restored j ≡ record (view m j) { counts = lookup j other.counts })))
  unfolding restore_state snapshot_once
  restore_state-Interrupted d path left back cut = (
    save-Interrupted files json d path (snapshot m),
    elim (load-Interrupted files json d path (snapshot m) laws left back cut) [
      | inl same ↦ inl (rw same refl)
      | inr (read, loaded, stands) ↦
          let (valid, seen) = restore-StandsFor m other read v w stands in
          inr (rw loaded valid, λ j. rw loaded (seen j))
    ],
  )
