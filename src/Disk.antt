-- ===== src/Disk.antt =====
-- internal/store/snapshot.go: the snapshot file. The file system and encoding/json are parameters.
-- The children: Saving on `Save` and `Load`, Restart on a server that stops and starts again, and
-- Memory, a disk for the tests.
pub mod Saving
pub mod Restart
pub mod Memory
pub mod Crash
mod Tests
use Prim.Native.String.{◌++◌ as append}
use mathlib.Core.Option
use token_bucket_rate_limite.Prelude.{
  ◌≡◌, ◌≢◌, Bool, true, false, Option, none, some, [], String, if◌then◌else◌,
}
use token_bucket_rate_limite.Limiter.Persistence.{PersistedState, StandsFor}

-- What os.ReadFile finds.
pub data Contents : Type 0 where
  found : String → Contents
  missing unreadable : Contents

-- The calls of os and path/filepath, over states `D` of the disk. `none` and `false` are errors.
pub record Files (D : Type 0) : Type 0 where
  pub dir : String → String
  pub base : String → String
  pub read_file : D → String → Contents
  -- os.CreateTemp, which gives the path of the file
  pub create_temp : D → String → String → D × Option String
  pub write : D → String → String → D × Bool
  pub close : D → String → D × Bool
  pub rename : D → String → String → D × Bool
  pub remove : D → String → D

pub record Json (F : Type 0) : Type 0 where
  pub marshal : PersistedState F → Option String
  pub unmarshal : String → Option (PersistedState F)

-- The errors that `Save` and `Load` wrap.
pub data DiskError : Type 0 where
  not_marshalled not_created not_written not_closed not_renamed not_read not_unmarshalled :
      DiskError

-- The JSON of a state is read as a state that stands for it.
abbrev pub ReadsBack : {F : Type 0} → Json F → PersistedState F → Type 0
ReadsBack {F = F} json s =
    (text : String)
    → json.marshal s ≡ some text
    → (read : PersistedState F) × (json.unmarshal text ≡ some read) × StandsFor read s

module _ {D F : Type 0} (files : Files D) (json : Json F) where
  open files use {dir, base, read_file, create_temp, write, close, rename, remove}

  -- `Save` from the temporary file on. The deferred Remove comes last on every path. `none` is the
  -- nil error.
  unfoldable pub save_through : D → String → String → String → D × Option DiskError
  save_through d tmp path text =
      let (written, wrote) = write d tmp text in
      let (closed, ended) = close written tmp in
      let (renamed, moved) = rename closed tmp path in
      if wrote
      then (if ended
          then (remove renamed tmp, if moved then none else some not_renamed)
          else (remove closed tmp, some not_closed))
      else (remove closed tmp, some not_written)

  unfoldable pub save : D → String → PersistedState F → D × Option DiskError
  save d path s = elim (json.marshal s) [
    | none ↦ (d, some not_marshalled)
    | some text ↦
        let (created, tmp) = create_temp d (dir path) (append (base path) ".tmp-*") in
        elim tmp [
          | none ↦ (created, some not_created)
          | some tmp_path ↦ save_through created tmp_path path text
        ]
  ]

  abbrev pub empty_state : PersistedState F
  empty_state = record { configs = []; limiters = [] }

  unfoldable pub load : D → String → PersistedState F × Option DiskError
  load d path = elim (read_file d path) [
    | missing ↦ (empty_state, none)
    | unreadable ↦ (empty_state, some not_read)
    | found text ↦ elim (json.unmarshal text) [
      | none ↦ (empty_state, some not_unmarshalled)
      | some s ↦ (s, none)
    ]
  ]

-- What package os documents: a temporary file is a new one, empty, with a name of its own; a call
-- touches the files that it names alone; a rename that succeeds replaces its target as a whole, and
-- one that fails leaves it.
pub record IsFiles {D : Type 0} (files : Files D) : Type 0 where
  pub temp_new :
      (d : D) (path tmp : String)
      → (files.create_temp d (files.dir path) (append (files.base path) ".tmp-*")).1 ≡ some tmp
      → (tmp ≢ path)
        × (files.read_file
              (files.create_temp d (files.dir path) (append (files.base path) ".tmp-*")).0
              tmp
            ≡ found "")
  pub temp_kept :
      (d : D) (folder pattern path : String)
      → ((files.create_temp d folder pattern).1 ≢ some path)
      → files.read_file (files.create_temp d folder pattern).0 path ≡ files.read_file d path
  pub written :
      (d : D) (path text : String)
      → files.read_file d path ≡ found ""
      → (files.write d path text).1 ≡ true
      → files.read_file (files.write d path text).0 path ≡ found text
  pub write_kept :
      (d : D) (path other text : String)
      → path ≢ other
      → files.read_file (files.write d path text).0 other ≡ files.read_file d other
  pub close_kept :
      (d : D) (path other : String)
      → files.read_file (files.close d path).0 other ≡ files.read_file d other
  pub renamed :
      (d : D) (from to : String)
      → (files.rename d from to).1 ≡ true
      → files.read_file (files.rename d from to).0 to ≡ files.read_file d from
  pub rename_kept :
      (d : D) (from to : String)
      → (files.rename d from to).1 ≡ false
      → files.read_file (files.rename d from to).0 to ≡ files.read_file d to
  pub remove_kept :
      (d : D) (path other : String)
      → path ≢ other
      → files.read_file (files.remove d path) other ≡ files.read_file d other
