-- ===== src/Disk/Saving.antt =====
-- `Save` and `Load` of internal/store/snapshot.go on a file system as documented.
use Prim.Native.String.{◌++◌ as append}
use token_bucket_rate_limite.Prelude.{
  ◌≡◌, ◌≢◌, ◌⊎◌, inl, inr, refl, Option, none, some, String, arith, Option-cases,
}
use token_bucket_rate_limite.Limiter.Persistence.{PersistedState, StandsFor}
use token_bucket_rate_limite.Disk.{
  Contents, found, Files, Json, DiskError, IsFiles, ReadsBack, save_through, save, load,
}

module _ {D F : Type 0} (files : Files D) (json : Json F) (laws : IsFiles files) where
  -- The file at the path has the new contents, or else there is an error and it is as it was.
  abbrev pub AllOrNothing : D → String → Contents → D × Option DiskError → Type 0
  AllOrNothing d path new (after, error) =
      ((error ≡ none) × (files.read_file after path ≡ new))
      ⊎ (((e : DiskError) × (error ≡ some e))
          × (files.read_file after path ≡ files.read_file d path))

  save_through_lem :
      (d : D) (tmp path text : String)
      → tmp ≢ path
      → files.read_file d tmp ≡ found ""
      → AllOrNothing d path (found text) (save_through files json d tmp path text)
  unfolding save_through
  save_through_lem d tmp path text ne fresh =
      let (written, wrote) = files.write d tmp text in
      let (closed, ended) = files.close written tmp in
      ground (
        arith,
        laws.written d tmp text fresh,
        laws.write_kept d tmp path text ne,
        laws.close_kept written tmp tmp,
        laws.close_kept written tmp path,
        laws.renamed closed tmp path,
        laws.rename_kept closed tmp path,
        laws.remove_kept (files.rename closed tmp path).0 tmp path ne,
        laws.remove_kept closed tmp path ne,
      )

  module _ (d : D) (path : String) (s : PersistedState F) where
    -- A save that has an error leaves the file as it was; one that has none puts the state there.
    save_lem :
        let (after, error) = save files json d path s in
        ((error ≡ none)
          × (text : String) × (json.marshal s ≡ some text)
          × (files.read_file after path ≡ found text))
        ⊎ (((e : DiskError) × (error ≡ some e))
            × (files.read_file after path ≡ files.read_file d path))
    unfolding save
    save_lem = elim (Option-cases (json.marshal s)) [
      | inl bad ↦ rw (bad, save) (inr ((_, refl), refl))
      | inr (text, good) ↦
          let name = append (files.base path) ".tmp-*" in
          let kept = laws.temp_kept d (files.dir path) name path in
          elim (Option-cases (files.create_temp d (files.dir path) name).1) [
            | inl e ↦ rw (good, save, e) (inr ((_, refl), kept (ground (arith, e))))
            | inr (tmp, e) ↦
                let (ne, fresh) = laws.temp_new d path tmp e in
                let created = (files.create_temp d (files.dir path) name).0 in
                rw (good, save, e)
                  (ground (arith, save_through_lem created tmp path text ne fresh, kept, e))
          ]
    ]

    pub load-found :
        (after : D) (text : String) (read : PersistedState F)
        → files.read_file after path ≡ found text
        → json.unmarshal text ≡ some read
        → load files json after path ≡ (read, none)
    unfolding load
    load-found after text read e good = rw (e, load, good) refl

    pub load_kept :
        (after : D)
        → files.read_file after path ≡ files.read_file d path
        → load files json after path ≡ load files json d path
    unfolding load
    load_kept after e = rw (e, load) refl

    -- On a file system as documented: if the JSON of the state is read as a state that stands for
    -- it, then a `Save` without error makes `Load` give such a state, and a `Save` with an error
    -- changes nothing of what `Load` gives.
    pub load-save :
        ReadsBack json s
        → let (after, error) = save files json d path s in
          ((error ≡ none)
            × (read : PersistedState F) × (load files json after path ≡ (read, none))
            × StandsFor read s)
          ⊎ (((e : DiskError) × (error ≡ some e))
              × (load files json after path ≡ load files json d path))
    load-save back = elim save_lem [
      | inl (ok, text, good, at) ↦
          let (read, good_read, stands) = back text good in
          inl (ok, read, load-found (save files json d path s).0 text read at good_read, stands)
      | inr (failed, same) ↦ inr (failed, load_kept (save files json d path s).0 same)
    ]
