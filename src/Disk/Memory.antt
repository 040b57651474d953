-- ===== src/Disk/Memory.antt =====
-- A disk in memory, as documented. The tests run on it.
use Prim.Native.String.{◌++◌ as append, count}
use text.Mathlib.TextLemmas.{length-append}
use token_bucket_rate_limite.Prelude.{
  ◌≡◌, ◌≢◌, refl, ap, sym, ◌∙◌, Option, none, some, String, Bool, true, false, arith, eq_iff,
}
use token_bucket_rate_limite.Prelude.Map.{
  GoMap, lookup, insert, delete, lookup-insert, lookup-delete,
}
use token_bucket_rate_limite.Float.Nano.{nano_float}
use token_bucket_rate_limite.Disk.{Contents, found, missing, Files, IsFiles}

abbrev contents : Option String → Contents
contents none = missing
contents (some text) = found text

-- A rename that finds no file fails.
unfoldable pub moved : GoMap String → Option String → String → String → GoMap String × Bool
moved d none from to = (d, false)
moved d (some text) from to = (insert to text (delete from d), true)

abbrev pub ram : Files (GoMap String)
ram = record {
  dir = λ path. path;
  base = λ path. path;
  read_file = λ d path. contents (lookup path d);
  create_temp = λ d folder pattern. (insert pattern "" d, some pattern);
  write = λ d path text. (insert path text d, true);
  close = λ d path. (d, true);
  rename = λ d from to. moved d (lookup from d) from to;
  remove = λ d path. delete path d;
}

differs : (path : String) → append path ".tmp-*" ≢ path
differs path e = omega (arith, sym (length-append path ".tmp-*") ∙ ap count e)

moved_to :
    (d : GoMap String) (o : Option String) (from to : String)
    → (moved d o from to).1 ≡ true
    → contents (lookup to (moved d o from to).0) ≡ contents o
unfolding moved
moved_to d none from to ok = ground arith
moved_to d (some text) from to ok =
    ground (arith, lookup-insert to to text (delete from d), eq_iff to to)

moved_failed :
    (d : GoMap String) (o : Option String) (from to : String)
    → (moved d o from to).1 ≡ false
    → contents (lookup to (moved d o from to).0) ≡ contents (lookup to d)
unfolding moved
moved_failed d none from to failed = refl
moved_failed d (some text) from to failed = ground arith

pub ram-IsFiles : IsFiles ram
ram-IsFiles = record {
  temp_new = λ d path tmp e. ground (
    arith,
    e,
    differs path,
    lookup-insert (append path ".tmp-*") tmp "" d,
    eq_iff (append path ".tmp-*") tmp,
  );
  temp_kept = λ d folder pattern path ne.
      ground (arith, ne, lookup-insert pattern path "" d, eq_iff pattern path);
  written =
      λ d path text fresh ok. ground (arith, lookup-insert path path text d, eq_iff path path);
  write_kept = λ d path other text ne.
      ground (arith, ne, lookup-insert path other text d, eq_iff path other);
  close_kept = λ d path other. refl;
  renamed = λ d from to ok. moved_to d (lookup from d) from to ok;
  rename_kept = λ d from to failed. moved_failed d (lookup from d) from to failed;
  remove_kept =
      λ d path other ne. ground (arith, ne, lookup-delete path other d, eq_iff path other);
}
