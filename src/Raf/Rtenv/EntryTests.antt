-- ===== src/Raf/Rtenv/EntryTests.antt =====
-- Runs on a table of runtime environments.
use tpbench.Prelude.{
  ℕ, ◌≡◌, true, List, [], ◌∷◌, ◌++◌, none, refl, arith, Bytes, codes, replicate, ◌<◌, length, map,
}
use tpbench.Raf.File.{opened}
use tpbench.Raf.File.Segments.{joined}
use tpbench.Raf.Magic.{dom_rtenv}
use tpbench.Raf.Record.Tests.{header}
use tpbench.Raf.Record.Patch.{success}
use tpbench.Raf.Entry
use tpbench.Raf.Entry.Append.{IsGood}
use tpbench.Raf.Entry.Table.{table}
use tpbench.Raf.Rtenv.RoundTrip.{rtenv_text}
use tpbench.Raf.Rtenv.Tests.{rtenv, rtenv-IsStorable, data_bytes}
use tpbench.Raf.Rtenv.Entry.{
  RtenvEntry, entries, entry_list_rtenv, next_id, rtenv_alloc_next_id, entry_to_disk,
}
use tpbench.Raf.Rtenv.Entry.Rows.{IsStorable, AllStorable}
use tpbench.Raf.Rtenv.Entry.Names.{rtenv_table}
use tpbench.Raf.Rtenv.Entry.Laws.{
  append_all_rtenv, kept, NamesDiffer, entry_list_rtenv-append_all, NotUsed,
  rtenv_alloc_next_id_lem,
}
use tpbench.Raf.Rtenv.Counter
use tpbench.Raf.Rtenv.Counter.{patch_tpbe_body, record_patch_rtenv_counters}
use tpbench.Raf.Rtenv.Counter.Ends.{returns, patch_tpbe_body-returns}
use tpbench.Raf.Rtenv.Counter.Row
use tpbench.Raf.Rtenv.Counter.Row.{count_first}
use tpbench.Raf.Rtenv.Counter.Laws.{counted_attr, record_patch_rtenv_counters_lem}

abbrev entry : ℕ → Bytes → RtenvEntry
entry id name = record {
  id = id;
  name = name;
  hostname = replicate 256 0;
  utc_bits = 0;
  inherit_from = 0;
  derive_to = 4294967295;
  ntask = 4294967295;
  ntbatch = 2;
  note = replicate 256 0;
  napp = 0;
  nenv = 0;
  reserve = replicate 1024 0;
}

entry-IsStorable :
    (id : ℕ) (name : Bytes) → id < 4294967296 → length name ≡ 256 → IsStorable (entry id name)
entry-IsStorable id name h e = record {
  id_fits = h;
  name_size = e;
  hostname_size = refl;
  utc_bits_fits = omega arith;
  inherit_from_fits = omega arith;
  derive_to_fits = omega arith;
  ntask_fits = omega arith;
  ntbatch_fits = omega arith;
  note_size = refl;
  napp_fits = omega arith;
  nenv_fits = omega arith;
  reserve_size = refl;
}

abbrev name_a : Bytes
name_a = codes "a" ++ replicate 255 0

abbrev name_b : Bytes
name_b = codes "b" ++ replicate 255 0

abbrev env : Entry.Env
env = record {
  open_ok = true;
  flock_ok = true;
  fdopen_ok = true;
  fstat_ok = true;
  fclose_ok = true;
  room = 2000;
}

env-IsGood : IsGood env
env-IsGood = record { opens = refl; locks = refl; streams = refl; stats = refl; closes = refl }

-- The name `a` comes twice.
abbrev calls : List (Entry.Env × RtenvEntry)
calls = (env, entry 1 name_a) ∷ (env, entry 2 name_b) ∷ (env, entry 3 name_a) ∷ []

entry_list_rtenv-append_all_example :
    (entry_list_rtenv true (append_all_rtenv none calls)
      ≡ entries (entry 1 name_a ∷ entry 2 name_b ∷ []))
    × NamesDiffer (kept [] calls)
entry_list_rtenv-append_all_example =
    entry_list_rtenv-append_all calls
      (
        entry-IsStorable 1 name_a (omega arith) refl,
        env-IsGood,
        omega arith,
        (
          entry-IsStorable 2 name_b (omega arith) refl,
          env-IsGood,
          omega arith,
          (entry-IsStorable 3 name_a (omega arith) refl, env-IsGood, omega arith, tt),
        ),
      )
      (omega arith)

abbrev two : List RtenvEntry
two = entry 1 name_a ∷ entry 2 name_b ∷ []

two-AllStorable : AllStorable two
two-AllStorable = (
  entry-IsStorable 1 name_a (omega arith) refl,
  (entry-IsStorable 2 name_b (omega arith) refl, tt),
)

rtenv_alloc_next_id_lem_example :
    (k : ℕ) × (rtenv_alloc_next_id true true (rtenv_table two) ≡ next_id k)
    × (0 < k)
    × (k < 2147483648)
    × NotUsed k two
rtenv_alloc_next_id_lem_example =
    rtenv_alloc_next_id_lem two two-AllStorable (omega arith) (refl, (refl, tt))

abbrev files : Counter.Env
files = record { opens = true; locks = true; flushed = true; room = 8 }

files-IsGood : Row.IsGood files
files-IsGood = record { opens = refl; locks = refl; flushed = refl; room = omega arith }

patch_tpbe_body-returns_example : returns (patch_tpbe_body 1 1 0 (opened (replicate 40 0) 8)) ≡ true
patch_tpbe_body-returns_example = patch_tpbe_body-returns 1 1 0 (replicate 40 0) 8

record_patch_rtenv_counters_lem_example :
    record_patch_rtenv_counters files files
      (rtenv_text rtenv (header ∷ []) data_bytes)
      (table dom_rtenv (joined (map entry_to_disk two)))
      2
      1
      1
    ≡ (
      success,
      rtenv_text (counted_attr 1 1 rtenv) (header ∷ []) data_bytes,
      table dom_rtenv (joined (map entry_to_disk (count_first 2 1 1 two))),
    )
record_patch_rtenv_counters_lem_example =
    record_patch_rtenv_counters_lem files files rtenv (header ∷ []) data_bytes two 2 1 1
      rtenv-IsStorable two-AllStorable refl refl files-IsGood files-IsGood
