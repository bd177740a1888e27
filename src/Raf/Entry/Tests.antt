-- ===== src/Raf/Entry/Tests.antt =====
-- Runs on a table of rows of two bytes.
use tpbench.Prelude.{List, length, arith, [], ◌∷◌, Option, none, some, true, ◌≡◌, refl, Bytes}
use tpbench.Raf.Entry.{
  Env, Status, file_io_fail, error, entry_append, append_body, listed, list_body, entry_list,
}
use tpbench.Raf.Entry.Table.{table}
use tpbench.Raf.Entry.Append.{IsGood, append_all, rows_of, list-append_all}
use tpbench.Raf.Entry.Damage.{append_short_loses}
use tpbench.Raf.File.{fread, fwrite, fseek}
use tpbench.Raf.Magic.{build_magic, validate_magic}

abbrev pub good : Env
good = record {
  open_ok = true;
  flock_ok = true;
  fdopen_ok = true;
  fstat_ok = true;
  fclose_ok = true;
  room = 100;
}

abbrev appended : Status × Option Bytes → Option Bytes
appended r = r.1

two_rows :
    entry_list true 2 2 (
      appended
        (entry_append good 2 (appended (entry_append good 2 none (7 ∷ 8 ∷ []))) (9 ∷ 10 ∷ [])))
    ≡ listed (7 ∷ 8 ∷ 9 ∷ 10 ∷ []) 2
unfolding entry_list list_body entry_append append_body fread fwrite fseek build_magic
    validate_magic
two_rows = refl

good-IsGood : IsGood good
good-IsGood = record { opens = refl; locks = refl; streams = refl; stats = refl; closes = refl }

abbrev rows : Bytes
rows = 1 ∷ 2 ∷ 3 ∷ 4 ∷ []

abbrev entry : Bytes
entry = 5 ∷ 6 ∷ []

abbrev calls : List (Env × Bytes)
calls = (good, entry) ∷ (good, 7 ∷ 8 ∷ []) ∷ []

list-append_all_example :
    entry_list true 2 2 (append_all 2 none calls) ≡ listed (rows_of calls) (length calls)
list-append_all_example =
    list-append_all 2 2 calls (omega arith) (omega arith)
      (good-IsGood, refl, omega arith, (good-IsGood, refl, omega arith, tt))

abbrev long_entry : Bytes
long_entry = 1 ∷ 2 ∷ 3 ∷ 4 ∷ 5 ∷ 6 ∷ 7 ∷ 8 ∷ 9 ∷ 10 ∷ []

abbrev nearly_full : Env
nearly_full = record good { room = 9 }

append_short_loses_example :
    ((entry_append nearly_full 2 (some (table 2 long_entry)) long_entry).0 ≡ file_io_fail)
    × (entry_list true 2
          (length long_entry)
          (entry_append nearly_full 2 (some (table 2 long_entry)) long_entry).1
        ≡ error file_io_fail)
append_short_loses_example =
    append_short_loses nearly_full 2 1 long_entry long_entry
      (record { opens = refl; locks = refl; streams = refl; stats = refl; closes = refl }) refl
      (omega arith) (omega arith)
