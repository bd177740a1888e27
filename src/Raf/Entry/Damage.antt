-- ===== src/Raf/Entry/Damage.antt =====
-- When an append fails: what the file holds then, and what a listing makes of it.
use native.Mathlib.Nat.{mul-add-mod_self_right, mod-eq_of_lt}
use tpbench.Prelude.{
  ℕ, ◌+◌, ◌-◌, ◌*◌, ◌%◌, ◌≤◌, ◌<◌, [], ◌++◌, some, true, ◌≡◌, ◌≢◌, refl, ap, ◌∙◌, arith, append-nil,
  append_assoc, length-append, Bytes, length, drop, take, length-drop, length-take,
}
use tpbench.Raf.File.{fail, opened}
use tpbench.Raf.File.Laws.{fwrite_short}
use tpbench.Raf.Magic.{pos_start, pos_end, ftype_entry, build_magic}
use tpbench.Raf.Magic.Detect.{validate-build_magic, length-build_magic}
use tpbench.Raf.Entry.{Env, file_io_fail, append_body, entry_append, error, entry_list}
use tpbench.Raf.Entry.Table.{table, length-table}
use tpbench.Raf.Entry.Append.{IsGood, seek_end, check_end}

-- The file after a row was cut short by a full device.
abbrev cut_short : ℕ → Bytes → Bytes → ℕ → Bytes
cut_short domain rows entry room =
    ((build_magic ftype_entry domain pos_start ++ rows) ++ take room entry)
    ++ drop room (build_magic ftype_entry domain pos_end)

append_body-short :
    (domain : ℕ) (rows entry : Bytes) (room : ℕ)
    → room < length entry
    → append_body domain true (length (table domain rows)) entry (opened (table domain rows) room)
      ≡ fail (record {
        past = (build_magic ftype_entry domain pos_start ++ rows) ++ take room entry;
        ahead = drop room (build_magic ftype_entry domain pos_end);
        gap = 0;
        room = 0;
      })
unfolding append_body
append_body-short domain rows entry room h = ground (
  arith,
  length-table domain rows,
  seek_end domain rows entry room [] (table domain rows) refl,
  check_end domain rows entry room,
  validate-build_magic ftype_entry domain pos_end,
  seek_end domain rows entry room
      ((build_magic ftype_entry domain pos_start ++ rows) ++ build_magic ftype_entry domain pos_end)
      []
      (append-nil _
        ∙ append_assoc (build_magic ftype_entry domain pos_start) rows
            (build_magic ftype_entry domain pos_end)),
  fwrite_short entry (build_magic ftype_entry domain pos_start ++ rows)
      (build_magic ftype_entry domain pos_end) room h,
)

length-cut_short :
    (domain : ℕ) (rows entry : Bytes) (room : ℕ)
    → 8 ≤ room
    → room < length entry
    → length (cut_short domain rows entry room) ≡ 8 + length rows + room
length-cut_short domain rows entry room le lt =
    let start_magic = build_magic ftype_entry domain pos_start in
    let end_magic = build_magic ftype_entry domain pos_end in
    omega (
      arith,
      length-append ((start_magic ++ rows) ++ take room entry) (drop room end_magic),
      length-append (start_magic ++ rows) (take room entry),
      length-append start_magic rows,
      length-take room entry,
      length-drop room end_magic,
      length-build_magic ftype_entry domain pos_start,
      length-build_magic ftype_entry domain pos_end,
    )

unaligned : (n size r : ℕ) → 0 < r → r < size → (n * size + r) % size ≢ 0
unaligned n size r pos lt e =
    omega (arith, mul-add-mod_self_right n size r, mod-eq_of_lt {n = r} {m = size} lt, e)

-- A file whose rows do not come out even is not listed.
list_unaligned :
    (domain size : ℕ) (bytes : Bytes)
    → (length bytes - 16) % size ≢ 0
    → entry_list true domain size (some bytes) ≡ error file_io_fail
unfolding entry_list
list_unaligned domain size bytes h = ground arith

-- A device that fills up within a row costs the whole table: if it takes more than eight bytes of a
-- row and not the row, the append reports failure, and the listing of the file that it leaves fails
-- too, although the table held whole rows before.
pub append_short_loses :
    (env : Env) (domain n : ℕ) (rows entry : Bytes)
    → IsGood env
    → length rows ≡ n * length entry
    → 8 < env.room
    → env.room < length entry
    → ((entry_append env domain (some (table domain rows)) entry).0 ≡ file_io_fail)
      × (entry_list true domain
            (length entry)
            (entry_append env domain (some (table domain rows)) entry).1
          ≡ error file_io_fail)
unfolding entry_append
append_short_loses env domain n rows entry g size some_room short =
    let cut = append_body-short domain rows entry env.room short in
    let bytes = cut_short domain rows entry env.room in
    let len = length-cut_short domain rows entry env.room (omega arith) short in
    let odd : (length bytes - 16) % length entry ≢ 0 = λ e.
      unaligned n (length entry) (env.room - 8) (omega arith) (omega arith) (
        ap (λ k. k % length entry) {x = n * length entry + (env.room - 8)} {y = length bytes - 16}
          (omega arith)
        ∙ e) in
    rw (g.opens, g.locks, g.streams, g.stats, g.closes, cut)
      (refl, list_unaligned domain (length entry) bytes odd)
