-- ===== src/Raf/Entry/Table.antt =====
-- The table as its rows, and what `_tpb_raf_l1_entry_list` gives of it.
use native.Mathlib.Nat.{mul-div_cancel, mul-mod_left, mod-eq_of_lt}
use tpbench.Prelude.{
  ℕ, ◌+◌, ◌-◌, ◌*◌, ◌/◌, ◌%◌, ◌^◌, ◌<◌, [], ◌++◌, none, some, true, ◌≡◌, refl, ap, arith,
  append-nil, length-append, Bytes, length, Bool-cases, inl, inr, ◌==◌, nil_of_length,
}
use tpbench.Raf.File.{File, ok, opened}
use tpbench.Raf.File.Laws.{Reads-fread}
use tpbench.Raf.Magic.{pos_start, pos_end, ftype_entry, build_magic}
use tpbench.Raf.Magic.Detect.{validate-build_magic, length-build_magic}
use tpbench.Raf.Entry.{listed, read_rows, list_body, entry_list}

-- The file that holds `rows`, all rows one after the other.
abbrev pub table : ℕ → Bytes → Bytes
table domain rows =
    build_magic ftype_entry domain pos_start ++ (rows ++ build_magic ftype_entry domain pos_end)

pub length-table : (domain : ℕ) (rows : Bytes) → length (table domain rows) ≡ 16 + length rows
length-table domain rows = omega (
  arith,
  length-append (build_magic ftype_entry domain pos_start)
      (rows ++ build_magic ftype_entry domain pos_end),
  length-append rows (build_magic ftype_entry domain pos_end),
  length-build_magic ftype_entry domain pos_start,
  length-build_magic ftype_entry domain pos_end,
)

module _ (domain entry_size n : ℕ) (rows : Bytes) (size : length rows ≡ n * entry_size) where
  read_rows-eq :
      (past : Bytes)
      → (f : File) × (read_rows domain n entry_size (record {
        past = past;
        ahead = rows ++ build_magic ftype_entry domain pos_end;
        gap = 0;
        room = 0;
      })
          ≡ ok (listed rows n) f)
  unfolding read_rows
  read_rows-eq past =
      let end_magic : Bytes = build_magic ftype_entry domain pos_end in
      (
        record { past = past ++ rows ++ end_magic; ahead = []; gap = 0; room = 0 },
        ground (
          arith,
          (Reads-fread (n * entry_size) rows size).run past end_magic 0,
          append-nil end_magic,
          (Reads-fread 8 end_magic (length-build_magic ftype_entry domain pos_end)).run
              (past ++ rows) [] 0,
          validate-build_magic ftype_entry domain pos_end,
        ),
      )

  no_rows : n ≡ 0 → [] ≡ rows
  no_rows e = nil_of_length rows (grind (arith, size, e))

  list_body-eq :
      n < 2 ^ 31
      → (f : File) × (list_body domain n entry_size (opened (table domain rows) 0)
          ≡ ok (listed rows n) f)
  unfolding list_body
  list_body-eq few =
      let start_magic : Bytes = build_magic ftype_entry domain pos_start in
      let end_magic : Bytes = build_magic ftype_entry domain pos_end in
      let first =
        (Reads-fread 8 start_magic (length-build_magic ftype_entry domain pos_start)).run []
          (rows ++ end_magic) 0 in
      let valid = validate-build_magic ftype_entry domain pos_start in
      let (f, later) = read_rows-eq start_magic in
      elim (Bool-cases (n == 0)) [
        | inl e ↦ (
          record { past = start_magic; ahead = rows ++ end_magic; gap = 0; room = 0 },
          ground (arith, first, valid, no_rows),
        )
        | inr e ↦ (f, ground (arith, first, valid, later))
      ]

  -- A table of fewer than 2 ^ 31 rows is listed whole: its bytes, and the number of rows.
  pub list-table :
      0 < entry_size
      → n < 2 ^ 31
      → entry_list true domain entry_size (some (table domain rows)) ≡ listed rows n
  unfolding entry_list
  list-table pos few =
      let total = length-table domain rows in
      let data_size : length (table domain rows) - 16 ≡ n * entry_size = omega arith in
      let (f, e) = list_body-eq few in
      ground (
        arith,
        ap (λ k. k % entry_size) data_size,
        ap (λ k. k / entry_size) data_size,
        mul-mod_left n entry_size,
        mul-div_cancel n pos,
        e,
        mod-eq_of_lt {n = n} {m = 2 ^ 32} (omega arith),
      )

-- A domain without a table has no rows.
pub list_none : (domain entry_size : ℕ) → entry_list true domain entry_size none ≡ listed [] 0
unfolding entry_list
list_none domain entry_size = refl
