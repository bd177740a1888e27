-- ===== src/Raf/Entry/Append.antt =====
-- Appending a row: to a table, where there is none yet, and to a file that is no table.
use tpbench.Prelude.{
  ℕ, ◌+◌, ◌-◌, ◌*◌, ◌^◌, ◌≤◌, ◌<◌, List, [], ◌∷◌, ◌++◌, Option, some, none, true, ◌≡◌, refl, sym,
  ap, ◌∙◌, arith, append-nil, append_assoc, length-append, Bytes, length, nil_of_length, drop,
  drop-nil, length-drop,
}
use tpbench.Raf.File.{File, ok, then_do, opened, fread, fwrite, fseek, ◌>>◌}
use tpbench.Raf.File.Laws.{Reads-fread, fwrite_over, fseek_to}
use tpbench.Raf.Magic.{pos_start, pos_end, ftype_entry, build_magic}
use tpbench.Raf.Magic.Detect.{validate-build_magic, length-build_magic}
use tpbench.Raf.Entry.{Env, success, append_body, entry_append, listed, entry_list, close_append}
use tpbench.Raf.Entry.Table.{table, length-table, list-table}

-- Nothing that the function calls fails.
pub record IsGood (env : Env) : Type 0 where
  pub opens : env.open_ok ≡ true
  pub locks : env.flock_ok ≡ true
  pub streams : env.fdopen_ok ≡ true
  pub stats : env.fstat_ok ≡ true
  pub closes : env.fclose_ok ≡ true

module _ (domain : ℕ) (rows entry : Bytes) (room : ℕ) where
  abbrev pub start_magic : Bytes
  start_magic = build_magic ftype_entry domain pos_start

  abbrev pub end_magic : Bytes
  end_magic = build_magic ftype_entry domain pos_end

  abbrev pub at_end : Bytes → Bytes → ℕ → File
  at_end past ahead left = record { past = past; ahead = ahead; gap = 0; room = left }

  pub seek_end :
      (past ahead : Bytes)
      → past ++ ahead ≡ table domain rows
      → fseek (length (table domain rows) - 8) (at_end past ahead room)
        ≡ ok tt (at_end (start_magic ++ rows) end_magic room)
  seek_end past ahead e =
      fseek_to (length (table domain rows) - 8) room past ahead (start_magic ++ rows) end_magic
        (e ∙ sym (append_assoc start_magic rows end_magic))
        (omega (
          arith,
          length-table domain rows,
          length-append start_magic rows,
          length-build_magic ftype_entry domain pos_start,
        ))

  pub check_end :
      fread 8 (at_end (start_magic ++ rows) end_magic room)
      ≡ ok end_magic (at_end ((start_magic ++ rows) ++ end_magic) [] room)
  check_end =
      ap (λ l. fread 8 (at_end (start_magic ++ rows) l room)) (sym (append-nil end_magic))
      ∙ (Reads-fread 8 end_magic (length-build_magic ftype_entry domain pos_end)).run
          (start_magic ++ rows) [] room

  -- The row and the end signature, over the old end signature.
  write_end :
      length entry + 8 ≤ room
      → (left : ℕ) × ((fwrite entry >> fwrite end_magic)
            (at_end (start_magic ++ rows) end_magic room)
          ≡ ok tt (at_end (table domain (rows ++ entry)) [] left))
  write_end h =
      let size = length-build_magic ftype_entry domain pos_end in
      let past = (start_magic ++ rows) ++ entry in
      let ahead = drop (length entry) end_magic in
      let gone : [] ≡ drop (length end_magic) ahead =
        nil_of_length (drop (length end_magic) ahead) (
          omega (
            arith,
            length-drop (length end_magic) ahead,
            length-drop (length entry) end_magic,
            size,
          )) in
      let left = room - length entry - length end_magic in
      (
        left,
        ap (λ r. then_do r (λ _. fwrite end_magic))
              (fwrite_over entry (start_magic ++ rows) end_magic room (omega arith))
            ∙ fwrite_over end_magic past ahead (room - length entry) (omega arith)
            ∙ ap (λ l. ok tt (at_end (past ++ end_magic) l left)) (sym gone)
            ∙ ap (λ l. ok tt (at_end l [] left))
                (append_assoc (start_magic ++ rows) entry end_magic
                  ∙ append_assoc start_magic rows (entry ++ end_magic)
                  ∙ ap (λ l. start_magic ++ l) (sym (append_assoc rows entry end_magic))),
      )

  append_body-table :
      length entry + 8 ≤ room
      → (left : ℕ) × (append_body domain true
            (length (table domain rows))
            entry
            (opened (table domain rows) room)
          ≡ ok tt (at_end (table domain (rows ++ entry)) [] left))
  unfolding append_body
  append_body-table h =
      let (left, e) = write_end h in
      (
        left,
        ground (
          arith,
          length-table domain rows,
          seek_end [] (table domain rows) refl,
          check_end,
          validate-build_magic ftype_entry domain pos_end,
          seek_end ((start_magic ++ rows) ++ end_magic) []
              (append-nil _ ∙ append_assoc start_magic rows end_magic),
          e,
        ),
      )

  append_body-empty :
      length entry + 16 ≤ room
      → (left : ℕ) × (append_body domain true 0 entry (opened [] room)
          ≡ ok tt (at_end (table domain entry) [] left))
  unfolding append_body
  append_body-empty h =
      let first = length-build_magic ftype_entry domain pos_start in
      let past = start_magic ++ entry in
      let left = room - length start_magic - length entry - length end_magic in
      (
        left,
        ground (
          arith,
          fwrite_over start_magic [] [] room (omega arith),
          drop-nil ℕ (length start_magic),
          fwrite_over entry start_magic [] (room - length start_magic) (omega arith),
          drop-nil ℕ (length entry),
          fwrite_over end_magic past [] (room - length start_magic - length entry)
              (omega (arith, length-build_magic ftype_entry domain pos_end)),
          drop-nil ℕ (length end_magic),
          append_assoc start_magic entry end_magic,
        ),
      )

-- A row of `length entry` bytes is appended to a table when nothing fails: the call reports success
-- and the file is the table with the row behind the others.
pub append-table :
    (env : Env) (domain : ℕ) (rows entry : Bytes)
    → IsGood env
    → length entry + 8 ≤ env.room
    → entry_append env domain (some (table domain rows)) entry
      ≡ (success, some (table domain (rows ++ entry)))
unfolding entry_append
append-table env domain rows entry g h =
    let (left, e) = append_body-table domain rows entry env.room h in
    rw (g.opens, g.locks, g.streams, g.stats, g.closes)
      (ap (close_append true) e
        ∙ ap (λ l. (success, some l)) (append-nil (table domain (rows ++ entry))))

-- The first row makes the table.
pub append_first :
    (env : Env) (domain : ℕ) (entry : Bytes)
    → IsGood env
    → length entry + 16 ≤ env.room
    → entry_append env domain none entry ≡ (success, some (table domain entry))
unfolding entry_append
append_first env domain entry g h =
    let (left, e) = append_body-empty domain [] entry env.room h in
    rw (g.opens, g.locks, g.streams, g.stats, g.closes)
      (ap (close_append true) e ∙ ap (λ l. (success, some l)) (append-nil (table domain entry)))

-- Appends in a row, from a file or from none, each with what its calls report.
pub append_all : ℕ → Option Bytes → List (Env × Bytes) → Option Bytes
append_all domain disk [] = disk
append_all domain disk ((env, entry) ∷ rest) =
    append_all domain (entry_append env domain disk entry).1 rest

-- The rows of the calls, one after the other.
abbrev pub rows_of : List (Env × Bytes) → Bytes
rows_of [] = []
rows_of ((env, entry) ∷ rest) = entry ++ rows_of rest

-- Calls in which nothing fails, with rows of one size.
abbrev pub AllGood : ℕ → List (Env × Bytes) → Type 0
AllGood size [] = Unit
AllGood size ((env, entry) ∷ rest) =
    IsGood env × (length entry ≡ size) × (size + 16 ≤ env.room) × AllGood size rest

append_all-table :
    (domain size : ℕ) (rows : Bytes) (calls : List (Env × Bytes))
    → AllGood size calls
    → append_all domain (some (table domain rows)) calls
      ≡ some (table domain (rows ++ rows_of calls))
unfolding append_all
append_all-table domain size rows [] g = rw append-nil
append_all-table domain size rows ((env, entry) ∷ rest) (good, n, room, g) =
    ap (λ d. append_all domain d.1 rest) (append-table env domain rows entry good (omega arith))
    ∙ append_all-table domain size (rows ++ entry) rest g
    ∙ ap (λ l. some (table domain l)) (append_assoc rows entry (rows_of rest))

length-rows_of :
    (size : ℕ) (calls : List (Env × Bytes))
    → AllGood size calls
    → length (rows_of calls) ≡ length calls * size
length-rows_of size [] g = omega arith
length-rows_of size ((env, entry) ∷ rest) (good, n, room, g) =
    omega (arith, length-append entry (rows_of rest), length-rows_of size rest g)

-- The file refines a list of rows: after any number of appends to a new table, below 2 ^ 31, in
-- which nothing fails, the listing is all the rows in the order of the calls, and their number.
pub list-append_all :
    (domain size : ℕ) (calls : List (Env × Bytes))
    → 0 < size
    → length calls < 2 ^ 31
    → AllGood size calls
    → entry_list true domain size (append_all domain none calls)
      ≡ listed (rows_of calls) (length calls)
unfolding append_all
list-append_all domain size [] pos few g = unfold entry_list in refl
list-append_all domain size ((env, entry) ∷ rest) pos few g =
    let made = append_first env domain entry g.0 (omega arith) in
    let all = append_all-table domain size entry rest g.3 in
    ap (entry_list true domain size) (ap (λ d. append_all domain d.1 rest) made ∙ all)
    ∙ list-table domain size (length ((env, entry) ∷ rest)) (entry ++ rows_of rest)
        (length-rows_of size ((env, entry) ∷ rest) g) pos few
