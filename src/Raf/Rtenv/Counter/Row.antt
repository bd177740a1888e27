-- ===== src/Raf/Rtenv/Counter/Row.antt =====
-- Patching the counters of a runtime environment in its row.
use tpbench.Prelude.{
  ℕ, zero, suc, ◌+◌, ◌-◌, ◌*◌, ◌%◌, ◌^◌, ◌≤◌, Bool, true, false, List, [], ◌∷◌, ◌++◌, ◌≡◌, refl,
  sym, ap, ◌∙◌, subst, arith, Bool-cases, inl, inr, if◌then◌else◌, ◌==◌, append_assoc, append-nil,
  Bytes, length, map, le_bytes,
}
use tpbench.Raf.File.{◌>>◌, M, fseek, write_u32, contents}
use tpbench.Raf.File.Laws.{Reads-fread}
use tpbench.Raf.File.Seek.{Runs, run_over, at_place}
use tpbench.Raf.File.Segments.{
  joined, total, total-append, joined-inline, joined-append, length-joined, RunsAt, begin_behind,
  from_place, read_seg, check_seg, write_seg, write_last_seg,
}
use tpbench.Raf.Magic.{pos_start, pos_end, ftype_entry, dom_rtenv, build_magic}
use tpbench.Raf.Magic.Detect.{validate-build_magic, length-build_magic}
use tpbench.Raf.Entry.Table.{table}
use tpbench.Raf.Record.Patch.{success, patch_file, patch_file-RunsAt}
use tpbench.Raf.Rtenv.Entry.{RtenvEntry, entry_size, entry_to_disk}
use tpbench.Raf.Rtenv.Entry.Rows.{
  IsStorable, AllStorable, segments, segments_eq, disk_to_entry-entry_to_disk, length-entry_to_disk,
}
use tpbench.Raf.Rtenv.Counter.{Env, patch_rows, patch_tpbe_body, patch_tpbe_counters}

-- The entries with the counters of the first one of the identifier `id` increased.
abbrev pub counted : ℕ → ℕ → RtenvEntry → RtenvEntry
counted a b e = record e { ntask = (e.ntask + a) % 2 ^ 32; ntbatch = (e.ntbatch + b) % 2 ^ 32 }

abbrev pub count_first : ℕ → ℕ → ℕ → List RtenvEntry → List RtenvEntry
count_first id a b [] = []
count_first id a b (e ∷ es) =
    let rest = e ∷ count_first id a b es in if e.id == id then counted a b e ∷ es else rest

abbrev pub has_id : ℕ → List RtenvEntry → Bool
has_id id [] = false
has_id id (e ∷ es) = let rest = has_id id es in if e.id == id then true else rest

-- Nothing that the function calls fails, and the device takes the counters.
pub record IsGood (env : Env) : Type 0 where
  pub opens : env.opens ≡ true
  pub locks : env.locks ≡ true
  pub flushed : env.flushed ≡ true
  pub room : 8 ≤ env.room

module _ (id a b : ℕ) where
  abbrev front : RtenvEntry → List Bytes
  front e =
      le_bytes 4 e.id
      ∷ e.name
      ∷ e.hostname
      ∷ le_bytes 8 e.utc_bits
      ∷ le_bytes 4 e.inherit_from
      ∷ le_bytes 4 e.derive_to
      ∷ []

  abbrev behind : RtenvEntry → List Bytes → List Bytes
  behind e ys = e.note ∷ le_bytes 4 e.napp ∷ le_bytes 4 e.nenv ∷ e.reserve ∷ ys

  row_eq :
      (xs ys : List Bytes) (e : RtenvEntry)
      → joined (xs ++ (entry_to_disk e ∷ ys))
        ≡ joined ((xs ++ front e) ++ (le_bytes 4 e.ntask ∷ le_bytes 4 e.ntbatch ∷ behind e ys))
  row_eq xs ys e =
      ap (λ r. joined (xs ++ (r ∷ ys))) (segments_eq e)
      ∙ joined-inline xs (segments e) ys
      ∙ ap joined (sym (append_assoc xs (front e) _))

  write_row-Runs :
      (pos room : ℕ) (xs ys : List Bytes) (e : RtenvEntry)
      → IsStorable e
      → total xs ≡ pos
      → 8 ≤ room
      → Runs
          (fseek (pos + 532)
            >> write_u32 ((e.ntask + a) % 2 ^ 32)
            >> write_u32 ((e.ntbatch + b) % 2 ^ 32))
          (joined (xs ++ (entry_to_disk e ∷ ys)))
          room
          tt
          (joined (xs ++ (entry_to_disk (counted a b e) ∷ ys)))
          (room - 4 - 4)
  unfolding write_u32
  write_row-Runs pos room xs ys e s t fits =
      let nt = (e.ntask + a) % 2 ^ 32 in
      let nb = (e.ntbatch + b) % 2 ^ 32 in
      let place : total (xs ++ front e) ≡ pos + 532 =
        omega (arith, total-append xs (front e), s.name_size, s.hostname_size) in
      let new : joined (((xs ++ front e) ++ (le_bytes 4 nt ∷ [])) ++ (le_bytes 4 nb ∷ behind e ys))
          ≡ joined (xs ++ (entry_to_disk (counted a b e) ∷ ys)) =
        ap joined (append_assoc (xs ++ front e) (le_bytes 4 nt ∷ []) (le_bytes 4 nb ∷ behind e ys))
        ∙ sym (row_eq xs ys (counted a b e)) in
      run_over (row_eq xs ys e) new (
        begin_behind _ (pos + 532) (xs ++ front e)
          (le_bytes 4 e.ntask ∷ le_bytes 4 e.ntbatch ∷ behind e ys) place
          (write_seg (le_bytes 4 nt) _ refl (omega arith)
            (write_last_seg (le_bytes 4 nb) refl (omega arith))))

  abbrev end_magic : Bytes
  end_magic = build_magic ftype_entry dom_rtenv pos_end

  abbrev rows : List RtenvEntry → List Bytes
  rows es = map entry_to_disk es ++ (end_magic ∷ [])

  -- What is done with a row that was read.
  abbrev with_entry : ℕ → ℕ → RtenvEntry → M (Unit {0})
  with_entry fuel pos disk =
      let rest = patch_rows fuel (pos + entry_size) id a b in
      if disk.id == id
      then (do
        fseek (pos + 532)
        write_u32 ((disk.ntask + a) % 2 ^ 32)
        write_u32 ((disk.ntbatch + b) % 2 ^ 32))
      else rest

  patch_rows-Runs :
      (fuel pos room : ℕ) (xs : List Bytes) (es : List RtenvEntry)
      → AllStorable es
      → total xs ≡ pos
      → length es ≤ fuel
      → has_id id es ≡ true
      → 8 ≤ room
      → Runs
          (patch_rows fuel pos id a b)
          (joined (xs ++ rows es))
          room
          tt
          (joined (xs ++ rows (count_first id a b es)))
          (room - 4 - 4)
  unfolding patch_rows
  patch_rows-Runs fuel pos room xs [] s t f found fits = absurd (ground (arith, found))
  patch_rows-Runs zero pos room xs (e ∷ es) s t f found fits = absurd (omega arith)
  patch_rows-Runs (suc fuel) pos room xs (e ∷ es) s t f found fits =
      let ys = rows es in
      let behind_row = append_assoc xs (entry_to_disk e ∷ []) ys in
      let place : total (xs ++ (entry_to_disk e ∷ [])) ≡ pos + entry_size =
        omega (arith, total-append xs (entry_to_disk e ∷ []), length-entry_to_disk e s.0) in
      let entry = disk_to_entry-entry_to_disk e s.0 in
      let next : Runs (with_entry fuel pos e) (joined (xs ++ (entry_to_disk e ∷ ys))) room tt
          (joined (xs ++ rows (count_first id a b (e ∷ es)))) (room - 4 - 4) =
        elim (Bool-cases (e.id == id)) [
          | inl same ↦ rw same (write_row-Runs pos room xs ys e s.0 t fits)
          | inr other ↦ rw other (
              run_over (ap joined (sym behind_row))
                (ap joined (append_assoc xs (entry_to_disk e ∷ []) (rows (count_first id a b es))))
                (patch_rows-Runs fuel (pos + entry_size) room (xs ++ (entry_to_disk e ∷ [])) es s.1
                  place (omega arith)
                  (ap (λ c. if c then true else has_id id es) (sym other) ∙ found) fits))
        ] in
      begin_behind _ pos xs (entry_to_disk e ∷ ys) t (
        read_seg _ (Reads-fread entry_size (entry_to_disk e) (length-entry_to_disk e s.0)) (
          from_place _ (
            subst
              (λ d.
                Runs (with_entry fuel pos d) (joined ((xs ++ (entry_to_disk e ∷ [])) ++ ys)) room tt
                  (joined (xs ++ rows (count_first id a b (e ∷ es)))) (room - 4 - 4))
              (sym entry) (run_over (ap joined behind_row) refl next))))

  total-rows :
      (es : List RtenvEntry) → AllStorable es → total (rows es) ≡ length es * entry_size + 8
  total-rows [] s = omega (arith, length-build_magic ftype_entry dom_rtenv pos_end)
  total-rows (e ∷ es) s = omega (arith, length-entry_to_disk e s.0, total-rows es s.1)

  abbrev start_magic : Bytes
  start_magic = build_magic ftype_entry dom_rtenv pos_start

  search : M (Unit {0})
  search f = patch_rows (length (contents f)) 8 id a b f

  search-RunsAt :
      (room : ℕ) (es : List RtenvEntry)
      → AllStorable es
      → has_id id es ≡ true
      → 8 ≤ room
      → RunsAt search
          (start_magic ∷ [])
          (rows es)
          room
          tt
          (joined (start_magic ∷ rows (count_first id a b es)))
          (room - 4 - 4)
  unfolding search
  search-RunsAt room es s found fits =
      let f = at_place (joined (start_magic ∷ [])) (joined (rows es)) room in
      let whole : contents f ≡ joined ((start_magic ∷ []) ++ rows es) =
        sym (joined-append (start_magic ∷ []) (rows es)) in
      let enough : length es ≤ length (contents f) =
        omega (arith, ap length whole, length-joined (start_magic ∷ rows es), total-rows es s) in
      record {
        run =
            (patch_rows-Runs (length (contents f)) 8 room (start_magic ∷ []) es s
                (omega (arith, length-build_magic ftype_entry dom_rtenv pos_start)) enough found
                fits).run
              f (record { bytes = whole; no_gap = refl; room_left = refl });
      }

  pub patch_tpbe_body-RunsAt :
      (room : ℕ) (es : List RtenvEntry)
      → AllStorable es
      → has_id id es ≡ true
      → 8 ≤ room
      → RunsAt
          (patch_tpbe_body id a b)
          []
          (start_magic ∷ rows es)
          room
          tt
          (joined (start_magic ∷ rows (count_first id a b es)))
          (room - 4 - 4)
  unfolding patch_tpbe_body search
  patch_tpbe_body-RunsAt room es s found fits =
      read_seg _ (Reads-fread 8 start_magic (length-build_magic ftype_entry dom_rtenv pos_start)) (
        check_seg _ _ (validate-build_magic ftype_entry dom_rtenv pos_start)
          (search-RunsAt room es s found fits))

  rows_eq :
      (es : List RtenvEntry)
      → table dom_rtenv (joined (map entry_to_disk es)) ≡ joined (start_magic ∷ rows es)
  rows_eq es =
      ap (λ l. start_magic ++ (joined (map entry_to_disk es) ++ l)) (sym (append-nil end_magic))
      ∙ ap (λ l. start_magic ++ l) (sym (joined-append (map entry_to_disk es) (end_magic ∷ [])))

  pub patch_tpbe_counters_lem :
      (env : Env) (es : List RtenvEntry)
      → AllStorable es
      → has_id id es ≡ true
      → IsGood env
      → patch_tpbe_counters env (table dom_rtenv (joined (map entry_to_disk es))) id a b
        ≡ (success, table dom_rtenv (joined (map entry_to_disk (count_first id a b es))))
  unfolding patch_tpbe_counters
  patch_tpbe_counters_lem env es s found g =
      rw (g.opens, g.locks, g.flushed)
        (ap (patch_file true true true env.room (patch_tpbe_body id a b)) (rows_eq es)
          ∙ patch_file-RunsAt (patch_tpbe_body-RunsAt env.room es s found g.room)
          ∙ ap (λ l. (success, l)) (sym (rows_eq (count_first id a b es))))
