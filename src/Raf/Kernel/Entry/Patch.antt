-- ===== src/Raf/Kernel/Entry/Patch.antt =====
-- A field of a kernel's row is patched in place.
use tpbench.Prelude.{
  ℕ, suc, ◌+◌, ◌-◌, ◌*◌, ◌^◌, ◌≤◌, ◌<◌, true, false, List, [], ◌∷◌, ◌++◌, Option, none, some, ◌≡◌,
  refl, sym, subst, Option-cases, ap, ◌∙◌, arith, append_assoc, append-nil, Bool-cases, inl, inr,
  if◌then◌else◌, ltb, Bytes, bytes_eq, length, map,
}
use tpbench.Raf.File.{◌>>◌, opened, fseek, fwrite}
use tpbench.Raf.File.Seek.{Runs, run_over}
use tpbench.Raf.File.Segments.{
  joined, joined-append, joined-inline, total, total-append, begin_behind, write_last_seg,
}
use tpbench.Raf.Magic.{pos_start, pos_end, ftype_entry, dom_kernel, build_magic}
use tpbench.Raf.Magic.Detect.{length-build_magic}
use tpbench.Raf.Entry.{listed, error}
use tpbench.Raf.Entry.Table.{table, length-table, list-table}
use tpbench.Raf.Entry.Rows.{rows_in, rows_in-joined, length-rows}
use tpbench.Raf.Kernel.Entry.{
  KernelEntry, entry_size, row_of, entry_of, Env, Patched, entries, list_error, entry_list_kernel,
  index_of, next_index, entry_patch, success, file_io_fail, list_not_found, close_patch, patch_at,
}
use tpbench.Raf.Kernel.Entry.Rows.{
  IsStorable, AllStorable, map-entry_of, AllSize-entries, length-row_of,
}

abbrev pub kernel_table : List KernelEntry → Bytes
kernel_table es = table dom_kernel (joined (map row_of es))

length-map : (es : List KernelEntry) → length (map row_of es) ≡ length es
length-map [] = refl
length-map (e ∷ es) = omega (arith, length-map es)

pub list_lem :
    (es : List KernelEntry)
    → AllStorable es
    → length es < 2 ^ 31
    → entry_list_kernel true (some (kernel_table es)) ≡ entries es
unfolding entry_list_kernel
list_lem es s few =
    let rows = map row_of es in
    let sizes = AllSize-entries es s in
    let n = length-map es in
    ap
      (λ l. elim l [
        | listed bytes k ↦ entries (map entry_of (rows_in k entry_size bytes))
        | error t ↦ list_error t
      ])
      (list-table dom_kernel entry_size (length rows) (joined rows)
        (length-rows entry_size rows sizes) (omega arith) (omega arith))
    ∙ ap (λ l. entries (map entry_of l)) (rows_in-joined entry_size rows sizes)
    ∙ ap entries (map-entry_of es s)

-- Nothing that is called on the table fails.
pub record IsGood (env : Env) : Type 0 where
  pub lists : env.fopen_ok ≡ true
  pub opens : env.open_ok ≡ true
  pub locks : env.flock_ok ≡ true
  pub streams : env.fdopen_ok ≡ true
  pub stats : env.fstat_ok ≡ true
  pub room : 8 ≤ env.room

-- The first entry with the identifier, changed.
abbrev pub change_first : Bytes → (KernelEntry → KernelEntry) → List KernelEntry → List KernelEntry
change_first kernel_id g [] = []
change_first kernel_id g (e ∷ es) =
    let rest = e ∷ change_first kernel_id g es in
    if bytes_eq e.kernel_id kernel_id then g e ∷ es else rest

-- What a patch reports, and the table that it leaves.
abbrev pub changed : List KernelEntry → List KernelEntry → Option ℕ → Patched × Option Bytes
changed es es' none = (list_not_found, some (kernel_table es))
changed es es' (some i) = (success, some (kernel_table es'))

-- A field: where its value stands in the rows, and the entry with another value.
pub record IsField (off : ℕ) (value : Bytes) (g : KernelEntry → KernelEntry) : Type 0 where
  pub front : KernelEntry → List Bytes
  pub old : KernelEntry → Bytes
  pub behind : KernelEntry → List Bytes
  pub place : (e : KernelEntry) → IsStorable e → total (front e) ≡ off
  pub size : (e : KernelEntry) → length (old e) ≡ length value
  pub row : (e : KernelEntry) → row_of e ≡ joined (front e ++ (old e ∷ behind e))
  pub new_row : (e : KernelEntry) → row_of (g e) ≡ joined (front e ++ (value ∷ behind e))

-- The index of an entry.
index_or_zero : Option ℕ → ℕ
index_or_zero none = 0
index_or_zero (some i) = i

index_here : (k i : ℕ) → some k ≡ some i → i ≡ k
unfolding index_or_zero
index_here k i h = sym (ap index_or_zero h)

index_behind : (o : Option ℕ) (i : ℕ) → next_index o ≡ some i → (j : ℕ) × (o ≡ some j) × (i ≡ suc j)
index_behind none i h = absurd (ground (arith, h))
index_behind (some j) i h = (j, refl, index_here (suc j) i h)

module _ (off : ℕ) (value kernel_id : Bytes) (g : KernelEntry → KernelEntry)
    (field : IsField off value g) where
  abbrev end_magic : Bytes
  end_magic = build_magic ftype_entry dom_kernel pos_end

  abbrev rows : List KernelEntry → List Bytes
  rows es = map row_of es ++ (end_magic ∷ [])

  inline :
      (xs fr bh ys : List Bytes) (seg row : Bytes)
      → row ≡ joined (fr ++ (seg ∷ bh))
      → joined (xs ++ (row ∷ ys)) ≡ joined ((xs ++ fr) ++ (seg ∷ (bh ++ ys)))
  inline xs fr bh ys seg row e =
      ap (λ r. joined (xs ++ (r ∷ ys))) e
      ∙ joined-inline xs (fr ++ (seg ∷ bh)) ys
      ∙ ap (λ l. joined (xs ++ l)) (append_assoc fr (seg ∷ bh) ys)
      ∙ ap joined (sym (append_assoc xs fr (seg ∷ (bh ++ ys))))

  write_row-Runs :
      (room : ℕ) (xs ys : List Bytes) (e : KernelEntry)
      → IsStorable e
      → length value ≤ room
      → Runs
          (fseek (total xs + off) >> fwrite value)
          (joined (xs ++ (row_of e ∷ ys)))
          room
          tt
          (joined (xs ++ (row_of (g e) ∷ ys)))
          (room - length value)
  write_row-Runs room xs ys e s fits =
      run_over
        (inline xs (field.front e) (field.behind e) ys (field.old e) (row_of e) (field.row e))
        (sym (inline xs (field.front e) (field.behind e) ys value (row_of (g e)) (field.new_row e)))
        (begin_behind _ (total xs + off) (xs ++ field.front e)
          (field.old e ∷ (field.behind e ++ ys))
          (omega (arith, total-append xs (field.front e), field.place e s))
          (write_last_seg value (field.size e) fits))

  write_rows-Runs :
      (room i : ℕ) (xs : List Bytes) (es : List KernelEntry)
      → AllStorable es
      → index_of kernel_id es ≡ some i
      → length value ≤ room
      → Runs
          (fseek (total xs + i * entry_size + off) >> fwrite value)
          (joined (xs ++ rows es))
          room
          tt
          (joined (xs ++ rows (change_first kernel_id g es)))
          (room - length value)
  write_rows-Runs room i xs [] s found fits = absurd (ground (arith, found))
  write_rows-Runs room i xs (e ∷ es) s found fits =
      let old = joined (xs ++ rows (e ∷ es)) in
      let new = joined (xs ++ rows (change_first kernel_id g (e ∷ es))) in
      let at : (p : ℕ)
          → p ≡ total xs + i * entry_size + off
          → Runs (fseek p >> fwrite value) old room tt new (room - length value)
          → Runs (fseek (total xs + i * entry_size + off) >> fwrite value) old room tt new
              (room - length value) =
        λ p h r.
          subst (λ q. Runs (fseek q >> fwrite value) old room tt new (room - length value)) h r in
      elim (Bool-cases (bytes_eq e.kernel_id kernel_id)) [
        | inl same ↦
            (let none_before : i ≡ 0 = index_here 0 i (
                sym (ap (λ c. if c then some 0 else next_index (index_of kernel_id es)) same)
                ∙ found) in
              at (total xs + off) (omega (arith, none_before))
                (rw same (write_row-Runs room xs (rows es) e s.0 fits)))
        | inr other ↦
            (let (j, there, next) = index_behind (index_of kernel_id es) i (
                sym (ap (λ c. if c then some 0 else next_index (index_of kernel_id es)) other)
                ∙ found) in
              let ahead = xs ++ (row_of e ∷ []) in
              at (total ahead + j * entry_size + off)
                (omega (arith, next, total-append xs (row_of e ∷ []), length-row_of e s.0))
                (rw other (
                  run_over (ap joined (sym (append_assoc xs (row_of e ∷ []) (rows es))))
                    (ap joined
                      (append_assoc xs (row_of e ∷ []) (rows (change_first kernel_id g es))))
                    (write_rows-Runs room j ahead es s.1 there fits))))
      ]

  abbrev start_magic : Bytes
  start_magic = build_magic ftype_entry dom_kernel pos_start

  rows_eq : (es : List KernelEntry) → kernel_table es ≡ joined (start_magic ∷ rows es)
  rows_eq es =
      ap (λ l. start_magic ++ (joined (map row_of es) ++ l)) (sym (append-nil end_magic))
      ∙ ap (λ l. start_magic ++ l) (sym (joined-append (map row_of es) (end_magic ∷ [])))

  first_rows :
      (room i : ℕ) (es : List KernelEntry)
      → AllStorable es
      → index_of kernel_id es ≡ some i
      → length value ≤ room
      → Runs
          (fseek (8 + i * entry_size + off) >> fwrite value)
          (joined (start_magic ∷ rows es))
          room
          tt
          (joined (start_magic ∷ rows (change_first kernel_id g es)))
          (room - length value)
  first_rows room i es s found fits =
      subst
        (λ p.
          Runs (fseek (p + i * entry_size + off) >> fwrite value) (joined (start_magic ∷ rows es))
            room tt (joined (start_magic ∷ rows (change_first kernel_id g es)))
            (room - length value))
        (omega (arith, length-build_magic ftype_entry dom_kernel pos_start))
        (write_rows-Runs room i (start_magic ∷ []) es s found fits)

  abbrev with_index : Env → Option Bytes → Option ℕ → Patched × Option Bytes
  with_index env disk none = (list_not_found, disk)
  with_index env disk (some i) =
      patch_at env disk (fseek (8 + i * entry_size + off) >> fwrite value)

  patch_found :
      (env : Env) (es : List KernelEntry) (i : ℕ)
      → AllStorable es
      → index_of kernel_id es ≡ some i
      → IsGood env
      → length value ≤ env.room
      → patch_at env (some (kernel_table es)) (fseek (8 + i * entry_size + off) >> fwrite value)
        ≡ (success, some (kernel_table (change_first kernel_id g es)))
  patch_found env es i s found good fits =
      let bytes = kernel_table es in
      let big : ltb (length bytes) 16 ≡ false =
        ground (arith, length-table dom_kernel (joined (map row_of es))) in
      let (f, e, h) =
        (run_over (rows_eq es) (sym (rows_eq (change_first kernel_id g es)))
            (first_rows env.room i es s found fits)).run
          (opened bytes env.room) (record { bytes = refl; no_gap = refl; room_left = refl }) in
      rw (good.opens, good.locks, good.streams, good.stats, big)
        (ap (close_patch (some bytes)) e ∙ ap (λ l. (success, some l)) h.bytes)

  pub entry_patch-found :
      (env : Env) (es : List KernelEntry)
      → AllStorable es
      → length es < 2 ^ 31
      → IsGood env
      → length value ≤ env.room
      → entry_patch env (some (kernel_table es)) kernel_id off value
        ≡ changed es (change_first kernel_id g es) (index_of kernel_id es)
  unfolding entry_patch
  entry_patch-found env es s few good fits =
      ap
        (λ l. elim l [
          | entries xs ↦ with_index env (some (kernel_table es)) (index_of kernel_id xs)
          | list_error t ↦ (file_io_fail, some (kernel_table es))
        ])
        ((λ j. entry_list_kernel (good.lists j) (some (kernel_table es))) ∙ list_lem es s few)
      ∙ (elim (Option-cases (index_of kernel_id es)) [
        | inl absent ↦ rw absent refl
        | inr (i, there) ↦ rw there (patch_found env es i s there good fits)
      ])
