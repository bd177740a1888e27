-- ===== src/Raf/Kernel/Entry/Laws.antt =====
-- The patches of the kernel table, and the deactivation of a name.
use tpbench.Prelude.{
  ℕ, ◌+◌, ◌^◌, ◌<◌, true, List, [], ◌∷◌, ◌++◌, Option, none, some, ◌≡◌, refl, sym, subst, ap, ◌∙◌,
  arith, append_assoc, Bool-cases, inl, inr, if◌then◌else◌, Bytes, length, length-append, le_bytes,
}
use tpbench.Raf.Kernel.Entry.{
  KernelEntry, Env, entries, list_error, entry_list_kernel, index_of, entry_patch_kernel_active,
  entry_patch_kernel_utc, Store, Envs, deactivate, is_meant, deactivate_loop,
  kernel_deactivate_same_name,
}
use tpbench.Raf.Entry.{Status}
use tpbench.Raf.Kernel.Entry.Rows.{AllStorable, segments_eq}
use tpbench.Raf.Kernel.Entry.Patch.{
  kernel_table, list_lem, IsGood, change_first, IsField, changed, entry_patch-found,
}
use tpbench.Raf.Kernel.Entry.Behind.{
  with_active, NoId, IdsDiffer, Apart, one_off, all_off, Apart-snoc, Apart-nil, change_first-behind,
  index_behind, AllStorable-one_off, one_off-id,
}

abbrev pub with_utc : ℕ → KernelEntry → KernelEntry
with_utc v e = record e { utc_bits = v }

abbrev head_fields : KernelEntry → List Bytes → List Bytes
head_fields e ys =
    e.kernel_id
    ∷ e.inherit_from
    ∷ e.kernel_name
    ∷ le_bytes 4 e.kctrl
    ∷ le_bytes 4 e.narg
    ∷ le_bytes 4 e.nmetric
    ∷ ys

active-IsField : (v : ℕ) → IsField 116 (le_bytes 4 v) (with_active v)
active-IsField v = record {
  front = λ e. head_fields e [];
  old = λ e. le_bytes 4 e.active;
  behind = λ e. le_bytes 8 e.utc_bits ∷ e.reserve ∷ [];
  place = λ e s. omega (arith, s.kernel_id_size, s.inherit_from_size, s.kernel_name_size);
  size = λ e. refl;
  row = segments_eq;
  new_row = λ e. segments_eq (with_active v e);
}

utc-IsField : (v : ℕ) → IsField 120 (le_bytes 8 v) (with_utc v)
utc-IsField v = record {
  front = λ e. head_fields e (le_bytes 4 e.active ∷ []);
  old = λ e. le_bytes 8 e.utc_bits;
  behind = λ e. e.reserve ∷ [];
  place = λ e s. omega (arith, s.kernel_id_size, s.inherit_from_size, s.kernel_name_size);
  size = λ e. refl;
  row = segments_eq;
  new_row = λ e. segments_eq (with_utc v e);
}

-- The active flag and the time of a kernel are patched in its table when nothing fails: without an
-- entry of the identifier the table stays and the error says so, and else the first such entry has
-- the new value and nothing else changes.
pub entry_patch_kernel_lem :
    (env : Env) (es : List KernelEntry) (kernel_id : Bytes) (v : ℕ)
    → AllStorable es
    → length es < 2 ^ 31
    → IsGood env
    → (entry_patch_kernel_active env (some (kernel_table es)) kernel_id v
        ≡ changed es (change_first kernel_id (with_active v) es) (index_of kernel_id es))
      × (entry_patch_kernel_utc env (some (kernel_table es)) kernel_id v
          ≡ changed es (change_first kernel_id (with_utc v) es) (index_of kernel_id es))
unfolding entry_patch_kernel_active entry_patch_kernel_utc
entry_patch_kernel_lem env es kernel_id v s few g = (
  entry_patch-found 116 (le_bytes 4 v) kernel_id (with_active v) (active-IsField v) env es s few g
      (omega (arith, g.room)),
  entry_patch-found 120 (le_bytes 8 v) kernel_id (with_utc v) (utc-IsField v) env es s few g g.room,
)

-- The patch of a kernel that stands behind others.
patch_behind :
    (env : Env) (done es : List KernelEntry) (e : KernelEntry)
    → AllStorable (done ++ (e ∷ es))
    → length (done ++ (e ∷ es)) < 2 ^ 31
    → IsGood env
    → NoId e.kernel_id done
    → (entry_patch_kernel_active env (some (kernel_table (done ++ (e ∷ es)))) e.kernel_id 0).1
      ≡ some (kernel_table (done ++ (with_active 0 e ∷ es)))
patch_behind env done es e s few g n =
    let all = done ++ (e ∷ es) in
    let (i, there) = index_behind done es e in
    ap (λ r. r.1) ((entry_patch_kernel_lem env all e.kernel_id 0 s few g).0)
    ∙ ap (λ o. (changed all (change_first e.kernel_id (with_active 0) all) o).1) there
    ∙ ap (λ l. some (kernel_table l)) (change_first-behind (with_active 0) done es e n)

step_table :
    (env : Envs) (st : Store) (name : Bytes) (skip : Option Bytes) (done es : List KernelEntry)
    (e : KernelEntry)
    → IsGood env.on_table
    → st.table ≡ some (kernel_table (done ++ (e ∷ es)))
    → AllStorable (done ++ (e ∷ es))
    → length (done ++ (e ∷ es)) < 2 ^ 31
    → NoId e.kernel_id done
    → (if is_meant name skip e then deactivate env st e.kernel_id else st).table
      ≡ some (kernel_table (done ++ (one_off name skip e ∷ es)))
step_table env st name skip done es e g t s few n = elim (Bool-cases (is_meant name skip e)) [
  | inl meant ↦ rw meant (
      ap (λ d. (entry_patch_kernel_active env.on_table d e.kernel_id 0).1) t
      ∙ patch_behind env.on_table done es e s few g n)
  | inr other ↦ rw other t
]

loop_table :
    (envs : ℕ → Envs) (i : ℕ) (st : Store) (name : Bytes) (skip : Option Bytes)
    (done es : List KernelEntry)
    → ((k : ℕ) → IsGood (envs k).on_table)
    → st.table ≡ some (kernel_table (done ++ es))
    → AllStorable (done ++ es)
    → length (done ++ es) < 2 ^ 31
    → Apart done es
    → IdsDiffer es
    → (deactivate_loop envs i st es name skip).table
      ≡ some (kernel_table (done ++ all_off name skip es))
unfolding deactivate_loop
loop_table envs i st name skip done [] g t s few a d = t
loop_table envs i st name skip done (e ∷ es) g t s few a d =
    let e' = one_off name skip e in
    let next = if is_meant name skip e then deactivate (envs i) st e.kernel_id else st in
    let t' : next.table ≡ some (kernel_table (done ++ (e' ∷ es))) =
      step_table (envs i) st name skip done es e (g i) t s few a.0 in
    let behind = append_assoc done (e' ∷ []) in
    loop_table envs (i + 1) next name skip (done ++ (e' ∷ [])) es g
      (t' ∙ ap (λ l. some (kernel_table l)) (sym (behind es)))
      (subst AllStorable (sym (behind es)) (AllStorable-one_off name skip done es e s))
      (omega (
        arith,
        length-append (done ++ (e' ∷ [])) es,
        length-append done (e' ∷ []),
        length-append done (e ∷ es),
      ))
      (Apart-snoc done es e e' (one_off-id name skip e) a.1 d.0) d.1
    ∙ ap (λ l. some (kernel_table l)) (behind (all_off name skip es))

-- In a table whose identifiers differ, all kernels of a name but the skipped one are made inactive
-- when nothing fails on the table, and no other entry or field changes.
pub kernel_deactivate_same_name_lem :
    (envs : ℕ → Envs) (st : Store) (es : List KernelEntry) (name : Bytes) (skip : Option Bytes)
    → ((k : ℕ) → IsGood (envs k).on_table)
    → st.table ≡ some (kernel_table es)
    → AllStorable es
    → length es < 2 ^ 31
    → IdsDiffer es
    → (kernel_deactivate_same_name true envs st name skip).1.table
      ≡ some (kernel_table (all_off name skip es))
unfolding kernel_deactivate_same_name
kernel_deactivate_same_name_lem envs st es name skip g t s few d =
    ap
      (λ l.
        (elim l as (λ _. Option Status × Store) [
          | entries xs ↦ (none, deactivate_loop envs 0 st xs name skip)
          | list_error x ↦ (some x, st)
        ]).1.table)
      (ap (entry_list_kernel true) t ∙ list_lem es s few)
    ∙ loop_table envs 0 st name skip [] es g t s few (Apart-nil es) d
