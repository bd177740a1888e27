-- ===== src/Raf/Kernel/Entry/Behind.antt =====
-- An entry that stands behind others in a table of kernels, and the entries that are made inactive.
use tpbench.Prelude.{
  ℕ, suc, false, List, [], ◌∷◌, ◌++◌, Option, some, ◌≡◌, refl, ap, ◌∙◌, arith, Bool-cases, inl, inr,
  if◌then◌else◌, Bytes, bytes_eq, bytes_eq_refl,
}
use tpbench.Raf.Kernel.Entry.{KernelEntry, index_of, next_index, is_meant}
use tpbench.Raf.Kernel.Entry.Rows.{IsStorable, AllStorable}
use tpbench.Raf.Kernel.Entry.Patch.{change_first}

abbrev pub with_active : ℕ → KernelEntry → KernelEntry
with_active v e = record e { active = v }

-- No entry of the first list has the identifier, and none of the second one that of the first.
abbrev pub NoId : Bytes → List KernelEntry → Type 0
NoId kernel_id [] = Unit
NoId kernel_id (e ∷ es) = (bytes_eq e.kernel_id kernel_id ≡ false) × NoId kernel_id es

abbrev pub NotIn : KernelEntry → List KernelEntry → Type 0
NotIn e [] = Unit
NotIn e (x ∷ es) = (bytes_eq e.kernel_id x.kernel_id ≡ false) × NotIn e es

-- The identifiers of a table differ.
abbrev pub IdsDiffer : List KernelEntry → Type 0
IdsDiffer [] = Unit
IdsDiffer (e ∷ es) = NotIn e es × IdsDiffer es

abbrev pub Apart : List KernelEntry → List KernelEntry → Type 0
Apart done [] = Unit
Apart done (e ∷ es) = NoId e.kernel_id done × Apart done es

-- What becomes of the entries: those that are meant are not active.
abbrev pub one_off : Bytes → Option Bytes → KernelEntry → KernelEntry
one_off name skip e = if is_meant name skip e then with_active 0 e else e

abbrev pub all_off : Bytes → Option Bytes → List KernelEntry → List KernelEntry
all_off name skip [] = []
all_off name skip (e ∷ es) = one_off name skip e ∷ all_off name skip es

pub NoId-snoc :
    (kernel_id : Bytes) (done : List KernelEntry) (e : KernelEntry)
    → NoId kernel_id done
    → bytes_eq e.kernel_id kernel_id ≡ false
    → NoId kernel_id (done ++ (e ∷ []))
NoId-snoc kernel_id [] e n h = (h, tt)
NoId-snoc kernel_id (x ∷ done) e n h = (n.0, NoId-snoc kernel_id done e n.1 h)

pub Apart-snoc :
    (done es : List KernelEntry) (e e' : KernelEntry)
    → e'.kernel_id ≡ e.kernel_id
    → Apart done es
    → NotIn e es
    → Apart (done ++ (e' ∷ [])) es
Apart-snoc done [] e e' h a n = tt
Apart-snoc done (x ∷ es) e e' h a n = (
  NoId-snoc x.kernel_id done e' a.0 (ap (λ k. bytes_eq k x.kernel_id) h ∙ n.0),
  Apart-snoc done es e e' h a.1 n.1,
)

pub Apart-nil : (es : List KernelEntry) → Apart [] es
Apart-nil [] = tt
Apart-nil (e ∷ es) = (tt, Apart-nil es)

pub change_first-behind :
    (g : KernelEntry → KernelEntry) (done es : List KernelEntry) (e : KernelEntry)
    → NoId e.kernel_id done
    → change_first e.kernel_id g (done ++ (e ∷ es)) ≡ done ++ (g e ∷ es)
change_first-behind g [] es e n = rw (bytes_eq_refl e.kernel_id) refl
change_first-behind g (x ∷ done) es e n =
    rw n.0 (ap (λ l. x ∷ l) (change_first-behind g done es e n.1))

pub index_behind :
    (done es : List KernelEntry) (e : KernelEntry)
    → (i : ℕ) × (index_of e.kernel_id (done ++ (e ∷ es)) ≡ some i)
index_behind [] es e = (0, rw (bytes_eq_refl e.kernel_id) refl)
index_behind (x ∷ done) es e =
    let (i, there) = index_behind done es e in
    elim (Bool-cases (bytes_eq x.kernel_id e.kernel_id)) [
      | inl same ↦ (0, rw same refl)
      | inr other ↦ (suc i, rw other (ap next_index there))
    ]

pub with_active-IsStorable : (e : KernelEntry) → IsStorable e → IsStorable (with_active 0 e)
with_active-IsStorable e s = record {
  kernel_id_size = s.kernel_id_size;
  inherit_from_size = s.inherit_from_size;
  kernel_name_size = s.kernel_name_size;
  kctrl_fits = s.kctrl_fits;
  narg_fits = s.narg_fits;
  nmetric_fits = s.nmetric_fits;
  active_fits = omega arith;
  utc_bits_fits = s.utc_bits_fits;
  reserve_size = s.reserve_size;
}

pub AllStorable-one_off :
    (name : Bytes) (skip : Option Bytes) (done es : List KernelEntry) (e : KernelEntry)
    → AllStorable (done ++ (e ∷ es))
    → AllStorable (done ++ (one_off name skip e ∷ es))
AllStorable-one_off name skip [] es e s = elim (Bool-cases (is_meant name skip e)) [
  | inl meant ↦ rw meant (with_active-IsStorable e s.0, s.1)
  | inr other ↦ rw other s
]
AllStorable-one_off name skip (x ∷ done) es e s = (s.0, AllStorable-one_off name skip done es e s.1)

pub one_off-id :
    (name : Bytes) (skip : Option Bytes) (e : KernelEntry)
    → (one_off name skip e).kernel_id ≡ e.kernel_id
one_off-id name skip e = elim (Bool-cases (is_meant name skip e)) [
  | inl meant ↦ rw meant refl
  | inr other ↦ rw other refl
]
