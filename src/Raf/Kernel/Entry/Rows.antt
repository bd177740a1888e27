-- ===== src/Raf/Kernel/Entry/Rows.antt =====
-- A row of the table of kernels, there and back.
use tpbench.Prelude.{
  ℕ, ◌^◌, ◌<◌, List, [], ◌∷◌, ◌≡◌, refl, ap, ◌∙◌, arith, append-nil, Bytes, length, map, take, drop,
  le_bytes, of_le, of_le-le_bytes, length-le_bytes,
}
use tpbench.Raf.File.Segments.{joined, total, length-joined, seg_at}
use tpbench.Raf.Entry.Rows.{AllSize}
use tpbench.Raf.Kernel.Entry.{KernelEntry, entry_size, row_of, entry_of}

-- An entry whose blocks have their sizes and whose numbers fit their fields.
pub record IsStorable (e : KernelEntry) : Type 0 where
  pub kernel_id_size : length e.kernel_id ≡ 20
  pub inherit_from_size : length e.inherit_from ≡ 20
  pub kernel_name_size : length e.kernel_name ≡ 64
  pub kctrl_fits : e.kctrl < 2 ^ 32
  pub narg_fits : e.narg < 2 ^ 32
  pub nmetric_fits : e.nmetric < 2 ^ 32
  pub active_fits : e.active < 2 ^ 32
  pub utc_bits_fits : e.utc_bits < 2 ^ 64
  pub reserve_size : length e.reserve ≡ 136

abbrev pub AllStorable : List KernelEntry → Type 0
AllStorable [] = Unit
AllStorable (e ∷ es) = IsStorable e × AllStorable es

abbrev pub segments : KernelEntry → List Bytes
segments e =
    e.kernel_id
    ∷ e.inherit_from
    ∷ e.kernel_name
    ∷ le_bytes 4 e.kctrl
    ∷ le_bytes 4 e.narg
    ∷ le_bytes 4 e.nmetric
    ∷ le_bytes 4 e.active
    ∷ le_bytes 8 e.utc_bits
    ∷ e.reserve
    ∷ []

pub segments_eq : (e : KernelEntry) → row_of e ≡ joined (segments e)
unfolding row_of
segments_eq e = rw (append-nil e.reserve) refl

module _ (e : KernelEntry) (s : IsStorable e) where
  number_at :
      (k v p i : ℕ) (ys : List Bytes)
      → drop i (segments e) ≡ le_bytes k v ∷ ys
      → total (take i (segments e)) ≡ p
      → v < 256 ^ k
      → of_le (take k (drop p (row_of e))) ≡ v
  number_at k v p i ys d t h =
      ap (λ l. of_le (take k (drop p l))) (segments_eq e)
      ∙ ap of_le (seg_at p k i (segments e) (le_bytes k v) ys d t (length-le_bytes k v))
      ∙ of_le-le_bytes k v h

  block_at :
      (n p i : ℕ) (seg : Bytes) (ys : List Bytes)
      → drop i (segments e) ≡ seg ∷ ys
      → total (take i (segments e)) ≡ p
      → length seg ≡ n
      → take n (drop p (row_of e)) ≡ seg
  block_at n p i seg ys d t h =
      ap (λ l. take n (drop p l)) (segments_eq e) ∙ seg_at p n i (segments e) seg ys d t h

  pub entry_of-row_of : entry_of (row_of e) ≡ e
  unfolding entry_of
  entry_of-row_of =
      let a = s.kernel_id_size in
      let b = s.inherit_from_size in
      let c = s.kernel_name_size in
      let kernel_id : take 20 (row_of e) ≡ e.kernel_id =
        block_at 20 0 0 e.kernel_id _ refl refl a in
      let inherit_from = block_at 20 20 1 e.inherit_from _ refl (omega arith) b in
      let kernel_name = block_at 64 40 2 e.kernel_name _ refl (omega arith) c in
      let kctrl = number_at 4 e.kctrl 104 3 _ refl (omega arith) (omega (arith, s.kctrl_fits)) in
      let narg = number_at 4 e.narg 108 4 _ refl (omega arith) (omega (arith, s.narg_fits)) in
      let nmetric =
        number_at 4 e.nmetric 112 5 _ refl (omega arith) (omega (arith, s.nmetric_fits)) in
      let active = number_at 4 e.active 116 6 _ refl (omega arith) (omega (arith, s.active_fits)) in
      let utc_bits =
        number_at 8 e.utc_bits 120 7 _ refl (omega arith) (omega (arith, s.utc_bits_fits)) in
      let reserve = block_at 136 128 8 e.reserve _ refl (omega arith) s.reserve_size in
      λ j. record {
        kernel_id = kernel_id j;
        inherit_from = inherit_from j;
        kernel_name = kernel_name j;
        kctrl = kctrl j;
        narg = narg j;
        nmetric = nmetric j;
        active = active j;
        utc_bits = utc_bits j;
        reserve = reserve j;
      }

  pub length-row_of : length (row_of e) ≡ entry_size
  length-row_of =
      ap length (segments_eq e)
      ∙ length-joined (segments e)
      ∙ omega (arith, s.kernel_id_size, s.inherit_from_size, s.kernel_name_size, s.reserve_size)

pub map-entry_of : (es : List KernelEntry) → AllStorable es → map entry_of (map row_of es) ≡ es
map-entry_of [] s = refl
map-entry_of (e ∷ es) s = (λ j. entry_of-row_of e s.0 j ∷ map-entry_of es s.1 j)

pub AllSize-entries : (es : List KernelEntry) → AllStorable es → AllSize entry_size (map row_of es)
AllSize-entries [] s = tt
AllSize-entries (e ∷ es) s = (length-row_of e s.0, AllSize-entries es s.1)
