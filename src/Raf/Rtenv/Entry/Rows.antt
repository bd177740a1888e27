-- ===== src/Raf/Rtenv/Entry/Rows.antt =====
-- A row of the table of runtime environments, there and back.
use tpbench.Prelude.{
  ℕ, ◌^◌, ◌<◌, List, [], ◌∷◌, ◌≡◌, refl, ap, ◌∙◌, arith, append-nil, Bytes, length, map, take, drop,
  le_bytes, of_le, of_le-le_bytes, length-le_bytes,
}
use tpbench.Raf.File.Segments.{joined, total, length-joined, seg_at}
use tpbench.Raf.Entry.Rows.{AllSize}
use tpbench.Raf.Rtenv.Entry.{RtenvEntry, entry_size, entry_to_disk, disk_to_entry}

-- An entry whose blocks have their sizes and whose numbers fit their fields.
pub record IsStorable (e : RtenvEntry) : Type 0 where
  pub id_fits : e.id < 2 ^ 32
  pub name_size : length e.name ≡ 256
  pub hostname_size : length e.hostname ≡ 256
  pub utc_bits_fits : e.utc_bits < 2 ^ 64
  pub inherit_from_fits : e.inherit_from < 2 ^ 32
  pub derive_to_fits : e.derive_to < 2 ^ 32
  pub ntask_fits : e.ntask < 2 ^ 32
  pub ntbatch_fits : e.ntbatch < 2 ^ 32
  pub note_size : length e.note ≡ 256
  pub napp_fits : e.napp < 2 ^ 32
  pub nenv_fits : e.nenv < 2 ^ 32
  pub reserve_size : length e.reserve ≡ 1024

abbrev pub AllStorable : List RtenvEntry → Type 0
AllStorable [] = Unit
AllStorable (e ∷ es) = IsStorable e × AllStorable es

abbrev pub segments : RtenvEntry → List Bytes
segments e =
    le_bytes 4 e.id
    ∷ e.name
    ∷ e.hostname
    ∷ le_bytes 8 e.utc_bits
    ∷ le_bytes 4 e.inherit_from
    ∷ le_bytes 4 e.derive_to
    ∷ le_bytes 4 e.ntask
    ∷ le_bytes 4 e.ntbatch
    ∷ e.note
    ∷ le_bytes 4 e.napp
    ∷ le_bytes 4 e.nenv
    ∷ e.reserve
    ∷ []

pub segments_eq : (e : RtenvEntry) → entry_to_disk e ≡ joined (segments e)
unfolding entry_to_disk
segments_eq e = rw (append-nil e.reserve) refl

module _ (e : RtenvEntry) (s : IsStorable e) where
  number_at :
      (k v p i : ℕ) (ys : List Bytes)
      → drop i (segments e) ≡ le_bytes k v ∷ ys
      → total (take i (segments e)) ≡ p
      → v < 256 ^ k
      → of_le (take k (drop p (entry_to_disk e))) ≡ v
  number_at k v p i ys d t h =
      ap (λ l. of_le (take k (drop p l))) (segments_eq e)
      ∙ ap of_le (seg_at p k i (segments e) (le_bytes k v) ys d t (length-le_bytes k v))
      ∙ of_le-le_bytes k v h

  block_at :
      (n p i : ℕ) (seg : Bytes) (ys : List Bytes)
      → drop i (segments e) ≡ seg ∷ ys
      → total (take i (segments e)) ≡ p
      → length seg ≡ n
      → take n (drop p (entry_to_disk e)) ≡ seg
  block_at n p i seg ys d t h =
      ap (λ l. take n (drop p l)) (segments_eq e) ∙ seg_at p n i (segments e) seg ys d t h

  pub disk_to_entry-entry_to_disk : disk_to_entry (entry_to_disk e) ≡ e
  unfolding disk_to_entry
  disk_to_entry-entry_to_disk =
      let a = s.name_size in
      let b = s.hostname_size in
      let c = s.note_size in
      let id : of_le (take 4 (entry_to_disk e)) ≡ e.id =
        number_at 4 e.id 0 0 _ refl refl (omega (arith, s.id_fits)) in
      let name = block_at 256 4 1 e.name _ refl refl a in
      let hostname = block_at 256 260 2 e.hostname _ refl (omega arith) b in
      let utc_bits =
        number_at 8 e.utc_bits 516 3 _ refl (omega arith) (omega (arith, s.utc_bits_fits)) in
      let inherit_from =
        number_at 4 e.inherit_from 524 4 _ refl (omega arith)
          (omega (arith, s.inherit_from_fits)) in
      let derive_to =
        number_at 4 e.derive_to 528 5 _ refl (omega arith) (omega (arith, s.derive_to_fits)) in
      let ntask = number_at 4 e.ntask 532 6 _ refl (omega arith) (omega (arith, s.ntask_fits)) in
      let ntbatch =
        number_at 4 e.ntbatch 536 7 _ refl (omega arith) (omega (arith, s.ntbatch_fits)) in
      let note = block_at 256 540 8 e.note _ refl (omega arith) c in
      let napp = number_at 4 e.napp 796 9 _ refl (omega arith) (omega (arith, s.napp_fits)) in
      let nenv = number_at 4 e.nenv 800 10 _ refl (omega arith) (omega (arith, s.nenv_fits)) in
      let reserve = block_at 1024 804 11 e.reserve _ refl (omega arith) s.reserve_size in
      λ j. record {
        id = id j;
        name = name j;
        hostname = hostname j;
        utc_bits = utc_bits j;
        inherit_from = inherit_from j;
        derive_to = derive_to j;
        ntask = ntask j;
        ntbatch = ntbatch j;
        note = note j;
        napp = napp j;
        nenv = nenv j;
        reserve = reserve j;
      }

  pub length-entry_to_disk : length (entry_to_disk e) ≡ entry_size
  length-entry_to_disk =
      ap length (segments_eq e)
      ∙ length-joined (segments e)
      ∙ omega (arith, s.name_size, s.hostname_size, s.note_size, s.reserve_size)

pub map-disk_to_entry :
    (es : List RtenvEntry) → AllStorable es → map disk_to_entry (map entry_to_disk es) ≡ es
map-disk_to_entry [] s = refl
map-disk_to_entry (e ∷ es) s =
    (λ j. disk_to_entry-entry_to_disk e s.0 j ∷ map-disk_to_entry es s.1 j)

pub AllSize-entries :
    (es : List RtenvEntry) → AllStorable es → AllSize entry_size (map entry_to_disk es)
AllSize-entries [] s = tt
AllSize-entries (e ∷ es) s = (length-entry_to_disk e s.0, AllSize-entries es s.1)
