-- ===== src/Raf/Capsule/Text.antt =====
-- The bytes of a capsule, and where in them its sizes, its header and its data stand.
use tpbench.Prelude.{
  ℕ, ◌^◌, ◌<◌, true, ◌++◌, ◌≡◌, ap, ◌∙◌, arith, append_assoc, length-append, length-le_bytes, Bytes,
  length, le_bytes,
}
use tpbench.Raf.Magic.{pos_start, pos_end, ftype_record, dom_task, build_magic}
use tpbench.Raf.Magic.Detect.{length-build_magic}
use tpbench.Raf.Capsule.{is_capsule_name}

abbrev pub start_magic : Bytes
start_magic = build_magic ftype_record dom_task pos_start

abbrev pub end_magic : Bytes
end_magic = build_magic ftype_record dom_task pos_end

-- What the growth does not look at: behind the start signature, behind the size of the data, behind
-- the count of headers, and in the header.
pub record Rest : Type 0 where
  pub metasize : ℕ
  pub attributes : Bytes
  pub reserve : Bytes
  pub block_size : Bytes
  pub scalars : Bytes
  pub name : Bytes
  pub tag_note : Bytes
  pub dimname_split : Bytes

pub record IsRest (r : Rest) : Type 0 where
  pub metasize_fits : r.metasize < 2 ^ 64
  pub attributes_size : length r.attributes ≡ 148
  pub reserve_size : length r.reserve ≡ 132
  pub block_size_size : length r.block_size ≡ 4
  pub scalars_size : length r.scalars ≡ 16
  pub name_size : length r.name ≡ 256
  pub tag_note_size : length r.tag_note ≡ 2304
  pub dimname_split_size : length r.dimname_split ≡ 72
  pub named : is_capsule_name r.name ≡ true

module _ (r : Rest) (datasize hdr_size dim0 : ℕ) where
  -- The file from the second size on, from the header's count of dimensions on, and so on.
  abbrev pub from_dim0 : Bytes → Bytes
  from_dim0 tail = le_bytes 8 dim0 ++ (r.dimname_split ++ tail)

  abbrev pub from_size : Bytes → Bytes
  from_size tail = le_bytes 8 hdr_size ++ (r.scalars ++ (r.name ++ (r.tag_note ++ from_dim0 tail)))

  abbrev pub from_count : Bytes → Bytes
  from_count tail =
      le_bytes 4 1 ++ (r.reserve ++ (r.block_size ++ (le_bytes 4 1 ++ from_size tail)))

  abbrev pub capsule_text : Bytes → Bytes
  capsule_text tail =
      start_magic
      ++ (le_bytes 8 r.metasize ++ (le_bytes 8 datasize ++ (r.attributes ++ from_count tail)))

  -- What lies before the places that are read or written.
  abbrev pub before_datasize : Bytes
  before_datasize = start_magic ++ le_bytes 8 r.metasize

  abbrev pub before_count : Bytes
  before_count = before_datasize ++ (le_bytes 8 datasize ++ r.attributes)

  abbrev pub before_ndim : Bytes
  before_ndim = before_count ++ (le_bytes 4 1 ++ (r.reserve ++ r.block_size))

  abbrev pub before_size : Bytes
  before_size = before_ndim ++ le_bytes 4 1

  abbrev pub before_name : Bytes
  before_name = before_size ++ (le_bytes 8 hdr_size ++ r.scalars)

  abbrev pub before_dim0 : Bytes
  before_dim0 = before_name ++ (r.name ++ r.tag_note)

  abbrev pub before_data : Bytes
  before_data = before_dim0 ++ (le_bytes 8 dim0 ++ r.dimname_split)

  pub datasize_eq :
      (tail : Bytes)
      → before_datasize ++ (le_bytes 8 datasize ++ (r.attributes ++ from_count tail))
        ≡ capsule_text tail
  datasize_eq tail =
      append_assoc start_magic (le_bytes 8 r.metasize)
        (le_bytes 8 datasize ++ (r.attributes ++ from_count tail))

  pub count_eq : (tail : Bytes) → before_count ++ from_count tail ≡ capsule_text tail
  count_eq tail =
      append_assoc before_datasize (le_bytes 8 datasize ++ r.attributes) (from_count tail)
      ∙ ap (λ l. before_datasize ++ l)
          (append_assoc (le_bytes 8 datasize) r.attributes (from_count tail))
      ∙ datasize_eq tail

  pub ndim_eq : (tail : Bytes) → before_ndim ++ (le_bytes 4 1 ++ from_size tail) ≡ capsule_text tail
  ndim_eq tail =
      let rest = le_bytes 4 1 ++ from_size tail in
      append_assoc before_count (le_bytes 4 1 ++ (r.reserve ++ r.block_size)) rest
      ∙ ap (λ l. before_count ++ l)
          (append_assoc (le_bytes 4 1) (r.reserve ++ r.block_size) rest
            ∙ ap (λ l. le_bytes 4 1 ++ l) (append_assoc r.reserve r.block_size rest))
      ∙ count_eq tail

  pub size_eq : (tail : Bytes) → before_size ++ from_size tail ≡ capsule_text tail
  size_eq tail = append_assoc before_ndim (le_bytes 4 1) (from_size tail) ∙ ndim_eq tail

  pub name_eq :
      (tail : Bytes) → before_name ++ (r.name ++ (r.tag_note ++ from_dim0 tail)) ≡ capsule_text tail
  name_eq tail =
      let rest = r.name ++ (r.tag_note ++ from_dim0 tail) in
      append_assoc before_size (le_bytes 8 hdr_size ++ r.scalars) rest
      ∙ ap (λ l. before_size ++ l) (append_assoc (le_bytes 8 hdr_size) r.scalars rest)
      ∙ size_eq tail

  pub dim0_eq : (tail : Bytes) → before_dim0 ++ from_dim0 tail ≡ capsule_text tail
  dim0_eq tail =
      append_assoc before_name (r.name ++ r.tag_note) (from_dim0 tail)
      ∙ ap (λ l. before_name ++ l) (append_assoc r.name r.tag_note (from_dim0 tail))
      ∙ name_eq tail

  pub data_eq : (tail : Bytes) → before_data ++ tail ≡ capsule_text tail
  data_eq tail =
      append_assoc before_dim0 (le_bytes 8 dim0 ++ r.dimname_split) tail
      ∙ ap (λ l. before_dim0 ++ l) (append_assoc (le_bytes 8 dim0) r.dimname_split tail)
      ∙ dim0_eq tail

  module _ (i : IsRest r) where
    pub length-before_datasize : length before_datasize ≡ 16
    length-before_datasize = omega (
      arith,
      length-append start_magic (le_bytes 8 r.metasize),
      length-le_bytes 8 r.metasize,
      length-build_magic ftype_record dom_task pos_start,
    )

    pub length-before_count : length before_count ≡ 172
    length-before_count = omega (
      arith,
      length-append before_datasize (le_bytes 8 datasize ++ r.attributes),
      length-append (le_bytes 8 datasize) r.attributes,
      length-le_bytes 8 datasize,
      i.attributes_size,
      length-before_datasize,
    )

    pub length-before_ndim : length before_ndim ≡ 312
    length-before_ndim = omega (
      arith,
      length-append before_count (le_bytes 4 1 ++ (r.reserve ++ r.block_size)),
      length-append (le_bytes 4 1) (r.reserve ++ r.block_size),
      length-append r.reserve r.block_size,
      i.reserve_size,
      i.block_size_size,
      length-before_count,
      length-le_bytes 4 1,
    )

    pub length-before_size : length before_size ≡ 316
    length-before_size =
        omega
          (arith, length-append before_ndim (le_bytes 4 1), length-before_ndim, length-le_bytes 4 1)

    pub length-before_name : length before_name ≡ 340
    length-before_name = omega (
      arith,
      length-append before_size (le_bytes 8 hdr_size ++ r.scalars),
      length-append (le_bytes 8 hdr_size) r.scalars,
      length-le_bytes 8 hdr_size,
      i.scalars_size,
      length-before_size,
    )

    pub length-before_dim0 : length before_dim0 ≡ 2900
    length-before_dim0 = omega (
      arith,
      length-append before_name (r.name ++ r.tag_note),
      length-append r.name r.tag_note,
      i.name_size,
      i.tag_note_size,
      length-before_name,
    )

    pub length-before_data : length before_data ≡ 2980
    length-before_data = omega (
      arith,
      length-append before_dim0 (le_bytes 8 dim0 ++ r.dimname_split),
      length-append (le_bytes 8 dim0) r.dimname_split,
      length-le_bytes 8 dim0,
      i.dimname_split_size,
      length-before_dim0,
    )
