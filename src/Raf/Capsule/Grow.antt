-- ===== src/Raf/Capsule/Grow.antt =====
-- A capsule that grows by a task identifier.
use tpbench.Prelude.{
  ℕ, ◌+◌, ◌-◌, ◌/◌, ◌%◌, ◌^◌, ◌≤◌, ◌<◌, true, [], ◌++◌, ◌≡◌, refl, sym, ap, subst, ◌∙◌, arith,
  append_assoc, append-nil, length-append, Bytes, length, le_bytes, ltb, ◌==◌,
}
use tpbench.Raf.File.{
  File, ok, ◌>>=◌, ◌>>◌, require, opened, fread, fseek, write_u64, read_u32, read_u64,
}
use tpbench.Raf.File.Laws.{Reads-fread, Reads-read_u64, Reads-read_u32}
use tpbench.Raf.Magic.{pos_start, pos_end, ftype_record, dom_task}
use tpbench.Raf.Magic.Detect.{validate-build_magic, length-build_magic}
use tpbench.Raf.Capsule.{end_offset, check_rest, check_sizes, check_capsule}
use tpbench.Raf.File.Seek.{
  Holding, Runs, Done, at_place, read_here, read_at, check_that, write_at, write_last,
}
use tpbench.Raf.Capsule.Text.{
  start_magic, end_magic, Rest, IsRest, from_dim0, from_count, capsule_text, before_datasize,
  before_count, before_ndim, before_size, before_name, before_dim0, before_data, datasize_eq,
  count_eq, ndim_eq, size_eq, name_eq, dim0_eq, data_eq, length-before_datasize,
  length-before_count, length-before_ndim, length-before_size, length-before_name,
  length-before_dim0, length-before_data,
}

module _ (r : Rest) (i : IsRest r) (data_bytes : Bytes) (hdr_size dim0 room : ℕ) where
  abbrev ds : ℕ
  ds = length data_bytes

  abbrev before : Bytes
  before = capsule_text r ds hdr_size dim0 (data_bytes ++ end_magic)

  checks-Runs :
      ds < 2 ^ 62 → ds % 20 ≡ 0 → Runs (check_rest ds) before room (2980 + ds, ds) before room
  unfolding check_rest
  checks-Runs small whole =
      let tail = data_bytes ++ end_magic in
      let off : end_offset 1 ds ≡ 2980 + ds = omega arith in
      let positive : ltb (end_offset 1 ds) (2 ^ 63) ≡ true = ground (arith, off) in
      let even : (ds % 20 == 0) ≡ true = ground arith in
      let one = Reads-read_u32 1 (omega arith) in
      read_at read_u32 _ 172 room room before before (before_count r ds hdr_size dim0)
        (le_bytes 4 1) _ (count_eq r ds hdr_size dim0 tail)
        (length-before_count r ds hdr_size dim0 i) one
        (check_that _ _ room room before before refl (
          read_at (fread 256) _ 340 room room before before (before_name r ds hdr_size dim0) r.name
            _ (name_eq r ds hdr_size dim0 tail) (length-before_name r ds hdr_size dim0 i)
            (Reads-fread 256 r.name i.name_size)
            (check_that _ _ room room before before i.named (
              check_that _ _ room room before before even (
                read_at read_u32 _ 312 room room before before (before_ndim r ds hdr_size dim0)
                  (le_bytes 4 1) _ (ndim_eq r ds hdr_size dim0 tail)
                  (length-before_ndim r ds hdr_size dim0 i) one
                  (check_that _ _ room room before before positive (
                    read_at (fread 8) _ (end_offset 1 ds) room room before before
                      (before_data r ds hdr_size dim0 ++ data_bytes) end_magic []
                      (ap (λ l. (before_data r ds hdr_size dim0 ++ data_bytes) ++ l)
                          (append-nil end_magic)
                        ∙ append_assoc (before_data r ds hdr_size dim0) data_bytes end_magic
                        ∙ data_eq r ds hdr_size dim0 tail)
                      (length-append (before_data r ds hdr_size dim0) data_bytes
                        ∙ omega (arith, length-before_data r ds hdr_size dim0 i, off))
                      (Reads-fread 8 end_magic (length-build_magic ftype_record dom_task pos_end))
                      (check_that _ _ room room before before
                        (validate-build_magic ftype_record dom_task pos_end)
                        (record { run = λ f h. (f, ap (λ o. ok (o, ds) f) off, h) })))))))))

  pub check_capsule-Done :
      ds < 2 ^ 62
      → ds % 20 ≡ 0
      → (f : File) × (check_capsule (opened before room) ≡ ok (2980 + ds, ds) f)
        × Holding before room f
  unfolding check_capsule
  check_capsule-Done small whole =
      let tail = data_bytes ++ end_magic in
      let after_datasize = r.attributes ++ from_count r ds hdr_size dim0 tail in
      let after_start = le_bytes 8 r.metasize ++ (le_bytes 8 ds ++ after_datasize) in
      read_here (fread 8) _ room room before [] start_magic after_start
        (Reads-fread 8 start_magic (length-build_magic ftype_record dom_task pos_start))
        (subst
          (λ b.
            Done ((require b >> check_sizes) (at_place start_magic after_start room))
              (2980 + ds, ds) before room)
          (sym (validate-build_magic ftype_record dom_task pos_start))
          (read_here read_u64 (λ _. read_u64 >>= check_rest) room room before start_magic
            (le_bytes 8 r.metasize) (le_bytes 8 ds ++ after_datasize)
            (Reads-read_u64 r.metasize i.metasize_fits)
            (read_here read_u64 check_rest room room before (before_datasize r ds hdr_size dim0)
              (le_bytes 8 ds) after_datasize (Reads-read_u64 ds (omega arith))
              ((checks-Runs small whole).run
                (at_place (before_datasize r ds hdr_size dim0 ++ le_bytes 8 ds) after_datasize room)
                (record {
                  bytes =
                      append_assoc (before_datasize r ds hdr_size dim0) (le_bytes 8 ds) _
                      ∙ datasize_eq r ds hdr_size dim0 tail;
                  no_gap = refl;
                  room_left = refl;
                })))))

-- The three patches, of a file that ends with `tail`.
module _ (r : Rest) (i : IsRest r) (tail : Bytes) (datasize new room : ℕ) where
  pub patches-Runs :
      (hdr_size dim0 : ℕ)
      → 24 ≤ room
      → Runs
          (fseek 16
            >> write_u64 new
            >> fseek 316
            >> write_u64 new
            >> fseek 2900
            >> write_u64 (new / 20))
          (capsule_text r datasize hdr_size dim0 tail)
          room
          tt
          (capsule_text r new new (new / 20) tail)
          (room - 24)
  unfolding write_u64
  patches-Runs hdr_size dim0 fits =
      write_at (le_bytes 8 new) _ 16 room (room - 24) _ (capsule_text r new hdr_size dim0 tail) _
        (before_datasize r datasize hdr_size dim0) (le_bytes 8 datasize)
        (r.attributes ++ from_count r datasize hdr_size dim0 tail)
        (datasize_eq r datasize hdr_size dim0 tail) (datasize_eq r new hdr_size dim0 tail)
        (length-before_datasize r datasize hdr_size dim0 i) refl (omega arith)
        (write_at (le_bytes 8 new) _ 316 (room - 8) (room - 24) _ (capsule_text r new new dim0 tail)
          _ (before_size r new hdr_size dim0) (le_bytes 8 hdr_size)
          (r.scalars ++ (r.name ++ (r.tag_note ++ from_dim0 r new hdr_size dim0 tail)))
          (size_eq r new hdr_size dim0 tail) (size_eq r new new dim0 tail)
          (length-before_size r new hdr_size dim0 i) refl (omega arith)
          (subst
            (Runs _ (capsule_text r new new dim0 tail) (room - 8 - 8) tt
              (capsule_text r new new (new / 20) tail))
            (left_over)
            (write_last (le_bytes 8 (new / 20)) 2900 (room - 8 - 8) _ _ (before_dim0 r new new dim0)
              (le_bytes 8 dim0) (r.dimname_split ++ tail) (dim0_eq r new new dim0 tail)
              (dim0_eq r new new (new / 20) tail) (length-before_dim0 r new new dim0 i) refl
              (omega arith))))
    where
      left_over : room - 8 - 8 - 8 ≡ room - 24
      left_over = omega arith
