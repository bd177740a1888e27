-- ===== src/Raf/Tbatch/Link/Checks.antt =====
-- The checks that come before a task is linked to its batch.
use tpbench.Prelude.{
  ℕ, ◌+◌, ◌*◌, true, List, [], ◌∷◌, ◌≡◌, arith, Bytes, codes, length, take, le_bytes, ◌==◌,
}
use tpbench.Raf.File.Laws.{Reads-fread, Reads-read_u32}
use tpbench.Raf.File.Seek.{Runs}
use tpbench.Raf.File.Segments.{
  joined, total, begin_at, seek_to, from_place, read_seg, check_seg, ends_with, call, result,
}
use tpbench.Raf.Magic.{build_magic}
use tpbench.Raf.Record.{MetaHeader, hdr_serialized_len_at}
use tpbench.Raf.Record.Header
use tpbench.Raf.Tbatch.{TbatchAttr}
use tpbench.Raf.Tbatch.RoundTrip
use tpbench.Raf.Tbatch.Link.{is_name, check_headers}
use tpbench.Raf.Tbatch.Link.Segments.{
  attr_segments, header_segments, batch_segments, split_magic, total-attr_segments,
  total-header_segments,
}

-- A batch with the two headers that a link looks for.
pub record IsLinked (a : TbatchAttr) (h0 h1 : MetaHeader) : Type 0 where
  pub storable : RoundTrip.IsStorable a
  pub first_storable : Header.IsStorable h0
  pub second_storable : Header.IsStorable h1
  pub two_headers : a.headers ≡ h0 ∷ h1 ∷ []
  pub task_named : is_name (codes "TaskID") h0.name ≡ true
  pub kernel_named : is_name (codes "KernelID") h1.name ≡ true

abbrev pub header_len : MetaHeader → ℕ
header_len h = 32 + 256 + 256 + 2048 + h.ndim * 8 + h.ndim * 64

module _ (a : TbatchAttr) (h0 h1 : MetaHeader) (i : IsLinked a h0 h1) (first mid last : Bytes)
    (note : length first + (length mid + length last) ≡ 2048) where
  note1 : length h1.note + (length {A = ℕ} [] + length {A = ℕ} []) ≡ 2048
  note1 = omega (arith, i.second_storable.note_size)

  module _ (datasize data_size room : ℕ) (tail : List Bytes) where
    abbrev segments : List Bytes
    segments = batch_segments a h0 h1 datasize data_size first mid last tail

    -- The places of the first and of the second header, and of the split signature.
    pub in_first : (ys : List Bytes) → total (attr_segments a datasize ys) ≡ 388 + total ys
    in_first ys = total-attr_segments a datasize ys i.storable

    pub in_second :
        (ys : List Bytes)
        → total (attr_segments a datasize (header_segments h0 data_size first mid last ys))
          ≡ 388 + header_len h0 + total ys
    in_second ys = omega (
      arith,
      total-attr_segments a datasize (header_segments h0 data_size first mid last ys) i.storable,
      total-header_segments h0 data_size first mid last ys i.first_storable note,
    )

    pub in_tail :
        (ys : List Bytes)
        → total (batch_segments a h0 h1 datasize data_size first mid last ys)
          ≡ 388 + header_len h0 + header_len h1 + 8 + total ys
    unfolding build_magic
    in_tail ys = omega (
      arith,
      in_second (header_segments h1 h1.data_size h1.note [] [] (split_magic ∷ ys)),
      total-header_segments h1 h1.data_size h1.note [] [] (split_magic ∷ ys) i.second_storable
          note1,
    )

    first_len :
        Runs
          (hdr_serialized_len_at 388)
          (joined segments)
          room
          (header_len h0)
          (joined segments)
          room
    unfolding hdr_serialized_len_at
    first_len =
        begin_at _ 392 19 segments (omega (arith, in_first (le_bytes 4 0 ∷ [])))
          (read_seg _ (Reads-read_u32 h0.ndim (omega (arith, i.first_storable.dims))) (ends_with _))

    second_len :
        Runs
          (hdr_serialized_len_at (388 + header_len h0))
          (joined segments)
          room
          (header_len h1)
          (joined segments)
          room
    unfolding hdr_serialized_len_at
    second_len =
        begin_at _ _ 32 segments (in_second (le_bytes 4 0 ∷ [])) (
          read_seg _ (Reads-read_u32 h1.ndim (omega (arith, i.second_storable.dims))) (ends_with _))

    at_count : total (take 16 segments) ≡ 256
    unfolding build_magic
    at_count =
        let s = i.storable in
        omega (
          arith, s.tbatch_id_size, s.derive_to_size, s.inherit_from_size, s.hostname_size,
          s.username_size,
        )

    at_second_name : total (take 37 segments) ≡ 388 + header_len h0 + 32
    at_second_name = in_second (take 6 (header_segments h1 h1.data_size h1.note [] [] []))

    two : (a.nheader == 2) ≡ true
    two = ground (arith, i.storable.header_count, i.two_headers)

    pub check_headers-Runs :
        Runs check_headers
          (joined segments)
          room
          (388 + header_len h0, 388 + header_len h0 + header_len h1)
          (joined segments)
          room
    unfolding check_headers
    check_headers-Runs = begin_at _ 256 16 segments at_count (
        read_seg _ (Reads-read_u32 a.nheader i.storable.nheader_fits) (
          check_seg _ _ two (
            seek_to _ 420 24
              (omega (arith, in_first (take 6 (header_segments h0 data_size first mid last []))))
              (read_seg _ (Reads-fread 256 h0.name i.first_storable.name_size) (
                check_seg _ _ i.task_named (
                  from_place _ (
                    call _ first_len (
                      begin_at _ (388 + header_len h0 + 32) 37 segments at_second_name (
                        read_seg _ (Reads-fread 256 h1.name i.second_storable.name_size) (
                          check_seg _ _ i.kernel_named
                            (from_place _ (call _ second_len (result _)))))))))))))
