-- ===== src/Raf/Tbatch/Link/Steps.antt =====
-- The steps of a link of a task to its batch: the sizes are checked, the identifier is inserted,
-- and the sizes are patched.
use tpbench.Prelude.{
  ℕ, ◌+◌, ◌-◌, ◌/◌, ◌%◌, ◌^◌, ◌≤◌, ◌<◌, true, List, [], ◌∷◌, ◌++◌, ◌≡◌, refl, sym, subst, arith,
  append-nil, length-append, Bytes, length, take, drop, length-drop, nil_of_length, le_bytes, ltb,
  ◌==◌,
}
use tpbench.Raf.File.{write_u64, read_u64}
use tpbench.Raf.File.Laws.{Reads, Reads-fread, Reads-read_u64}
use tpbench.Raf.File.Seek.{Runs, check_that}
use tpbench.Raf.File.Segments.{
  joined, joined-merge, total, RunsAt, begin_at, seek_to, from_place, read_seg, check_seg,
  write_seg, write_over, write_last_over, write_last_seg, ends_with, call,
}
use tpbench.Raf.Magic.{pos_start, pos_end, ftype_record, dom_tbatch}
use tpbench.Raf.Magic.Detect.{validate-build_magic, length-build_magic}
use tpbench.Raf.Record.{MetaHeader}
use tpbench.Raf.Tbatch.{TbatchAttr, metasize_of}
use tpbench.Raf.Tbatch.RoundTrip.{metasize_of-fits}
use tpbench.Raf.Tbatch.Link.{check_sizes, insert_task, patch_sizes, append_tbatch_body}
use tpbench.Raf.Tbatch.Link.Segments.{batch_segments, header_segments, end_magic}
use tpbench.Raf.Tbatch.Link.Checks.{
  IsLinked, header_len, in_first, in_second, in_tail, check_headers-Runs,
}

module _ (a : TbatchAttr) (h0 h1 : MetaHeader) (i : IsLinked a h0 h1) (first mid last : Bytes)
    (note : length first + (length mid + length last) ≡ 2048) (data0 data1 task_id : Bytes)
    (size1 : h1.data_size ≡ length data1) (small : length data0 + length data1 < 2 ^ 62) where
  abbrev n0 : ℕ
  n0 = length data0

  abbrev n1 : ℕ
  n1 = length data1

  abbrev split_off : ℕ
  split_off = 388 + header_len h0 + header_len h1

  abbrev pub linked_file : List Bytes → List Bytes
  linked_file tail = batch_segments a h0 h1 (n0 + n1) n0 first mid last (data0 ∷ tail)

  below : header_len h0 + header_len h1 < 2 ^ 32
  below = omega (arith, i.first_storable.dims, i.second_storable.dims)

  -- The places that the sizes, the note and the end signature have.
  at_size :
      (datasize room : ℕ) (tail : List Bytes)
      → total (take 20 (batch_segments a h0 h1 datasize n0 first mid last tail)) ≡ 396
  at_size datasize room tail = omega (
    arith,
    in_first a h0 h1 i first mid last note datasize n0 room tail
        (take 2 (header_segments h0 n0 first mid last [])),
  )

  at_size1 :
      (room : ℕ) (tail : List Bytes) → total (take 33 (linked_file tail)) ≡ 388 + header_len h0 + 8
  at_size1 room tail =
      in_second a h0 h1 i first mid last note (n0 + n1) n0 room tail
        (take 2 (header_segments h1 h1.data_size h1.note [] [] []))

  at_tail :
      (room : ℕ) (tail : List Bytes) (ys : List Bytes)
      → total (linked_file ys) ≡ (split_off + 8 + n0) + total ys
  at_tail room tail ys =
      omega (arith, in_tail a h0 h1 i first mid last note (n0 + n1) n0 room tail (data0 ∷ ys))

  read_size1 : Reads read_u64 (le_bytes 8 h1.data_size) n1
  read_size1 =
      subst (λ v. Reads read_u64 (le_bytes 8 h1.data_size) v) size1
        (Reads-read_u64 h1.data_size (omega arith))

  check_sizes-Runs :
      (room : ℕ)
      → n0 % 20 ≡ 0
      → Runs
          (check_sizes (n0 + n1) (388 + header_len h0) split_off)
          (joined (linked_file (data1 ∷ end_magic ∷ [])))
          room
          (n0, n1)
          (joined (linked_file (data1 ∷ end_magic ∷ [])))
          room
  unfolding check_sizes
  check_sizes-Runs room whole =
      let tail = data1 ∷ end_magic ∷ [] in
      let whole_ids : (n0 % 20 == 0) ≡ true = ground arith in
      let sum : ((n0 + n1) % 2 ^ 64 == n0 + n1) ≡ true = ground arith in
      let inside : ltb ((split_off + 8 + (n0 + n1)) % 2 ^ 64) (2 ^ 63) ≡ true =
        ground (arith, below) in
      let at_end : total (linked_file (data1 ∷ [])) ≡ (split_off + 8 + (n0 + n1)) % 2 ^ 64 =
        omega (arith, below, at_tail room tail (data1 ∷ [])) in
      begin_at _ 396 20 (linked_file tail) (at_size (n0 + n1) room (data0 ∷ tail)) (
        read_seg _ (Reads-read_u64 n0 (omega arith)) (
          seek_to _ (388 + header_len h0 + 8) 33 (at_size1 room tail) (
            read_seg _ read_size1 (
              check_seg _ _ whole_ids (
                check_seg _ _ sum (
                  check_seg _ _ inside (
                    seek_to _ _ 47 at_end (
                      read_seg _
                        (Reads-fread 8 _ (length-build_magic ftype_record dom_tbatch pos_end))
                        (check_seg _ _ (validate-build_magic ftype_record dom_tbatch pos_end)
                          (ends_with _))))))))))

  abbrev pub moved : Bytes
  moved = data1 ++ end_magic

  length-moved : length moved ≡ n1 + 8
  length-moved =
      omega
        (arith, length-append data1 end_magic, length-build_magic ftype_record dom_tbatch pos_end)

  insert_task-Runs :
      (room : ℕ)
      → length task_id ≡ 20
      → 28 + n1 ≤ room
      → Runs
          (insert_task task_id split_off n0 n1)
          (joined (linked_file (moved ∷ [])))
          room
          tt
          (joined (linked_file (task_id ∷ moved ∷ [])))
          (room - length task_id - length moved)
  unfolding insert_task
  insert_task-Runs room n fits =
      let inside : ltb ((split_off + 8 + n0) % 2 ^ 64) (2 ^ 63) ≡ true = ground (arith, below) in
      let place : total (linked_file []) ≡ (split_off + 8 + n0) % 2 ^ 64 =
        omega (arith, below, at_tail room [] []) in
      let size : length moved ≡ (n1 + 8) % 2 ^ 64 = omega (arith, length-moved) in
      let ahead = drop (length task_id) (moved ++ []) in
      let none : [] ≡ drop (length moved) (ahead ++ []) = nil_of_length _ (
        omega (
          arith,
          length-drop (length moved) (ahead ++ []),
          length-append ahead [],
          length-drop (length task_id) (moved ++ []),
          length-append moved [],
        )) in
      check_that _ _ _ _ _ _ inside (
        begin_at _ _ 46 (linked_file (moved ∷ [])) place (
          read_seg _ (Reads-fread ((n1 + 8) % 2 ^ 64) moved size) (
            check_seg _ _ inside (
              seek_to _ _ 46 place (
                write_over task_id _ (ahead ∷ []) (sym (append-nil ahead)) (omega arith)
                  (write_last_over moved [] (sym none) (omega (arith, length-moved))))))))

  patch_sizes-Runs :
      (room : ℕ) (tail : List Bytes)
      → length mid ≡ 8
      → length first ≡ 1792
      → 24 ≤ room
      → Runs
          (patch_sizes (n0 + n1) n0)
          (joined (linked_file tail))
          room
          tt
          (joined (
            batch_segments a h0 h1
              ((n0 + n1 + 20) % 2 ^ 64)
              ((n0 + 20) % 2 ^ 64)
              first
              (le_bytes 8 ((n0 + 20) % 2 ^ 64 / 20))
              last
              (data0 ∷ tail)))
          (room - 8 - 8 - 8)
  unfolding patch_sizes write_u64
  patch_sizes-Runs room tail m f fits =
      let at_datasize : total (take 2 (linked_file tail)) ≡ 16 =
        omega (arith, length-build_magic ftype_record dom_tbatch pos_start) in
      let s0 = i.first_storable in
      let at_mid : total (take 27 (linked_file tail)) ≡ 2724 = omega (
        arith,
        s0.name_size,
        s0.tag_size,
        in_first a h0 h1 i first mid last note (n0 + n1) n0 room tail
            (take 9 (header_segments h0 n0 first mid last [])),
      ) in
      begin_at _ 16 2 (linked_file tail) at_datasize (
        write_seg (le_bytes 8 ((n0 + n1 + 20) % 2 ^ 64)) _ refl (omega arith) (
          seek_to _ 396 20 (at_size (n0 + n1) room (data0 ∷ tail)) (
            write_seg (le_bytes 8 ((n0 + 20) % 2 ^ 64)) _ refl (omega arith) (
              seek_to _ 2724 27 at_mid
                (write_last_seg (le_bytes 8 ((n0 + 20) % 2 ^ 64 / 20)) m (omega arith))))))

  unfoldable pub new_file : List Bytes
  new_file =
      batch_segments a h0 h1 ((n0 + n1 + 20) % 2 ^ 64) ((n0 + 20) % 2 ^ 64) first
        (le_bytes 8 ((n0 + 20) % 2 ^ 64 / 20)) last (data0 ∷ task_id ∷ moved ∷ [])

  pub append_tbatch_body-RunsAt :
      (room : ℕ)
      → length task_id ≡ 20
      → length mid ≡ 8
      → length first ≡ 1792
      → n0 % 20 ≡ 0
      → 52 + n1 ≤ room
      → RunsAt
          (append_tbatch_body task_id)
          []
          (linked_file (data1 ∷ end_magic ∷ []))
          room
          tt
          (joined new_file)
          (room - length task_id - length moved - 8 - 8 - 8)
  unfolding append_tbatch_body new_file
  append_tbatch_body-RunsAt room n m f whole fits =
      let tail = data1 ∷ end_magic ∷ [] in
      let moved_eq : joined (linked_file (moved ∷ [])) ≡ joined (linked_file tail) =
        sym (joined-merge (linked_file []) data1 end_magic []) in
      let inserted = insert_task-Runs room n (omega arith) in
      let patched =
        patch_sizes-Runs (room - length task_id - length moved) (task_id ∷ moved ∷ []) m f
          (omega (arith, length-moved)) in
      read_seg _ (Reads-fread 8 _ (length-build_magic ftype_record dom_tbatch pos_start)) (
        check_seg _ _ (validate-build_magic ftype_record dom_tbatch pos_start) (
          read_seg _ (Reads-read_u64 (metasize_of a.nheader) (metasize_of-fits a.nheader)) (
            read_seg _ (Reads-read_u64 (n0 + n1) (omega arith)) (
              from_place _ (
                call _
                  (check_headers-Runs a h0 h1 i first mid last note (n0 + n1) n0 room
                    (data0 ∷ tail))
                  (call _ (check_sizes-Runs room whole) (
                    call _
                      (subst
                        (λ l.
                          Runs (insert_task task_id split_off n0 n1) l room tt
                            (joined (linked_file (task_id ∷ moved ∷ [])))
                            (room - length task_id - length moved))
                        moved_eq inserted)
                      patched)))))))
