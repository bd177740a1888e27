-- ===== src/Raf/Capsule/Append.antt =====
-- The whole growth of a capsule.
use tpbench.Prelude.{
  ℕ, ◌+◌, ◌-◌, ◌/◌, ◌%◌, ◌^◌, ◌≤◌, ◌<◌, true, [], ◌++◌, ◌≡◌, refl, sym, ap, ◌∙◌, arith,
  append_assoc, append-nil, length-append, Bytes, length, drop,
}
use tpbench.Raf.File.{File, ok, ◌>>◌, then_do, fwrite, fseek, write_u64}
use tpbench.Raf.File.Laws.{fwrite_over}
use tpbench.Raf.Magic.{pos_end, ftype_record, dom_task, build_magic}
use tpbench.Raf.Magic.Detect.{length-build_magic}
use tpbench.Raf.Capsule.{
  grow_capsule, append_capsule_body, success, close_capsule, record_append_task_capsule,
}
use tpbench.Raf.File.Seek.{Holding, Done, at_place, seek_lem, then_assoc_two}
use tpbench.Raf.Capsule.Text.{
  Rest, IsRest, end_magic, capsule_text, before_data, data_eq, length-before_data,
}
use tpbench.Raf.Capsule.Grow.{check_capsule-Done, patches-Runs}

module _ (r : Rest) (i : IsRest r) (data_bytes task_id : Bytes) (hdr_size dim0 room : ℕ)
    (n : length task_id ≡ 20) where
  abbrev ds : ℕ
  ds = length data_bytes

  abbrev text : ℕ → ℕ → ℕ → Bytes → Bytes
  text size hdr dim tail = capsule_text r size hdr dim (tail ++ end_magic)

  abbrev front : Bytes
  front = before_data r ds hdr_size dim0 ++ data_bytes

  length-front : length front ≡ 2980 + ds
  length-front =
      length-append (before_data r ds hdr_size dim0) data_bytes
      ∙ omega (arith, length-before_data r ds hdr_size dim0 i)

  front_eq : front ++ end_magic ≡ text ds hdr_size dim0 data_bytes
  front_eq =
      append_assoc (before_data r ds hdr_size dim0) data_bytes end_magic
      ∙ data_eq r ds hdr_size dim0 (data_bytes ++ end_magic)

  grown_eq : (front ++ task_id) ++ end_magic ≡ text ds hdr_size dim0 (data_bytes ++ task_id)
  grown_eq =
      ap (λ l. l ++ end_magic) (append_assoc (before_data r ds hdr_size dim0) data_bytes task_id)
      ∙ append_assoc (before_data r ds hdr_size dim0) (data_bytes ++ task_id) end_magic
      ∙ data_eq r ds hdr_size dim0 ((data_bytes ++ task_id) ++ end_magic)

  behind : drop (length task_id) end_magic ≡ []
  unfolding build_magic
  behind = rw n refl

  writes_eq :
      (f : File)
      → Holding (text ds hdr_size dim0 data_bytes) room f
      → 28 ≤ room
      → (fseek (2980 + ds) >> fwrite task_id >> fwrite end_magic) f
        ≡ ok tt (at_place ((front ++ task_id) ++ end_magic) [] (room - 28))
  unfolding build_magic
  writes_eq f h fits =
      let start : Holding (front ++ end_magic) room f = record {
        bytes = h.bytes ∙ sym front_eq;
        no_gap = h.no_gap;
        room_left = h.room_left;
      } in
      let e = length-build_magic ftype_record dom_task pos_end in
      let left : room - length task_id - length end_magic ≡ room - 28 = omega arith in
      ap (λ o. then_do o (λ _. fwrite task_id >> fwrite end_magic))
        (seek_lem (2980 + ds) room f front end_magic start length-front)
      ∙ ap (λ o. then_do o (λ _. fwrite end_magic))
          (fwrite_over task_id front end_magic room (omega arith))
      ∙ ap (λ l. fwrite end_magic (at_place (front ++ task_id) l (room - length task_id))) behind
      ∙ fwrite_over end_magic (front ++ task_id) [] (room - length task_id) (omega arith)
      ∙ ap (λ k. ok tt (at_place ((front ++ task_id) ++ end_magic) [] k)) left

  module _ (small : ds < 2 ^ 62) (whole : ds % 20 ≡ 0) (fits : 52 ≤ room) where
    new : ℕ
    new = (ds + 20) % 2 ^ 64

    grow_capsule-Done :
        (f : File)
        → Holding (text ds hdr_size dim0 data_bytes) room f
        → Done
            (grow_capsule task_id (2980 + ds) ds f)
            tt
            (text new new (new / 20) (data_bytes ++ task_id))
            (room - 28 - 24)
    unfolding grow_capsule new
    grow_capsule-Done f h =
        let patches =
          fseek 16
          >> write_u64 new
          >> fseek 316
          >> write_u64 new
          >> fseek 2900
          >> write_u64 (new / 20) in
        let (f', e, h') =
          (patches-Runs r i ((data_bytes ++ task_id) ++ end_magic) ds new (room - 28) hdr_size dim0
              (omega arith)).run
            (at_place ((front ++ task_id) ++ end_magic) [] (room - 28))
            (record {
              bytes = append-nil ((front ++ task_id) ++ end_magic) ∙ grown_eq;
              no_gap = refl;
              room_left = refl;
            }) in
        (
          f',
          then_assoc_two (fseek (2980 + ds) f) (fwrite task_id) (fwrite end_magic) patches
              ∙ ap (λ o. then_do o (λ _. patches)) (writes_eq f h (omega arith))
              ∙ e,
          h',
        )

-- A capsule whose data are whole identifiers takes one more when nothing fails and the device takes
-- 52 bytes: the file is the same but that the identifier stands behind the others, and that the
-- size of the data, the size in the header and the header's dimension count it.
pub record_append_task_capsule_lem :
    (r : Rest) (data_bytes task_id : Bytes) (hdr_size dim0 room : ℕ)
    → IsRest r
    → length task_id ≡ 20
    → length data_bytes < 2 ^ 62
    → length data_bytes % 20 ≡ 0
    → 52 ≤ room
    → let size = length (data_bytes ++ task_id) in
      record_append_task_capsule true true true room
        (capsule_text r (length data_bytes) hdr_size dim0 (data_bytes ++ end_magic))
        task_id
      ≡ (success, capsule_text r size size (size / 20) ((data_bytes ++ task_id) ++ end_magic))
unfolding record_append_task_capsule append_capsule_body new
record_append_task_capsule_lem r data_bytes task_id hdr_size dim0 room i n small whole fits =
    let ds = length data_bytes in
    let (f, e, h) = check_capsule-Done r i data_bytes hdr_size dim0 room small whole in
    let (f', e', h') =
      grow_capsule-Done r i data_bytes task_id hdr_size dim0 room n small whole fits f h in
    let size : new r i data_bytes task_id hdr_size dim0 room n small whole fits
        ≡ length (data_bytes ++ task_id) =
      omega (arith, length-append data_bytes task_id) in
    ap
      (λ o.
        close_capsule true (capsule_text r ds hdr_size dim0 (data_bytes ++ end_magic))
          (then_do o (λ p. grow_capsule task_id p.0 p.1)))
      e
    ∙ ap (close_capsule true (capsule_text r ds hdr_size dim0 (data_bytes ++ end_magic))) e'
    ∙ ap (λ l. (success, l)) h'.bytes
    ∙ ap (λ k. (success, capsule_text r k k (k / 20) ((data_bytes ++ task_id) ++ end_magic))) size
