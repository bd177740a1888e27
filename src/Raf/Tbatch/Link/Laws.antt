-- ===== src/Raf/Tbatch/Link/Laws.antt =====
-- A task that is linked to its batch.
use tpbench.Prelude.{
  ℕ, ◌+◌, ◌/◌, ◌%◌, ◌^◌, ◌≤◌, ◌<◌, true, [], ◌∷◌, ◌++◌, ◌≡◌, refl, sym, ap, ◌∙◌, arith, append-nil,
  append_assoc, length-append, Bytes, length, take, drop, drop-drop, take-append-drop, length-take,
  length-drop, le_bytes,
}
use tpbench.Raf.File.Segments.{joined}
use tpbench.Raf.Magic.{build_magic}
use tpbench.Raf.Record.{MetaHeader}
use tpbench.Raf.Record.Patch.{success, patch_file, patch_file-RunsAt}
use tpbench.Raf.Tbatch.{TbatchAttr}
use tpbench.Raf.Tbatch.RoundTrip.{tbatch_text}
use tpbench.Raf.Tbatch.Link.{append_tbatch_body, record_append_tbatch}
use tpbench.Raf.Tbatch.Link.Segments.{batch_segments, batch_segments_eq, end_magic}
use tpbench.Raf.Tbatch.Link.Steps.{new_file, append_tbatch_body-RunsAt}
use tpbench.Raf.Tbatch.Link.Checks.{IsLinked}

-- The first header of a batch that has a task more: the dimension of the header is as it was, and
-- eight bytes of the note hold the count.
abbrev pub linked_header : ℕ → MetaHeader → MetaHeader
linked_header data_size h = record h {
  data_size = data_size;
  note = take 1792 h.note ++ (le_bytes 8 (data_size / 20) ++ drop 1800 h.note);
}

abbrev pub linked_batch : TbatchAttr → ℕ → MetaHeader → MetaHeader → TbatchAttr
linked_batch a data_size h0 h1 = record a { headers = linked_header data_size h0 ∷ h1 ∷ [] }

tail_eq :
    (data0 data1 : Bytes) → joined (data0 ∷ data1 ∷ end_magic ∷ []) ≡ (data0 ++ data1) ++ end_magic
unfolding build_magic
tail_eq data0 data1 = sym (append_assoc data0 data1 end_magic)

new_file_eq :
    (a : TbatchAttr) (h0 h1 : MetaHeader) (i : IsLinked a h0 h1) (mid data0 data1 task_id : Bytes)
    (note : length (take 1792 h0.note) + (length mid + length (drop 1800 h0.note)) ≡ 2048)
    (size1 : h1.data_size ≡ length data1) (small : length data0 + length data1 < 2 ^ 62)
    → length task_id ≡ 20
    → joined (
        new_file a h0 h1 i
          (take 1792 h0.note)
          mid
          (drop 1800 h0.note)
          note
          data0
          data1
          task_id
          size1
          small)
      ≡ tbatch_text (linked_batch a (length (data0 ++ task_id)) h0 h1) ((data0 ++ task_id) ++ data1)
unfolding new_file
new_file_eq a h0 h1 i mid data0 data1 task_id note size1 small n =
    let k = length (data0 ++ task_id) in
    let bytes = (data0 ++ task_id) ++ data1 in
    let all : (length data0 + length data1 + 20) % 2 ^ 64 ≡ length bytes =
      omega (arith, length-append (data0 ++ task_id) data1, length-append data0 task_id) in
    let one : (length data0 + 20) % 2 ^ 64 ≡ k = omega (arith, length-append data0 task_id) in
    let tail = data0 ∷ task_id ∷ (data1 ++ end_magic) ∷ [] in
    (λ j. joined (
      batch_segments a h0 h1 (all j) (one j) (take 1792 h0.note) (le_bytes 8 (one j / 20))
        (drop 1800 h0.note) tail))
    ∙ batch_segments_eq (linked_batch a k h0 h1) (linked_header k h0) h1 bytes (take 1792 h0.note)
        (le_bytes 8 (k / 20)) (drop 1800 h0.note) tail refl refl (simp (append_assoc, append-nil))

-- A task is linked to a stored batch with the headers `TaskID` and `KernelID` when nothing fails
-- and the device takes 52 bytes and the data of the second header: the file is the one of the batch
-- with the identifier behind the data of the first header and with the new sizes, and with the
-- number of tasks not in the dimension of the header but over eight bytes of its note.
pub record_append_tbatch_lem :
    (a : TbatchAttr) (h0 h1 : MetaHeader) (data0 data1 task_id : Bytes) (room : ℕ)
    → IsLinked a h0 h1
    → length task_id ≡ 20
    → h0.data_size ≡ length data0
    → h1.data_size ≡ length data1
    → length data0 + length data1 < 2 ^ 62
    → length data0 % 20 ≡ 0
    → 52 + length data1 ≤ room
    → record_append_tbatch true true true room (tbatch_text a (data0 ++ data1)) task_id ≡ (
      success,
      tbatch_text (linked_batch a (length (data0 ++ task_id)) h0 h1) ((data0 ++ task_id) ++ data1),
    )
unfolding record_append_tbatch
record_append_tbatch_lem a h0 h1 data0 data1 task_id room i n size0 size1 small whole fits =
    let first = take 1792 h0.note in
    let mid = take 8 (drop 1792 h0.note) in
    let last = drop 1800 h0.note in
    let size = i.first_storable.note_size in
    let f : length first ≡ 1792 = omega (arith, length-take 1792 h0.note) in
    let m : length mid ≡ 8 =
      omega (arith, length-take 8 (drop 1792 h0.note), length-drop 1792 h0.note) in
    let note : length first + (length mid + length last) ≡ 2048 =
      omega (arith, length-drop 1800 h0.note) in
    let tail = data0 ∷ data1 ∷ end_magic ∷ [] in
    let cut : first ++ (mid ++ last) ≡ h0.note =
      ap (λ l. first ++ (mid ++ l)) (sym (drop-drop 8 1792 h0.note))
      ∙ ap (λ l. first ++ l) (take-append-drop 8 (drop 1792 h0.note))
      ∙ take-append-drop 1792 h0.note in
    let old : joined
          (batch_segments a h0 h1 (length data0 + length data1) (length data0) first mid last tail)
        ≡ tbatch_text a (data0 ++ data1) =
      (λ j. joined (
        batch_segments a h0 h1 (sym (length-append data0 data1) j) (sym size0 j) first mid last
          tail))
      ∙ batch_segments_eq a h0 h1 (data0 ++ data1) first mid last tail i.two_headers (sym cut)
          (tail_eq data0 data1) in
    ap (patch_file true true true room (append_tbatch_body task_id)) (sym old)
    ∙ patch_file-RunsAt (
        append_tbatch_body-RunsAt a h0 h1 i first mid last note data0 data1 task_id size1 small room
          n m f whole fits)
    ∙ ap (λ l. (success, l)) (new_file_eq a h0 h1 i mid data0 data1 task_id note size1 small n)
