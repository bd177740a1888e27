-- ===== src/Raf/Kernel/Meta/Update.antt =====
-- The record that tpb_raf_kernel_update_meta_key writes
-- (src/corelib/rafdb/rafdb-l3-kernel-patch.c).
use tpbench.Prelude.{
  ℕ, ◌+◌, ◌≤◌, ◌<◌, ◌%◌, ◌^◌, Bool, false, ◌==◌, List, [], ◌∷◌, ◌++◌, Option, none, some, ◌≡◌, refl,
  sym, ap, ◌∙◌, arith, ltb, Bytes, length, take, drop, subst, append-nil,
}
use tpbench.Raf.Record.{MetaHeader, offset_from, size_at}
use tpbench.Raf.Kernel.{KernelAttr, record_write_kernel}
use tpbench.Raf.Kernel.Meta.{
  first_dim, resize, copy_parts, total_size, meta_kv_set, updated, update_found, update_text,
  if_copied, strdup,
}
use tpbench.Raf.Kernel.Meta.Parts.{sizes, small, copy_behind, copy_parts_from}

abbrev pub resized : ℕ → MetaHeader → MetaHeader
resized n h = record h { data_size = n; dimsizes = first_dim n h.dimsizes }

resize-split :
    (n : ℕ) (before : List MetaHeader) (h : MetaHeader) (after : List MetaHeader)
    → resize (length before) n (before ++ (h ∷ after)) ≡ before ++ (resized n h ∷ after)
unfolding resize
resize-split n [] h after = refl
resize-split n (b ∷ before) h after = ap (◌∷◌ b) (resize-split n before h after)

offset_from-split :
    (off : ℕ) (before hs : List MetaHeader)
    → off + sizes before < 2 ^ 64
    → offset_from off (length before) (before ++ hs) ≡ off + sizes before
unfolding offset_from
offset_from-split off [] hs e = omega arith
offset_from-split off (b ∷ before) hs e =
    ap (λ n. offset_from n (length before) (before ++ hs)) (small (off + b.data_size) (omega arith))
    ∙ offset_from-split (off + b.data_size) before hs (omega arith)
    ∙ omega arith

size_at-split :
    (before : List MetaHeader) (h : MetaHeader) (after : List MetaHeader)
    → size_at (length before) (before ++ (h ∷ after)) ≡ h.data_size
unfolding size_at
size_at-split [] h after = refl
size_at-split (b ∷ before) h after = size_at-split before h after

total_size_lem : (hs : List MetaHeader) → sizes hs < 2 ^ 64 → total_size hs ≡ sizes hs
total_size_lem [] e = refl
total_size_lem (h ∷ hs) e =
    ap (λ n. (h.data_size + n) % 2 ^ 64) (total_size_lem hs (omega arith))
    ∙ small (h.data_size + sizes hs) (omega arith)

sizes-split :
    (before : List MetaHeader) (h : MetaHeader) (after : List MetaHeader)
    → sizes (before ++ (h ∷ after)) ≡ sizes before + h.data_size + sizes after
sizes-split [] h after = omega arith
sizes-split (b ∷ before) h after = let ih = sizes-split before h after in omega arith

-- The record with the new text of one header.
abbrev pub changed : KernelAttr → List MetaHeader → MetaHeader → List MetaHeader → ℕ → KernelAttr
changed attr before h after n = record attr { headers = before ++ (resized n h ∷ after) }

-- No byte is a NUL.
abbrev pub NoNul : Bytes → Type 0
NoNul [] = Unit
NoNul (c ∷ cs) = ((c == 0) ≡ false) × NoNul cs

strdup_lem : (text rest : Bytes) → NoNul text → strdup (text ++ (0 ∷ rest)) ≡ some text
unfolding strdup
strdup_lem [] rest h = refl
strdup_lem (c ∷ cs) rest h = rw (h.0, strdup_lem cs rest h.1) refl

module _ (fopen_ok : Bool) (room : ℕ) (disk : Option Bytes) (attr : KernelAttr) (bytes : Bytes)
    (before : List MetaHeader) (h : MetaHeader) (after : List MetaHeader)
    (subkey value text rest : Bytes) (split : attr.headers ≡ before ++ (h ∷ after))
    (w : length bytes < 2 ^ 64) (whole : sizes before + h.data_size ≤ length bytes)
    (there : drop (sizes before) bytes ≡ text ++ (0 ∷ rest)) (ends : NoNul text) where
  written :
      (payload tail new_data : Bytes) (new_size : ℕ)
      → payload ≡ meta_kv_set text subkey value
      → new_size ≡ sizes before + (length payload + 1) + sizes after
      → new_size < 2 ^ 64
      → copy_parts none payload bytes (sizes before + (length payload + 1)) after ≡ some tail
      → take (sizes before) bytes ++ ((payload ++ (0 ∷ [])) ++ tail) ≡ new_data
      → update_found fopen_ok room disk attr (length bytes) bytes (length before) subkey value
        ≡ updated (
            record_write_kernel fopen_ok room disk
              (changed attr before h after (length payload + 1))
              (some new_data)
              new_size)
  unfolding update_found update_text
  written payload tail new_data new_size q t fits r d =
      let headers = before ++ (resized (length payload + 1) h ∷ after) in
      let off : offset_from 0 (length before) attr.headers ≡ sizes before =
        ap (offset_from 0 (length before)) split
        ∙ offset_from-split 0 before (h ∷ after) (omega arith)
        ∙ omega arith in
      let size : size_at (length before) attr.headers ≡ h.data_size =
        ap (size_at (length before)) split ∙ size_at-split before h after in
      let new : resize (length before) (length payload + 1) attr.headers ≡ headers =
        ap (resize (length before) (length payload + 1)) split
        ∙ resize-split (length payload + 1) before h after in
      let inside : ltb (length bytes) ((sizes before + h.data_size) % 2 ^ 64) ≡ false =
        ap (ltb (length bytes)) (small (sizes before + h.data_size) (omega arith)) ∙ ground arith in
      let copied =
        copy_parts_from payload bytes w 0 (sizes before + (length payload + 1)) before
          (resized (length payload + 1) h) after tail (omega arith) (omega arith) (omega arith) r
        ∙ ap some d in
      let together : sizes headers ≡ new_size =
        sizes-split before (resized (length payload + 1) h) after ∙ sym t in
      let copy : strdup (drop (sizes before) bytes) ≡ some text =
        ap strdup there ∙ strdup_lem text rest ends in
      let all : total_size headers ≡ new_size =
        total_size_lem headers (subst (λ k. k < 2 ^ 64) (sym together) fits) ∙ together in
      let record_written = λ (d : Bytes) (n : ℕ). updated (
        record_write_kernel fopen_ok room disk (changed attr before h after (length payload + 1))
          (some d) n) in
      let made : update_text fopen_ok room disk attr (length before) bytes payload
          ≡ record_written new_data new_size =
        ap
          (λ hs. if_copied (copy_parts (some (length before)) payload bytes 0 hs) (λ d. updated (
            record_write_kernel fopen_ok room disk (record attr { headers = hs }) (some d)
              (total_size hs))))
          new
        ∙ ap (λ o. if_copied o (λ d. record_written d (total_size headers))) copied
        ∙ ap (record_written new_data) all in
      rw (off, size, inside, copy)
        (ap (update_text fopen_ok room disk attr (length before) bytes) (sym q) ∙ made)

-- The data of the headers behind the changed one are read from the place that the sizes with the
-- new text give, and not from the place where they stood. Stated for data of fewer than 2 ^ 64 bytes
-- that hold the changed header, its text with a NUL, and what is read at that place.
pub update_found-followed :
    (fopen_ok : Bool) (room : ℕ) (disk : Option Bytes) (attr : KernelAttr) (bytes : Bytes)
    (before : List MetaHeader) (h : MetaHeader) (after : List MetaHeader)
    (subkey value text rest payload : Bytes)
    → attr.headers ≡ before ++ (h ∷ after)
    → length bytes < 2 ^ 64
    → sizes before + h.data_size ≤ length bytes
    → drop (sizes before) bytes ≡ text ++ (0 ∷ rest)
    → NoNul text
    → payload ≡ meta_kv_set text subkey value
    → sizes before + (length payload + 1) + sizes after ≤ length bytes
    → update_found fopen_ok room disk attr (length bytes) bytes (length before) subkey value
      ≡ updated (
          record_write_kernel fopen_ok room disk
            (changed attr before h after (length payload + 1))
            (some (
              take (sizes before) bytes
              ++ ((payload ++ (0 ∷ []))
                  ++ take (sizes after) (drop (sizes before + (length payload + 1)) bytes))))
            (sizes before + (length payload + 1) + sizes after))
update_found-followed fopen_ok room disk attr bytes before h after subkey value text rest payload
      split w whole there ends q e =
    written fopen_ok room disk attr bytes before h after subkey value text rest split w whole there
      ends payload (take (sizes after) (drop (sizes before + (length payload + 1)) bytes)) _ _ q
      refl (omega arith) (copy_behind payload bytes w (sizes before + (length payload + 1)) after e)
      refl

-- A key of the last header of a kernel, whose text ends with a NUL within the data, the data of the
-- headers fewer than 2 ^ 64 bytes before and after: the record that is written has the data of the
-- headers before it as they were, and behind them the text in which the key is set, with its NUL; the
-- last header has the size of that text, and the rest of the record is kept.
pub update_found-last :
    (fopen_ok : Bool) (room : ℕ) (disk : Option Bytes) (attr : KernelAttr) (bytes : Bytes)
    (before : List MetaHeader) (h : MetaHeader) (subkey value text rest payload : Bytes)
    → attr.headers ≡ before ++ (h ∷ [])
    → length bytes < 2 ^ 64
    → sizes before + h.data_size ≤ length bytes
    → drop (sizes before) bytes ≡ text ++ (0 ∷ rest)
    → NoNul text
    → payload ≡ meta_kv_set text subkey value
    → sizes before + (length payload + 1) < 2 ^ 64
    → update_found fopen_ok room disk attr (length bytes) bytes (length before) subkey value
      ≡ updated (
          record_write_kernel fopen_ok room disk
            (changed attr before h [] (length payload + 1))
            (some (take (sizes before) bytes ++ (payload ++ (0 ∷ []))))
            (sizes before + (length payload + 1)))
unfolding copy_parts
update_found-last fopen_ok room disk attr bytes before h subkey value text rest payload split w
      whole there ends q fits =
    written fopen_ok room disk attr bytes before h [] subkey value text rest split w whole there
      ends payload [] _ _ q (omega arith) fits refl
      (ap (λ l. take (sizes before) bytes ++ l) (append-nil (payload ++ (0 ∷ []))))
