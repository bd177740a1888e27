-- ===== src/Raf/Rtenv/Counter/Laws.antt =====
-- Patching the counters of a runtime environment, in its record and in its row.
use tpbench.Prelude.{
  ℕ, ◌+◌, ◌-◌, ◌%◌, ◌^◌, ◌≤◌, true, false, List, [], ◌∷◌, ◌++◌, ◌≡◌, refl, sym, ap, ◌∙◌, arith,
  ◌==◌, ◌&&◌, append-nil, Bytes, length, map, le_bytes,
}
use tpbench.Raf.File.{write_u32}
use tpbench.Raf.File.Laws.{Reads-fread, Reads-read_u32}
use tpbench.Raf.File.Segments.{
  joined, total, joined-inline, RunsAt, seek_to, read_seg, check_seg, write_seg, write_last_seg,
}
use tpbench.Raf.Magic.{pos_start, ftype_record, dom_rtenv, build_magic}
use tpbench.Raf.Magic.Detect.{validate-build_magic, length-build_magic}
use tpbench.Raf.Record.{MetaHeader}
use tpbench.Raf.Record.Header.{headers_text}
use tpbench.Raf.Record.Patch.{success, file_io_fail, patch_file, patch_file-RunsAt}
use tpbench.Raf.Record.Payload.Laws.{payload_text}
use tpbench.Raf.Entry.Table.{table}
use tpbench.Raf.Rtenv.{RtenvAttr, metasize_of}
use tpbench.Raf.Rtenv.RoundTrip
use tpbench.Raf.Rtenv.RoundTrip.{rtenv_text, attr_text}
use tpbench.Raf.Rtenv.Entry.{RtenvEntry, entry_to_disk}
use tpbench.Raf.Rtenv.Entry.Rows.{AllStorable}
use tpbench.Raf.Rtenv.Counter.{
  Env, patch_record_body, patch_tpbe_counters, record_patch_rtenv_counters,
}
use tpbench.Raf.Rtenv.Counter.Row.{IsGood, has_id, count_first, patch_tpbe_counters_lem}

-- The attributes with their counters increased.
abbrev pub counted_attr : ℕ → ℕ → RtenvAttr → RtenvAttr
counted_attr m n a = record a { ntask = (a.ntask + m) % 2 ^ 32; ntbatch = (a.ntbatch + n) % 2 ^ 32 }

module _ (a : RtenvAttr) (headers : List MetaHeader) (bytes : Bytes) where
  abbrev attr_segments : ℕ → ℕ → List Bytes → List Bytes
  attr_segments ntask ntbatch ys =
      le_bytes 4 a.id
      ∷ a.name
      ∷ a.hostname
      ∷ le_bytes 8 a.utc_bits
      ∷ le_bytes 4 a.inherit_from
      ∷ le_bytes 4 a.derive_to
      ∷ le_bytes 4 ntask
      ∷ le_bytes 4 ntbatch
      ∷ a.note
      ∷ le_bytes 4 a.napp
      ∷ le_bytes 4 a.nenv
      ∷ le_bytes 4 a.nheader
      ∷ a.reserve
      ∷ ys

  abbrev before : List Bytes → List Bytes
  before ys =
      build_magic ftype_record dom_rtenv pos_start
      ∷ le_bytes 8 (metasize_of a.nheader)
      ∷ le_bytes 8 (length bytes)
      ∷ ys

  abbrev payload : Bytes
  payload = headers_text headers ++ payload_text dom_rtenv bytes

  abbrev segments : ℕ → ℕ → List Bytes
  segments ntask ntbatch = before (attr_segments ntask ntbatch (payload ∷ []))

  attr_eq : joined (attr_segments a.ntask a.ntbatch []) ≡ attr_text a
  attr_eq = rw (append-nil a.reserve) refl

  segments_eq : joined (segments a.ntask a.ntbatch) ≡ rtenv_text a headers bytes
  segments_eq =
      sym (joined-inline (before []) (attr_segments a.ntask a.ntbatch []) (payload ∷ [])) ∙ (λ j.
        build_magic ftype_record dom_rtenv pos_start
        ++ (le_bytes 8 (metasize_of a.nheader)
            ++ (le_bytes 8 (length bytes) ++ (attr_eq j ++ append-nil payload j))))

  module _ (s : RoundTrip.IsStorable a) (m n room : ℕ) (fits : 8 ≤ room) where
    place :
        total (
          before (
            le_bytes 4 a.id
            ∷ a.name
            ∷ a.hostname
            ∷ le_bytes 8 a.utc_bits
            ∷ le_bytes 4 a.inherit_from
            ∷ le_bytes 4 a.derive_to
            ∷ []))
        ≡ 556
    place =
        omega
          (arith, s.name_size, s.hostname_size, length-build_magic ftype_record dom_rtenv pos_start)

    patch_record_body-RunsAt :
        RunsAt
          (patch_record_body m n)
          []
          (segments a.ntask a.ntbatch)
          room
          tt
          (joined (segments ((a.ntask + m) % 2 ^ 32) ((a.ntbatch + n) % 2 ^ 32)))
          (room - 4 - 4)
    unfolding patch_record_body write_u32
    patch_record_body-RunsAt =
        read_seg _ (Reads-fread 8 _ (length-build_magic ftype_record dom_rtenv pos_start)) (
          check_seg _ _ (validate-build_magic ftype_record dom_rtenv pos_start) (
            seek_to _ 556 9 place (
              read_seg _ (Reads-read_u32 a.ntask s.ntask_fits) (
                read_seg _ (Reads-read_u32 a.ntbatch s.ntbatch_fits) (
                  seek_to _ 556 9 place (
                    write_seg (le_bytes 4 ((a.ntask + m) % 2 ^ 32)) _ refl (omega arith) (
                      write_last_seg (le_bytes 4 ((a.ntbatch + n) % 2 ^ 32)) refl
                        (omega arith))))))))

-- The counters of a runtime environment are increased when nothing fails and its row is in the
-- table: in its record, and in the first row of the identifier, by the same numbers and with the
-- same wrap at 2 ^ 32; all else in both files stays.
pub record_patch_rtenv_counters_lem :
    (env env' : Env) (a : RtenvAttr) (headers : List MetaHeader) (bytes : Bytes)
    (es : List RtenvEntry) (id m n : ℕ)
    → RoundTrip.IsStorable a
    → AllStorable es
    → has_id id es ≡ true
    → ((m == 0) && (n == 0)) ≡ false
    → IsGood env
    → IsGood env'
    → record_patch_rtenv_counters env env'
        (rtenv_text a headers bytes)
        (table dom_rtenv (joined (map entry_to_disk es)))
        id
        m
        n
      ≡ (
        success,
        rtenv_text (counted_attr m n a) headers bytes,
        table dom_rtenv (joined (map entry_to_disk (count_first id m n es))),
      )
unfolding record_patch_rtenv_counters
record_patch_rtenv_counters_lem env env' a headers bytes es id m n s ss found some_added g g' =
    let record_eq : patch_file env.opens env.locks env.flushed env.room (patch_record_body m n)
          (rtenv_text a headers bytes)
        ≡ (success, rtenv_text (counted_attr m n a) headers bytes) =
      (λ j.
        patch_file (g.opens j) (g.locks j) (g.flushed j) env.room (patch_record_body m n)
          (rtenv_text a headers bytes))
      ∙ ap (patch_file true true true env.room (patch_record_body m n))
          (sym (segments_eq a headers bytes))
      ∙ patch_file-RunsAt (patch_record_body-RunsAt a headers bytes s m n env.room g.room)
      ∙ ap (λ l. (success, l)) (segments_eq (counted_attr m n a) headers bytes) in
    let row_eq = patch_tpbe_counters_lem id m n env' es ss found g' in
    rw some_added (
      ap
        (λ r. elim r.0 [
          | success ↦
              (let (t, table') =
                  patch_tpbe_counters env' (table dom_rtenv (joined (map entry_to_disk es))) id m
                    n in
                (t, r.1, table'))
          | file_io_fail ↦ (file_io_fail, r.1, table dom_rtenv (joined (map entry_to_disk es)))
        ])
        record_eq
      ∙ ap (λ r. (r.0, rtenv_text (counted_attr m n a) headers bytes, r.1)) row_eq)
