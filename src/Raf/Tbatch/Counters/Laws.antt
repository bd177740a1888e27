-- ===== src/Raf/Tbatch/Counters/Laws.antt =====
-- Patching the counters of a batch is writing the batch with other counters.
use tpbench.Prelude.{
  ℕ, ◌-◌, ◌≤◌, true, List, [], ◌∷◌, ◌++◌, ◌≡◌, refl, sym, ap, ◌∙◌, arith, append-nil, Bytes, length,
  le_bytes, replicate,
}
use tpbench.Raf.File.{write_u32, write_u64}
use tpbench.Raf.File.Laws.{Reads-fread}
use tpbench.Raf.File.Segments.{
  joined, total, RunsAt, seek_to, read_seg, check_seg, write_seg, write_last_seg,
}
use tpbench.Raf.Magic.{pos_start, ftype_record, dom_tbatch, build_magic}
use tpbench.Raf.Magic.Detect.{validate-build_magic, length-build_magic}
use tpbench.Raf.Record.Header.{headers_text}
use tpbench.Raf.Record.Patch.{success, patch_file, patch_file-RunsAt}
use tpbench.Raf.Record.Payload.Laws.{payload_text}
use tpbench.Raf.Tbatch.{TbatchAttr, metasize_of}
use tpbench.Raf.Tbatch.RoundTrip.{IsStorable, tbatch_text}
use tpbench.Raf.Tbatch.Counters.{patch_counters_body, record_patch_tbatch_counters}

module _ (a : TbatchAttr) (bytes : Bytes) where
  -- What stands behind the counters, and the file as segments.
  abbrev behind : Bytes
  behind =
      le_bytes 4 a.nscore
      ++ (le_bytes 4 a.batch_type
          ++ (le_bytes 4 a.nheader
              ++ (replicate 128 0 ++ (headers_text a.headers ++ payload_text dom_tbatch bytes))))

  abbrev between : List Bytes → List Bytes
  between ys = a.hostname ∷ a.username ∷ le_bytes 4 a.front_pid ∷ ys

  abbrev before : List Bytes → List Bytes
  before ys =
      build_magic ftype_record dom_tbatch pos_start
      ∷ le_bytes 8 (metasize_of a.nheader)
      ∷ le_bytes 8 (length bytes)
      ∷ a.tbatch_id
      ∷ a.derive_to
      ∷ a.inherit_from
      ∷ le_bytes 8 a.utc_bits
      ∷ le_bytes 8 a.btime
      ∷ ys

  abbrev segments : ℕ → ℕ → ℕ → List Bytes
  segments duration nkernel ntask =
      before (le_bytes 8 duration ∷ between (le_bytes 4 nkernel ∷ le_bytes 4 ntask ∷ behind ∷ []))

  segments_eq : joined (segments a.duration a.nkernel a.ntask) ≡ tbatch_text a bytes
  segments_eq = rw (append-nil behind) refl

  module _ (s : IsStorable a) (duration nkernel ntask room : ℕ) (fits : 16 ≤ room) where
    place_duration : total (before []) ≡ 100
    unfolding build_magic
    place_duration = omega (arith, s.tbatch_id_size, s.derive_to_size, s.inherit_from_size)

    place_nkernel : total (before (le_bytes 8 duration ∷ between [])) ≡ 240
    unfolding build_magic
    place_nkernel = omega (
      arith, s.tbatch_id_size, s.derive_to_size, s.inherit_from_size, s.hostname_size,
      s.username_size,
    )

    patch_counters_body-RunsAt :
        RunsAt
          (patch_counters_body duration nkernel ntask)
          []
          (segments a.duration a.nkernel a.ntask)
          room
          tt
          (joined (segments duration nkernel ntask))
          (room - 8 - 4 - 4)
    unfolding patch_counters_body write_u32 write_u64
    patch_counters_body-RunsAt =
        read_seg _ (Reads-fread 8 _ (length-build_magic ftype_record dom_tbatch pos_start)) (
          check_seg _ _ (validate-build_magic ftype_record dom_tbatch pos_start) (
            seek_to _ 100 8 place_duration (
              write_seg (le_bytes 8 duration) _ refl (omega arith) (
                seek_to _ 240 12 place_nkernel (
                  write_seg (le_bytes 4 nkernel) _ refl (omega arith)
                    (write_last_seg (le_bytes 4 ntask) refl (omega arith)))))))

-- The counters of a stored batch are patched when nothing fails and the device takes 16 bytes: the
-- file is the one of the batch with the new duration and the new counts of kernels and tasks.
pub record_patch_tbatch_counters_lem :
    (a : TbatchAttr) (bytes : Bytes) (duration nkernel ntask room : ℕ)
    → IsStorable a
    → 16 ≤ room
    → record_patch_tbatch_counters true true true room (tbatch_text a bytes) duration nkernel ntask
      ≡ (
        success,
        tbatch_text (record a { duration = duration; nkernel = nkernel; ntask = ntask }) bytes,
      )
unfolding record_patch_tbatch_counters
record_patch_tbatch_counters_lem a bytes duration nkernel ntask room s fits =
    let b = record a { duration = duration; nkernel = nkernel; ntask = ntask } in
    ap (patch_file true true true room (patch_counters_body duration nkernel ntask))
      (sym (segments_eq a bytes))
    ∙ patch_file-RunsAt (patch_counters_body-RunsAt a bytes s duration nkernel ntask room fits)
    ∙ ap (λ l. (success, l)) (segments_eq b bytes)
