-- ===== src/Raf/Record/Span.antt =====
-- `tpb_raf_header_data_ptr`: the span of a header lies in the data, and is where the sizes of the
-- headers before it put it.
use tpbench.Prelude.{
  ℕ, zero, suc, ◌+◌, ◌^◌, ◌%◌, ◌≤◌, ◌<◌, true, List, [], ◌∷◌, ◌≡◌, ◌∙◌, arith, length, ◌⊎◌, inl,
  inr,
}
use native.Mathlib.Decide.{dec_lt}
use tpbench.Raf.Record.{MetaHeader, span, file_io_fail, offset_from, size_at, header_data_ptr}

-- The bytes of the first `i` headers.
abbrev pub data_before : ℕ → List MetaHeader → ℕ
data_before zero hs = 0
data_before (suc i) [] = 0
data_before (suc i) (h ∷ hs) = h.data_size + data_before i hs

-- Without a wrap of the sum the offset is the bytes before.
offset_from_lem :
    (off i : ℕ) (hs : List MetaHeader)
    → off + data_before i hs < 2 ^ 64
    → offset_from off i hs ≡ off + data_before i hs
unfolding offset_from
offset_from_lem off zero hs h = omega arith
offset_from_lem off (suc i) [] h = omega arith
offset_from_lem off (suc i) (m ∷ hs) h =
    let e : (off + m.data_size) % 2 ^ 64 ≡ off + m.data_size = omega arith in
    rw e (offset_from_lem (off + m.data_size) i hs (omega arith) ∙ (omega arith))

-- Header `i` follows on what is before it.
data_before-suc :
    (i : ℕ) (hs : List MetaHeader) → data_before (suc i) hs ≡ data_before i hs + size_at i hs
unfolding size_at
data_before-suc zero [] = omega arith
data_before-suc zero (h ∷ hs) = omega arith
data_before-suc (suc i) [] = omega arith
data_before-suc (suc i) (h ∷ hs) = omega (arith, data_before-suc i hs)

-- For header `i` of a record with data, the call gives the offset behind the data of the headers
-- before it and the header's own size when these fit the data, and fails when they do not: so the
-- spans of the headers lie one behind the other, within the data.
pub header_data_ptr_lem :
    (hs : List MetaHeader) (datasize i : ℕ)
    → i < length hs
    → data_before i hs < 2 ^ 64
    → ((data_before (suc i) hs ≤ datasize)
        × (header_data_ptr hs true datasize i ≡ span (data_before i hs) (size_at i hs)))
      ⊎ ((datasize < data_before (suc i) hs) × (header_data_ptr hs true datasize i ≡ file_io_fail))
unfolding header_data_ptr
header_data_ptr_lem hs datasize i below small =
    let off : offset_from 0 i hs ≡ data_before i hs =
      offset_from_lem 0 i hs (omega arith) ∙ (omega arith) in
    let total = data_before-suc i hs in
    elim (dec_lt datasize (data_before (suc i) hs)) [
      | yes lt ↦ inr (lt, ground arith)
      | no le ↦ inl (omega arith, ground arith)
    ]
