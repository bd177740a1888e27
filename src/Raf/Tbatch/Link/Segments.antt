-- ===== src/Raf/Tbatch/Link/Segments.antt =====
-- The file of a batch with two headers as a list of segments.
use tpbench.Prelude.{
  ℕ, zero, suc, ◌+◌, ◌*◌, ◌≤◌, List, [], ◌∷◌, ◌++◌, ◌≡◌, refl, sym, ap, ◌∙◌, arith, append-nil,
  append_assoc, Bytes, length, length-append, replicate, le_bytes,
}
use tpbench.Raf.File.Segments.{joined, total}
use tpbench.Raf.Magic.{pos_start, pos_split, pos_end, ftype_record, dom_tbatch, build_magic}
use tpbench.Raf.Record.{MetaHeader, hdr_fixed_size}
use tpbench.Raf.Record.Header.{header_text, headers_text, sizes_text, names_text, AllLength}
use tpbench.Raf.Record.Payload.Laws.{payload_text}
use tpbench.Raf.Tbatch.{TbatchAttr, metasize_of}
use tpbench.Raf.Tbatch.RoundTrip
use tpbench.Raf.Record.Header
use tpbench.Raf.Tbatch.RoundTrip.{tbatch_text, first_text, second_text}

-- Up to the headers, with the size of the data.
abbrev pub attr_segments : TbatchAttr → ℕ → List Bytes → List Bytes
attr_segments a datasize ys =
    build_magic ftype_record dom_tbatch pos_start
    ∷ le_bytes 8 (metasize_of a.nheader)
    ∷ le_bytes 8 datasize
    ∷ a.tbatch_id
    ∷ a.derive_to
    ∷ a.inherit_from
    ∷ le_bytes 8 a.utc_bits
    ∷ le_bytes 8 a.btime
    ∷ le_bytes 8 a.duration
    ∷ a.hostname
    ∷ a.username
    ∷ le_bytes 4 a.front_pid
    ∷ le_bytes 4 a.nkernel
    ∷ le_bytes 4 a.ntask
    ∷ le_bytes 4 a.nscore
    ∷ le_bytes 4 a.batch_type
    ∷ le_bytes 4 a.nheader
    ∷ replicate 128 0
    ∷ ys

-- A header with the size of its data, and with its note in three pieces.
abbrev pub header_segments : MetaHeader → ℕ → Bytes → Bytes → Bytes → List Bytes → List Bytes
header_segments h data_size first mid last ys =
    le_bytes 4 hdr_fixed_size
    ∷ le_bytes 4 h.ndim
    ∷ le_bytes 8 data_size
    ∷ le_bytes 4 h.type_bits
    ∷ le_bytes 4 h.reserve
    ∷ le_bytes 8 h.uattr_bits
    ∷ h.name
    ∷ h.tag
    ∷ first
    ∷ mid
    ∷ last
    ∷ sizes_text h.ndim h.dimsizes
    ∷ names_text h.ndim h.dimnames
    ∷ ys

header_assoc :
    (b n d t r u name tag first mid last sizes names rest : Bytes)
    → (b
          ++ (n
              ++ (d
                  ++ (t
                      ++ (r
                          ++ (u
                              ++ (name
                                  ++ (tag ++ ((first ++ (mid ++ last)) ++ (sizes ++ names))))))))))
        ++ rest
      ≡ b
        ++ (n
            ++ (d
                ++ (t
                    ++ (r
                        ++ (u
                            ++ (name
                                ++ (tag
                                    ++ (first
                                        ++ (mid ++ (last ++ (sizes ++ (names ++ rest))))))))))))
header_assoc b n d t r u name tag first mid last sizes names rest = simp append_assoc

pub header_segments_eq :
    (h : MetaHeader) (first mid last : Bytes) (ys : List Bytes)
    → h.note ≡ first ++ (mid ++ last)
    → joined (header_segments h h.data_size first mid last ys) ≡ header_text h ++ joined ys
header_segments_eq h first mid last ys e = rw e (
    sym (
      header_assoc (le_bytes 4 hdr_fixed_size) (le_bytes 4 h.ndim) (le_bytes 8 h.data_size)
        (le_bytes 4 h.type_bits) (le_bytes 4 h.reserve) (le_bytes 8 h.uattr_bits) h.name h.tag first
        mid last (sizes_text h.ndim h.dimsizes) (names_text h.ndim h.dimnames) (joined ys)))

-- What stands behind the headers.
abbrev pub split_magic : Bytes
split_magic = build_magic ftype_record dom_tbatch pos_split

abbrev pub end_magic : Bytes
end_magic = build_magic ftype_record dom_tbatch pos_end

abbrev pub batch_segments :
    TbatchAttr → MetaHeader → MetaHeader → ℕ → ℕ → Bytes → Bytes → Bytes → List Bytes → List Bytes
batch_segments a h0 h1 datasize data_size first mid last tail = attr_segments a datasize (
    header_segments h0 data_size first mid last
      (header_segments h1 h1.data_size h1.note [] [] (split_magic ∷ tail)))

pub batch_segments_eq :
    (a : TbatchAttr) (h0 h1 : MetaHeader) (bytes first mid last : Bytes) (tail : List Bytes)
    → a.headers ≡ h0 ∷ h1 ∷ []
    → h0.note ≡ first ++ (mid ++ last)
    → joined tail ≡ bytes ++ end_magic
    → joined (batch_segments a h0 h1 (length bytes) h0.data_size first mid last tail)
      ≡ tbatch_text a bytes
batch_segments_eq a h0 h1 bytes first mid last tail hs e t =
    let payload = payload_text dom_tbatch bytes in
    ap
      (λ l.
        build_magic ftype_record dom_tbatch pos_start
        ++ (le_bytes 8 (metasize_of a.nheader)
            ++ (le_bytes 8 (length bytes) ++ first_text a (second_text a l))))
      (header_segments_eq h0 first mid last
          (header_segments h1 h1.data_size h1.note [] [] (split_magic ∷ tail)) e
        ∙ ap (λ l. header_text h0 ++ l)
            (header_segments_eq h1 h1.note [] [] (split_magic ∷ tail) (sym (append-nil h1.note)))
        ∙ ap (λ l. header_text h0 ++ (header_text h1 ++ (split_magic ++ l))) t
        ∙ sym (
            append_assoc (header_text h0) (header_text h1 ++ []) payload
            ∙ ap (λ l. header_text h0 ++ l) (append_assoc (header_text h1) [] payload))
        ∙ ap (λ l. headers_text l ++ payload) (sym hs))

length-sizes_text : (k : ℕ) (ds : List ℕ) → k ≤ length ds → length (sizes_text k ds) ≡ k * 8
length-sizes_text zero ds h = refl
length-sizes_text (suc k) [] h = absurd (omega arith)
length-sizes_text (suc k) (d ∷ ds) h = omega (arith, length-sizes_text k ds (omega arith))

length-names_text :
    (k : ℕ) (ds : List Bytes) → k ≤ length ds → AllLength 64 ds → length (names_text k ds) ≡ k * 64
length-names_text zero ds h b = refl
length-names_text (suc k) [] h b = absurd (omega arith)
length-names_text (suc k) (d ∷ ds) h b =
    omega (arith, length-names_text k ds (omega arith) b.1, length-append d (names_text k ds), b.0)

pub total-attr_segments :
    (a : TbatchAttr) (datasize : ℕ) (ys : List Bytes)
    → RoundTrip.IsStorable a
    → total (attr_segments a datasize ys) ≡ 388 + total ys
unfolding build_magic
total-attr_segments a datasize ys s = omega (
  arith, s.tbatch_id_size, s.derive_to_size, s.inherit_from_size, s.hostname_size, s.username_size,
)

pub total-header_segments :
    (h : MetaHeader) (data_size : ℕ) (first mid last : Bytes) (ys : List Bytes)
    → Header.IsStorable h
    → length first + (length mid + length last) ≡ 2048
    → total (header_segments h data_size first mid last ys)
      ≡ 32 + 256 + 256 + 2048 + h.ndim * 8 + h.ndim * 64 + total ys
total-header_segments h data_size first mid last ys s e = omega (
  arith,
  s.name_size,
  s.tag_size,
  length-sizes_text h.ndim h.dimsizes (omega (arith, s.dims, s.sizes_count)),
  length-names_text h.ndim h.dimnames (omega (arith, s.dims, s.names_count)) s.names_size,
)
