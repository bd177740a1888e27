-- ===== src/Raf/Kernel/Meta/Room.antt =====
-- The buffer of tpb_raf_kernel_meta_kv_set (src/corelib/rafdb/rafdb-l3-kernel-kvmeta.c).
use tpbench.Prelude.{
  ℕ, ◌+◌, ◌≤◌, Bool, true, false, List, [], ◌∷◌, ◌++◌, arith, length-append, Bool-cases, inl, inr,
  if◌then◌else◌, Bytes, codes, length, length-take,
}
use tpbench.Raf.Kernel.Meta.{attach, lines_of, search_of, starts_with, set_lines, meta_kv_set}

-- The bytes of the lines, each with a line feed.
abbrev size_of : List Bytes → ℕ
size_of [] = 0
size_of (l ∷ ls) = length l + 1 + size_of ls

size_of-attach : (c n : ℕ) (ls : List Bytes) → size_of ls ≤ n + 1 → size_of (attach c ls) ≤ n + 2
size_of-attach c n [] h = omega arith
size_of-attach c n (l ∷ ls) h = omega arith

size_of-lines_of : (p : Bytes) → size_of (lines_of p) ≤ length p + 1
unfolding lines_of
size_of-lines_of [] = omega arith
size_of-lines_of (c ∷ cs) =
    let ih = size_of-lines_of cs in
    let grown = size_of-attach c (length cs) (lines_of cs) ih in ground arith

-- The bytes of the new line, while it is not written.
abbrev new_size : Bool → Bytes → Bytes → ℕ
new_size true search value = 0
new_size false search value = length search + length value + 1

length-replaced :
    (search value : Bytes) (replaced : Bool) (l : Bytes) (ls : List Bytes)
    → length (set_lines search value true ls) ≤ size_of ls + 0
    → length (
        if replaced
        then set_lines search value true ls
        else search ++ (value ++ (10 ∷ set_lines search value true ls)))
      ≤ length l + 1 + size_of ls + new_size replaced search value
length-replaced search value true l ls h = omega arith
length-replaced search value false l ls h =
    let e = length-append search (value ++ (10 ∷ set_lines search value true ls)) in
    let f = length-append value (10 ∷ set_lines search value true ls) in omega arith

length-set_lines :
    (search value : Bytes) (replaced : Bool) (ls : List Bytes)
    → length (set_lines search value replaced ls) ≤ size_of ls + new_size replaced search value
unfolding set_lines
length-set_lines search value true [] = omega arith
length-set_lines search value false [] =
    let e = length-append search (value ++ codes "\n") in
    let f = length-append value (codes "\n") in omega arith
length-set_lines search value replaced (l ∷ ls) = elim (Bool-cases (starts_with search l)) [
  | inl same ↦
      rw same (length-replaced search value replaced l ls (length-set_lines search value true ls))
  | inr other ↦
      let e = length-append l (10 ∷ set_lines search value replaced ls) in
      let ih = length-set_lines search value replaced ls in rw other (omega arith)
]

-- The text that set leaves, with its NUL, is at least 28 bytes shorter than the buffer that set
-- allocates for it.
pub meta_kv_set-room :
    (payload key value : Bytes)
    → length (meta_kv_set payload key value) + 1 + 28
      ≤ length payload + length key + length value + 32
unfolding meta_kv_set
meta_kv_set-room payload key value =
    let whole = length-set_lines (search_of key) value false (lines_of payload) in
    let old = size_of-lines_of payload in
    let cut = length-take 255 (key ++ codes "=") in
    let named = length-append key (codes "=") in ground arith
