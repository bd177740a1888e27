-- ===== src/Raf/Kernel/Meta.antt =====
-- The keys of a kernel's metadata (src/corelib/rafdb/rafdb-l3-kernel-kvmeta.c), and the change of one
-- in the record (src/corelib/rafdb/rafdb-l3-kernel-patch.c). Text is without its NUL.
pub mod Keys
pub mod Parts
pub mod Room
pub mod Tests
pub mod Update
use tpbench.Prelude.{
  ℕ, zero, suc, ◌+◌, ◌%◌, ◌^◌, Bool, true, false, List, [], ◌∷◌, ◌++◌, Option, none, some, leb, ltb,
  ◌==◌, if◌then◌else◌, Bytes, bytes_eq, codes, length, take, drop,
}
use tpbench.Raf.Record.{MetaHeader, find_header_by_name, offset_from, size_at}
use tpbench.Raf.Record.Payload.{
  Status, success, file_io_fail, Saved, loaded, load_fail, undefined_load,
}
use tpbench.Raf.Kernel.{KernelAttr, record_write_kernel, record_read_kernel}

-- The lines of a text; a line feed at the end begins no other line.
abbrev pub attach : ℕ → List Bytes → List Bytes
attach c [] = (c ∷ []) ∷ []
attach c (l ∷ ls) = (c ∷ l) ∷ ls

pub lines_of : Bytes → List Bytes
lines_of [] = []
lines_of (c ∷ cs) = if c == 10 then [] ∷ lines_of cs else attach c (lines_of cs)

-- `snprintf(search, 256, "%s=", key)`, and the test that a line begins with it. A key has no line
-- feed.
abbrev pub search_of : Bytes → Bytes
search_of key = take 255 (key ++ codes "=")

abbrev pub starts_with : Bytes → Bytes → Bool
starts_with search line = bytes_eq (take (length search) line) search

-- The value of the first line of the key, cut to the buffer.
pub data Got : Type 0 where
  got : Bytes → Got
  kern_arg_fail list_not_found : Got

pub get_line : Bytes → ℕ → List Bytes → Got
get_line search value_len [] = list_not_found
get_line search value_len (l ∷ ls) =
    let rest = get_line search value_len ls in
    if starts_with search l then got (take value_len (drop (length search) l)) else rest

-- `tpb_raf_kernel_meta_kv_get` with a buffer of `value_len + 1` bytes
pub meta_kv_get : Bytes → Bytes → ℕ → Got
unfolding get_line lines_of
meta_kv_get payload key value_len =
    if leb 256 (length key + 2)
    then kern_arg_fail
    else get_line (search_of key) value_len (lines_of payload)

-- Each line again, the first one of the key with the new value and no other one of it; or the new
-- line behind the others.
pub set_lines : Bytes → Bytes → Bool → List Bytes → Bytes
set_lines search value true [] = []
set_lines search value false [] = search ++ (value ++ codes "\n")
set_lines search value replaced (l ∷ ls) =
    let dropped = set_lines search value true ls in
    let kept = l ++ (codes "\n" ++ set_lines search value replaced ls) in
    if starts_with search l
    then (if replaced then dropped else search ++ (value ++ (codes "\n" ++ dropped)))
    else kept

-- `tpb_raf_kernel_meta_kv_set`, where `calloc` succeeds; the buffer has room for every line
pub meta_kv_set : Bytes → Bytes → Bytes → Bytes
unfolding set_lines lines_of
meta_kv_set payload key value = set_lines (search_of key) value false (lines_of payload)

-- `_sf_split_meta_key`: what stands before the first dot, at most 63 bytes, and what stands behind.
abbrev pub with_first : ℕ → Option (Bytes × Bytes) → Option (Bytes × Bytes)
with_first c none = none
with_first c (some (a, b)) = some (c ∷ a, b)

pub at_dot : Bytes → Option (Bytes × Bytes)
at_dot [] = none
at_dot (c ∷ cs) = if c == 46 then some ([], cs) else with_first c (at_dot cs)

abbrev pub checked_section : Option (Bytes × Bytes) → Option (Bytes × Bytes)
checked_section none = none
checked_section (some ([], b)) = none
checked_section (some (c ∷ a, b)) =
    if leb 64 (length (c ∷ a)) then none else some (c ∷ a, take 255 b)

pub split_meta_key : Bytes → Option (Bytes × Bytes)
unfolding at_dot
split_meta_key full_key = checked_section (at_dot full_key)

-- The header with the size of the new text.
abbrev pub first_dim : ℕ → List ℕ → List ℕ
first_dim n [] = []
first_dim n (d ∷ ds) = n ∷ ds

pub resize : ℕ → ℕ → List MetaHeader → List MetaHeader
resize i n [] = []
resize zero n (h ∷ hs) = record h { data_size = n; dimsizes = first_dim n h.dimsizes } ∷ hs
resize (suc i) n (h ∷ hs) = h ∷ resize i n hs

abbrev pub joined_to : Bytes → Option Bytes → Option Bytes
joined_to part none = none
joined_to part (some rest) = some (part ++ rest)

abbrev pub part : MetaHeader → ℕ → Bytes → Option Bytes → Option Bytes
part h off bytes rest =
    if h.data_size == 0
    then rest
    else if leb (off + h.data_size) (length bytes)
    then joined_to (take h.data_size (drop off bytes)) rest
    else none

-- The data of the headers from the `i`-th before the changed one on, at the offset that the sizes
-- before give; the headers have the new size already. `none` reads behind the end of the data.
pub copy_parts : Option ℕ → Bytes → Bytes → ℕ → List MetaHeader → Option Bytes
copy_parts i payload bytes off [] = some []
copy_parts (some zero) payload bytes off (h ∷ hs) =
    joined_to (payload ++ (0 ∷ []))
      (copy_parts none payload bytes ((off + h.data_size) % 2 ^ 64) hs)
copy_parts (some (suc i)) payload bytes off (h ∷ hs) =
    part h off bytes (copy_parts (some i) payload bytes ((off + h.data_size) % 2 ^ 64) hs)
copy_parts none payload bytes off (h ∷ hs) =
    part h off bytes (copy_parts none payload bytes ((off + h.data_size) % 2 ^ 64) hs)

-- `tpb_raf_kernel_update_meta_key` on the record file of the kernel: whether it can be written, and
-- the room on the device. `none` is behaviour that C leaves undefined.
pub data Updated : Type 0 where
  updated : Saved → Updated
  kern_arg_fail list_not_found : Updated

abbrev pub total_size : List MetaHeader → ℕ
total_size [] = 0
total_size (h ∷ hs) = (h.data_size + total_size hs) % 2 ^ 64

-- `strdup`: the text up to its NUL; `none` reads behind the end of the block, which holds no NUL.
abbrev pub put_first : ℕ → Option Bytes → Option Bytes
put_first c none = none
put_first c (some text) = some (c ∷ text)

pub strdup : Bytes → Option Bytes
strdup [] = none
strdup (c ∷ cs) = if c == 0 then some [] else put_first c (strdup cs)

abbrev pub if_copied : Option Bytes → (Bytes → Updated) → Updated
if_copied none rest = updated none
if_copied (some text) rest = rest text

pub update_text : Bool → ℕ → Option Bytes → KernelAttr → ℕ → Bytes → Bytes → Updated
unfolding resize copy_parts
update_text fopen_ok room disk attr idx bytes payload =
    let headers = resize idx (length payload + 1) attr.headers in
    if_copied (copy_parts (some idx) payload bytes 0 headers) (λ new_data. updated (
      record_write_kernel fopen_ok room disk (record attr { headers = headers }) (some new_data)
        (total_size headers)))

pub update_found : Bool → ℕ → Option Bytes → KernelAttr → ℕ → Bytes → ℕ → Bytes → Bytes → Updated
unfolding meta_kv_set strdup update_text
update_found fopen_ok room disk attr datasize bytes idx subkey value =
    let off = offset_from 0 idx attr.headers in
    if ltb datasize ((off + size_at idx attr.headers) % 2 ^ 64)
    then updated (some (file_io_fail, disk))
    else if_copied (strdup (drop off bytes))
        (λ text. update_text fopen_ok room disk attr idx bytes (meta_kv_set text subkey value))

-- `datasize` is 0 before the record is read.
abbrev size_or : ℕ → Option ℕ → ℕ
size_or n none = n
size_or n (some m) = m

pub kernel_update_meta_key : Bool → ℕ → Option Bytes → Bytes → Bytes → Updated
unfolding split_meta_key update_found
kernel_update_meta_key fopen_ok room disk full_key value = elim (split_meta_key full_key) [
  | none ↦ kern_arg_fail
  | some (section, subkey) ↦ (elim (record_read_kernel true disk) [
    | load_fail ↦ updated (some (file_io_fail, disk))
    | undefined_load ↦ updated none
    | loaded attr datasize bytes ↦ (elim (find_header_by_name attr.headers section) [
      | none ↦ list_not_found
      | some idx ↦ (elim bytes [
        | none ↦ updated (some (file_io_fail, disk))
        | some data_bytes ↦
            update_found fopen_ok room disk attr (size_or 0 datasize) data_bytes idx subkey value
      ])
    ])
  ])
]
