-- ===== src/Raf/Kernel/Meta/Tests.antt =====
-- Runs on the keys of a kernel's metadata.
use tpbench.Prelude.{
  ℕ, ◌+◌, ◌≤◌, ◌≡◌, true, [], ◌∷◌, ◌++◌, none, some, refl, arith, Bytes, codes, length,
}
use tpbench.Raf.Record.{MetaHeader, offset_from, size_at}
use tpbench.Raf.Record.Tests.{header}
use tpbench.Raf.Kernel.{KernelAttr, record_write_kernel}
use tpbench.Raf.Kernel.Tests.{kernel}
use tpbench.Raf.Kernel.Meta.{got, meta_kv_get, meta_kv_set, updated, update_found, split_meta_key}
use tpbench.Raf.Kernel.Meta.Keys.{meta_kv_get-meta_kv_set}
use tpbench.Raf.Kernel.Meta.Room.{meta_kv_set-room}
use tpbench.Raf.Kernel.Meta.Update.{changed, update_found-followed, update_found-last}

abbrev text : Bytes
text = codes "format=2\nname=triad\nname=old"

abbrev name : Bytes
name = codes "name"

-- The first line of the key is set, and the other one is left out.
set_name : meta_kv_set text name (codes "add") ≡ codes "format=2\nname=add\n"
unfolding meta_kv_set
set_name = refl

set_new : meta_kv_set text (codes "k") (codes "v") ≡ codes "format=2\nname=triad\nname=old\nk=v\n"
unfolding meta_kv_set
set_new = refl

get_name : meta_kv_get text name 3 ≡ got (codes "tri")
unfolding meta_kv_get
get_name = refl

split_key : split_meta_key (codes "run.kernel.name") ≡ some (codes "run", codes "kernel.name")
unfolding split_meta_key
split_key = refl

meta_kv_get-meta_kv_set_example :
    meta_kv_get (meta_kv_set text name (codes "add")) name 63 ≡ got (codes "add")
meta_kv_get-meta_kv_set_example =
    meta_kv_get-meta_kv_set text name (codes "add") 63 (refl, (refl, (refl, (refl, tt))))
      (refl, (refl, (refl, tt))) (omega arith) (omega arith)

meta_kv_set-room_example :
    length (meta_kv_set text name (codes "add")) + 1 + 28
    ≤ length text + length name + length (codes "add") + 32
meta_kv_set-room_example = meta_kv_set-room text name (codes "add")

abbrev sized : ℕ → MetaHeader
sized n = record header { data_size = n }

abbrev first_data : Bytes
first_data = codes "a=1\nb=22222" ++ (0 ∷ [])

abbrev second_data : Bytes
second_data = codes "x=1" ++ (0 ∷ [])

abbrev two : KernelAttr
two = record kernel { nheader = 2; headers = sized 12 ∷ sized 4 ∷ [] }

new_first : codes "a=1\nb=2\n" ≡ meta_kv_set (codes "a=1\nb=22222") (codes "b") (codes "2")
unfolding meta_kv_set
new_first = refl

new_second : codes "x=1\ny=2\n" ≡ meta_kv_set (codes "x=1") (codes "y") (codes "2")
unfolding meta_kv_set
new_second = refl

-- The data of the second header are `22`, two NUL and more bytes where they were `x=1`.
update_found-followed_example :
    update_found true 9000 none two 16 (first_data ++ second_data) 0 (codes "b") (codes "2")
    ≡ updated (
        record_write_kernel true 9000 none
          (changed two [] (sized 12) (sized 4 ∷ []) 9)
          (some (codes "a=1\nb=2\n" ++ (0 ∷ codes "22" ++ (0 ∷ codes "x"))))
          13)
update_found-followed_example =
    update_found-followed true 9000 none two (first_data ++ second_data) [] (sized 12)
      (sized 4 ∷ []) (codes "b") (codes "2") (codes "a=1\nb=22222") second_data (codes "a=1\nb=2\n")
      refl (omega arith) (omega arith) refl
      (refl, (refl, (refl, (refl, (refl, (refl, (refl, (refl, (refl, (refl, (refl, tt)))))))))))
      new_first (omega arith)

update_found-last_example :
    update_found true 9000 none two 16 (first_data ++ second_data) 1 (codes "y") (codes "2")
    ≡ updated (
        record_write_kernel true 9000 none
          (changed two (sized 12 ∷ []) (sized 4) [] 9)
          (some (first_data ++ (codes "x=1\ny=2\n" ++ (0 ∷ []))))
          21)
update_found-last_example =
    update_found-last true 9000 none two (first_data ++ second_data) (sized 12 ∷ []) (sized 4)
      (codes "y") (codes "2") (codes "x=1") [] (codes "x=1\ny=2\n") refl (omega arith) (omega arith)
      refl (refl, (refl, (refl, tt))) new_second (omega arith)

-- The text of the first header has no NUL, neither in its own data nor behind them.
no_end :
    update_found true 9000 none two 16 (codes "a=1\nb=222222x=12") 0 (codes "b") (codes "2")
    ≡ updated none
unfolding update_found offset_from size_at
no_end = refl
