-- ===== src/Raf/Record/Corrupt.antt =====
-- A header whose count of dimensions is above the size of the arrays that hold them.
use tpbench.Prelude.{
  ℕ, zero, suc, ◌+◌, ◌*◌, ◌^◌, ◌≤◌, ◌<◌, ◌++◌, ◌≡◌, arith, Bytes, length, take, drop, le_bytes,
  of_le, length-drop,
}
use tpbench.Raf.File.{ok, fault, fread, read_u32, read_u64}
use tpbench.Raf.File.Laws.{Reads-fread, Reads-step, Reads-read_u32, Reads-read_u64}
use tpbench.Raf.Record.{read_dimsizes, read_header}

read_u64_ahead :
    (past ahead : Bytes) (room : ℕ)
    → 8 ≤ length ahead
    → read_u64 (record { past = past; ahead = ahead; gap = 0; room = room })
      ≡ ok
          (of_le (take 8 ahead))
          (record { past = past ++ take 8 ahead; ahead = drop 8 ahead; gap = 0; room = room })
unfolding read_u64
read_u64_ahead past ahead room h = ground arith

read_dimsizes-fault :
    (slots k : ℕ) (past ahead : Bytes) (room : ℕ)
    → slots < k
    → 8 * (slots + 1) ≤ length ahead
    → read_dimsizes k slots (record { past = past; ahead = ahead; gap = 0; room = room }) ≡ fault
unfolding read_dimsizes
read_dimsizes-fault slots zero past ahead room lt h = absurd (omega arith)
read_dimsizes-fault zero (suc k) past ahead room lt h =
    rw (read_u64_ahead past ahead room (omega arith))
read_dimsizes-fault (suc slots) (suc k) past ahead room lt h = rw (
  read_u64_ahead past ahead room (omega arith),
  read_dimsizes-fault slots k (past ++ take 8 ahead) (drop 8 ahead) room (omega arith)
      (omega (arith, length-drop 8 ahead)),
)

-- Reading a header that claims more than seven dimensions, in a file that goes on for eight
-- dimension sizes, stores behind the end of `dimsizes`, whatever else the file holds.
pub read_header-fault :
    (block_size ndim data_size type_bits reserve uattr_bits : ℕ) (name tag note rest past : Bytes)
    (room : ℕ)
    → block_size < 2 ^ 32
    → 7 < ndim
    → ndim < 2 ^ 32
    → data_size < 2 ^ 64
    → type_bits < 2 ^ 32
    → reserve < 2 ^ 32
    → uattr_bits < 2 ^ 64
    → length name ≡ 256
    → length tag ≡ 256
    → length note ≡ 2048
    → 64 ≤ length rest
    → read_header (record {
      past = past;
      ahead =
          le_bytes 4 block_size
          ++ (le_bytes 4 ndim
              ++ (le_bytes 8 data_size
                  ++ (le_bytes 4 type_bits
                      ++ (le_bytes 4 reserve
                          ++ (le_bytes 8 uattr_bits ++ (name ++ (tag ++ (note ++ rest))))))));
      gap = 0;
      room = room;
    })
      ≡ fault
unfolding read_header
read_header-fault b n d t r u name tag note rest past room hb many hn hd ht hr hu sn st so h =
    Reads-step read_u32 _ _ _ _ room (Reads-read_u32 b hb) (
      Reads-step read_u32 _ _ _ _ room (Reads-read_u32 n hn) (
        Reads-step read_u64 _ _ _ _ room (Reads-read_u64 d hd) (
          Reads-step read_u32 _ _ _ _ room (Reads-read_u32 t ht) (
            Reads-step read_u32 _ _ _ _ room (Reads-read_u32 r hr) (
              Reads-step read_u64 _ _ _ _ room (Reads-read_u64 u hu) (
                Reads-step (fread 256) _ _ _ _ room (Reads-fread 256 name sn) (
                  Reads-step (fread 256) _ _ _ _ room (Reads-fread 256 tag st) (
                    Reads-step (fread 2048) _ _ _ _ room (Reads-fread 2048 note so)
                      (rw (read_dimsizes-fault 7 n _ rest room many (omega arith)))))))))))
