-- ===== src/Sha1.antt =====
-- The SHA-1 hash of record identifiers (src/corelib/rafdb/rafdb-l1-sha1.c). A `uint32_t` is a number
-- below 2 ^ 32, a block of memory is the list of its bytes.
pub mod Blocks
pub mod Stream
pub mod Digest
pub mod HashFile
mod Tests
use Prim.Native.Nat.{bit_and, bit_or, bit_xor}
use tpbench.Prelude.{
  ℕ, zero, suc, ◌+◌, ◌-◌, ◌*◌, ◌/◌, ◌%◌, ◌^◌, Bool, true, false, List, [], ◌∷◌, ◌++◌, Option, none,
  some, ltb, leb, if◌then◌else◌, Bytes, length, get_or, take, drop, replicate,
}

-- Addition, complement and left rotation of 32-bit words; `rotl32` is called with 0 < n < 32.
abbrev add32 : ℕ → ℕ → ℕ
add32 a b = (a + b) % 2 ^ 32

abbrev not32 : ℕ → ℕ
not32 a = 2 ^ 32 - 1 - a

pub rotl32 : ℕ → ℕ → ℕ
rotl32 x n = bit_or (x * 2 ^ n % 2 ^ 32) (x / 2 ^ (32 - n))

-- `uint32_t state[5]`, and the variables a to e of a block.
pub record Regs : Type 0 where
  pub a : ℕ
  pub b : ℕ
  pub c : ℕ
  pub d : ℕ
  pub e : ℕ

-- The first loop: sixteen big-endian words of the block, from word `i` on.
load_words : ℕ → ℕ → Bytes → List ℕ
load_words zero i block = []
load_words (suc n) i block =
    bit_or (get_or block (i * 4) 0 * 2 ^ 24) (
      bit_or (get_or block (i * 4 + 1) 0 * 2 ^ 16)
        (bit_or (get_or block (i * 4 + 2) 0 * 2 ^ 8) (get_or block (i * 4 + 3) 0)))
    ∷ load_words n (i + 1) block

-- The second loop: `w` holds the words below index `i`.
extend_words : ℕ → ℕ → List ℕ → List ℕ
extend_words zero i w = w
extend_words (suc n) i w =
    let x =
      bit_xor (get_or w (i - 3) 0)
        (bit_xor (get_or w (i - 8) 0) (bit_xor (get_or w (i - 14) 0) (get_or w (i - 16) 0))) in
    extend_words n (i + 1) (w ++ (rotl32 x 1 ∷ []))

-- `f` and `k` of round `i`.
round_f : ℕ → Regs → ℕ
round_f i r =
    if ltb i 20
    then bit_or (bit_and r.b r.c) (bit_and (not32 r.b) r.d)
    else if ltb i 40
    then bit_xor r.b (bit_xor r.c r.d)
    else if ltb i 60
    then bit_or (bit_and r.b r.c) (bit_or (bit_and r.b r.d) (bit_and r.c r.d))
    else bit_xor r.b (bit_xor r.c r.d)

round_k : ℕ → ℕ
round_k i =
    if ltb i 20
    then 0x5a827999
    else if ltb i 40
    then 0x6ed9eba1
    else if ltb i 60
    then 0x8f1bbcdc
    else 0xca62c1d6

-- The third loop, with the words of the rounds that are left.
rounds : ℕ → List ℕ → Regs → Regs
rounds i [] r = r
rounds i (w ∷ ws) r =
    let tmp = add32 (add32 (add32 (add32 (rotl32 r.a 5) (round_f i r)) r.e) (round_k i)) w in
    rounds (i + 1) ws (record { a = tmp; b = r.a; c = rotl32 r.b 30; d = r.c; e = r.d })

pub process_block : Regs → Bytes → Regs
unfolding rotl32 load_words extend_words round_f round_k rounds
process_block s block =
    let r = rounds 0 (extend_words 64 16 (load_words 16 0 block)) s in
    record {
      a = add32 s.a r.a;
      b = add32 s.b r.b;
      c = add32 s.c r.c;
      d = add32 s.d r.d;
      e = add32 s.e r.e;
    }

-- `tpb_sha1_ctx_t`
pub record Ctx : Type 0 where
  pub state : Regs
  pub count : ℕ
  pub buf : Bytes

abbrev pub initial_state : Regs
initial_state = record {
  a = 0x67452301;
  b = 0xefcdab89;
  c = 0x98badcfe;
  d = 0x10325476;
  e = 0xc3d2e1f0;
}

pub init : Ctx
init = record { state = initial_state; count = 0; buf = replicate 64 0 }

-- `memcpy(buf + at, bs, length bs)`
abbrev pub splice : Bytes → ℕ → Bytes → Bytes
splice buf at bs = take at buf ++ (bs ++ drop (at + length bs) buf)

-- `while (len >= 64)`, and the bytes behind the last whole block. The fuel is the length, and a
-- round takes 64 off it.
pub block_loop : ℕ → Regs → Bytes → Regs × Bytes
block_loop zero s p = (s, p)
block_loop (suc fuel) s p =
    let rest = block_loop fuel (process_block s (take 64 p)) (drop 64 p) in
    if leb 64 (length p) then rest else (s, p)

-- From the loop on: `c` is the new count.
pub consume : Regs → ℕ → Bytes → Bytes → Ctx
consume s c buf p =
    let (s', rest) = block_loop (length p) s p in
    record { state = s'; count = c; buf = if ltb 0 (length rest) then splice buf 0 rest else buf }

pub update : Ctx → Bytes → Ctx
update x p =
    let buf_used = x.count % 64 in
    let count' = (x.count + length p) % 2 ^ 64 in
    let space = 64 - buf_used in
    if ltb 0 buf_used
    then if ltb (length p) space
      then record x { count = count'; buf = splice x.buf buf_used p }
      else (let full = splice x.buf buf_used (take space p) in
          consume (process_block x.state full) count' full (drop space p))
    else consume x.state count' x.buf p

-- `(unsigned char)(v >> 8 * i)` for i from n - 1 down to 0.
pub be_bytes : ℕ → ℕ → Bytes
be_bytes zero v = []
be_bytes (suc n) v = v / 2 ^ (8 * n) % 256 ∷ be_bytes n v

pub digest_of : Regs → Bytes
unfolding be_bytes
digest_of s =
    be_bytes 4 s.a ++ (be_bytes 4 s.b ++ (be_bytes 4 s.c ++ (be_bytes 4 s.d ++ be_bytes 4 s.e)))

-- The last block: zeros from `used` to 56, and the length in bits.
pub last_block : Bytes → ℕ → ℕ → Bytes
last_block buf used total_bits =
    splice (splice buf used (replicate (56 - used) 0)) 56 (be_bytes 8 total_bits)

pub final : Ctx → Bytes
final x =
    let total_bits = x.count * 8 % 2 ^ 64 in
    let buf_used = x.count % 64 in
    let buf = splice x.buf buf_used (0x80 ∷ []) in
    let used = buf_used + 1 in
    let cleared = splice buf used (replicate (64 - used) 0) in
    if ltb 56 used
    then digest_of (process_block (process_block x.state cleared) (last_block cleared 0 total_bits))
    else digest_of (process_block x.state (last_block buf used total_bits))

-- The reading loop of `tpb_raf_hash_file`, on what is left of the file. A round takes a byte at
-- least, so that the length of the file and one more is fuel enough.
pub read_loop : ℕ → Ctx → Bytes → Ctx
unfolding update
read_loop zero x cs = x
read_loop (suc fuel) x cs =
    let rest = read_loop fuel (update x (take 4096 cs)) (drop 4096 cs) in
    if ltb 0 (length (take 4096 cs)) then rest else x

pub data Hashed : Type 0 where
  hash : Bytes → Hashed
  file_io_fail : Hashed

-- `tpb_raf_hash_file` on a file, `none` where it cannot be opened; whether reading ends in an error.
pub hash_file : Option Bytes → Bool → Hashed
unfolding read_loop init final
hash_file none failed = file_io_fail
hash_file (some cs) failed =
    if failed then file_io_fail else hash (final (read_loop (length cs + 1) init cs))
