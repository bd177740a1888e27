-- ===== src/IdHex/Tests.antt =====
-- Runs on an identifier.
use tpbench.Prelude.{ℕ, zero, suc, ◌<◌, ◌∷◌, ◌++◌, some, Bytes, codes, replicate, ◌≡◌, refl, arith}
use tpbench.IdHex.{id_to_hex, hex_nibble, all_hex, read_pairs, hex_to_id}
use tpbench.IdHex.RoundTrip.{AllBytes, hex_to_id-id_to_hex}

abbrev id : Bytes
id = 0xab ∷ 0x07 ∷ replicate 18 0

abbrev hex : Bytes
hex = codes "AB07" ++ replicate 36 48

replicate-AllBytes : (n v : ℕ) → v < 256 → AllBytes (replicate n v)
replicate-AllBytes zero v h = tt
replicate-AllBytes (suc n) v h = (h, replicate-AllBytes n v h)

hex_to_id-id_to_hex_example : hex_to_id (id_to_hex id) ≡ some id
hex_to_id-id_to_hex_example =
    hex_to_id-id_to_hex id refl (omega arith, (omega arith, replicate-AllBytes 18 0 (omega arith)))

read_id : hex_to_id hex ≡ some id
unfolding hex_nibble all_hex read_pairs hex_to_id
read_id = refl
