-- ===== src/Sha1/Tests.antt =====
-- The test vectors of RFC 3174, fed in pieces.
use tpbench.Prelude.{List, Bytes, ◌≡◌, refl, codes, [], ◌∷◌}
use tpbench.Sha1.Digest.{sha1, feed, joined, final-feed}
use tpbench.Sha1.{
  init, update, final, process_block, block_loop, consume, digest_of, last_block, be_bytes,
}

abc :
    final (update (update init (codes "a")) (codes "bc"))
    ≡ 0xa9 ∷ 0x99 ∷ 0x3e ∷ 0x36 ∷ 0x47 ∷ 0x06 ∷ 0x81 ∷ 0x6a ∷ 0xba ∷ 0x3e ∷ 0x25 ∷ 0x71 ∷ 0x78
      ∷ 0x50 ∷ 0xc2 ∷ 0x6c ∷ 0x9c ∷ 0xd0 ∷ 0xd8 ∷ 0x9d ∷ []
unfolding init update final process_block block_loop consume digest_of last_block be_bytes
abc = refl

two_blocks :
    final (update init (codes "abcdbcdecdefdefgefghfghighijhijkijkljklmklmnlmnomnopnopq"))
    ≡ 0x84 ∷ 0x98 ∷ 0x3e ∷ 0x44 ∷ 0x1c ∷ 0x3b ∷ 0xd2 ∷ 0x6e ∷ 0xba ∷ 0xae ∷ 0x4a ∷ 0xa1 ∷ 0xf9
      ∷ 0x51 ∷ 0x29 ∷ 0xe5 ∷ 0xe5 ∷ 0x46 ∷ 0x70 ∷ 0xf1 ∷ []
unfolding init update final process_block block_loop consume digest_of last_block be_bytes
two_blocks = refl

abbrev parts : List Bytes
parts = codes "a" ∷ codes "bc" ∷ []

final-feed_example : final (feed init parts) ≡ sha1 (joined parts)
final-feed_example = final-feed parts
