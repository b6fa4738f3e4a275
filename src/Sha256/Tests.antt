-- ===== src/Sha256/Tests.antt =====
-- Digests of known messages.
use sat_build.Prelude.{ℕ, ◌/◌, ◌%◌, ◌≡◌, refl, List, [], ◌∷◌, length, take, replicate}
use sat_build.Sha256.{init, digest, sha256}
use sat_build.Sha256.Padding.{padded, hash_blocks, sha256_lem}

sha256_abc :
    take 8 (sha256 (0x61 ∷ 0x62 ∷ 0x63 ∷ []))
    ≡ 0xba ∷ 0x78 ∷ 0x16 ∷ 0xbf ∷ 0x8f ∷ 0x01 ∷ 0xcf ∷ 0xea ∷ []
unfolding sha256
sha256_abc = refl

-- A message of 64 bytes takes a second block for the padding.
sha256_block : take 4 (sha256 (replicate 64 0x61)) ≡ 0xff ∷ 0xe0 ∷ 0x54 ∷ 0xfe ∷ []
unfolding sha256
sha256_block = refl

sha256_lem_example :
    let msg : List ℕ = 0x61 ∷ 0x62 ∷ 0x63 ∷ [] in
    (sha256 msg ≡ digest (hash_blocks (length (padded msg) / 64) init.state (padded msg)))
    × (length (padded msg) % 64 ≡ 0)
sha256_lem_example = sha256_lem (0x61 ∷ 0x62 ∷ 0x63 ∷ [])
