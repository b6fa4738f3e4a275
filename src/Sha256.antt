-- ===== src/Sha256.antt =====
-- satdeploy-agent/svu/ci_sha256.c: SHA-256 over 32-bit words. The context's buffer is the list of
-- its `buflen` bytes in use, and `size_t` and `uint64_t` counts do not wrap.
pub mod Laws
pub mod Padding
pub mod File
mod Tests
use Prim.Native.Nat.{bit_and, bit_or, bit_xor}
use sat_build.Prelude.{
  ℕ, zero, suc, ◌+◌, ◌-◌, ◌*◌, ◌/◌, ◌%◌, ◌^◌, List, [], ◌∷◌, ◌++◌, ltb, ◌==◌, if◌then◌else◌, length,
  get_or, drop, replicate, u32_mod,
}

-- `K`
abbrev pub round_constants : List ℕ
round_constants =
    0x428a2f98 ∷ 0x71374491 ∷ 0xb5c0fbcf ∷ 0xe9b5dba5 ∷ 0x3956c25b ∷ 0x59f111f1 ∷ 0x923f82a4
    ∷ 0xab1c5ed5 ∷ 0xd807aa98 ∷ 0x12835b01 ∷ 0x243185be ∷ 0x550c7dc3 ∷ 0x72be5d74 ∷ 0x80deb1fe
    ∷ 0x9bdc06a7 ∷ 0xc19bf174 ∷ 0xe49b69c1 ∷ 0xefbe4786 ∷ 0x0fc19dc6 ∷ 0x240ca1cc ∷ 0x2de92c6f
    ∷ 0x4a7484aa ∷ 0x5cb0a9dc ∷ 0x76f988da ∷ 0x983e5152 ∷ 0xa831c66d ∷ 0xb00327c8 ∷ 0xbf597fc7
    ∷ 0xc6e00bf3 ∷ 0xd5a79147 ∷ 0x06ca6351 ∷ 0x14292967 ∷ 0x27b70a85 ∷ 0x2e1b2138 ∷ 0x4d2c6dfc
    ∷ 0x53380d13 ∷ 0x650a7354 ∷ 0x766a0abb ∷ 0x81c2c92e ∷ 0x92722c85 ∷ 0xa2bfe8a1 ∷ 0xa81a664b
    ∷ 0xc24b8b70 ∷ 0xc76c51a3 ∷ 0xd192e819 ∷ 0xd6990624 ∷ 0xf40e3585 ∷ 0x106aa070 ∷ 0x19a4c116
    ∷ 0x1e376c08 ∷ 0x2748774c ∷ 0x34b0bcb5 ∷ 0x391c0cb3 ∷ 0x4ed8aa4a ∷ 0x5b9cca4f ∷ 0x682e6ff3
    ∷ 0x748f82ee ∷ 0x78a5636f ∷ 0x84c87814 ∷ 0x8cc70208 ∷ 0x90befffa ∷ 0xa4506ceb ∷ 0xbef9a3f7
    ∷ 0xc67178f2 ∷ []

-- `ROTR`, and `~` on a word.
rotr : ℕ → ℕ → ℕ
rotr x n = bit_or (x / 2 ^ n) (x * 2 ^ (32 - n) % u32_mod)

invert : ℕ → ℕ
invert x = u32_mod - 1 - x % u32_mod

-- `CH`, `MAJ`, `EP0`, `EP1`, `SIG0`, `SIG1`
ch : ℕ → ℕ → ℕ → ℕ
ch x y z = bit_xor (bit_and x y) (bit_and (invert x) z)

maj : ℕ → ℕ → ℕ → ℕ
maj x y z = bit_xor (bit_xor (bit_and x y) (bit_and x z)) (bit_and y z)

ep0 : ℕ → ℕ
ep0 x = bit_xor (bit_xor (rotr x 2) (rotr x 13)) (rotr x 22)

ep1 : ℕ → ℕ
ep1 x = bit_xor (bit_xor (rotr x 6) (rotr x 11)) (rotr x 25)

sig0 : ℕ → ℕ
sig0 x = bit_xor (bit_xor (rotr x 7) (rotr x 18)) (x / 2 ^ 3)

sig1 : ℕ → ℕ
sig1 x = bit_xor (bit_xor (rotr x 17) (rotr x 19)) (x / 2 ^ 10)

-- The first loop of `ci_sha256_transform`: big-endian words of a block.
block_words : ℕ → List ℕ → List ℕ
block_words zero p = []
block_words (suc n) p =
    (get_or p 0 0 * 2 ^ 24 + get_or p 1 0 * 2 ^ 16 + get_or p 2 0 * 2 ^ 8 + get_or p 3 0)
    ∷ block_words n (drop 4 p)

-- The second loop, for `m[i]` up to `m[i + n - 1]`.
extend : ℕ → ℕ → List ℕ → List ℕ
extend zero i m = m
extend (suc n) i m = extend n (i + 1) (
    m
    ++ ((sig1 (get_or m (i - 2) 0)
          + get_or m (i - 7) 0
          + sig0 (get_or m (i - 15) 0)
          + get_or m (i - 16) 0)
        % u32_mod)
      ∷ [])

-- The eight words of the state, and the working variables `a` to `h`.
pub record Words : Type 0 where
  pub a : ℕ
  pub b : ℕ
  pub c : ℕ
  pub d : ℕ
  pub e : ℕ
  pub f : ℕ
  pub g : ℕ
  pub h : ℕ

round : ℕ → ℕ → Words → Words
unfolding rotr invert ch maj ep0 ep1
round k m w =
    let t1 = (w.h + ep1 w.e + ch w.e w.f w.g + k + m) % u32_mod in
    let t2 = (ep0 w.a + maj w.a w.b w.c) % u32_mod in
    record {
      a = (t1 + t2) % u32_mod;
      b = w.a;
      c = w.b;
      d = w.c;
      e = (w.d + t1) % u32_mod;
      f = w.e;
      g = w.f;
      h = w.g;
    }

rounds : List ℕ → List ℕ → Words → Words
rounds (k ∷ ks) (m ∷ ms) w = rounds ks ms (round k m w)
rounds _ _ w = w

add_words : Words → Words → Words
add_words s w = record {
  a = (s.a + w.a) % u32_mod;
  b = (s.b + w.b) % u32_mod;
  c = (s.c + w.c) % u32_mod;
  d = (s.d + w.d) % u32_mod;
  e = (s.e + w.e) % u32_mod;
  f = (s.f + w.f) % u32_mod;
  g = (s.g + w.g) % u32_mod;
  h = (s.h + w.h) % u32_mod;
}

-- `ci_sha256_transform` on the state and a block of 64 bytes.
pub transform : Words → List ℕ → Words
unfolding block_words extend sig0 sig1 round rounds add_words
transform s p = add_words s (rounds round_constants (extend 48 16 (block_words 16 p)) s)

-- `ci_sha256_t`; `buflen` is the length of `buf`.
pub record Context : Type 0 where
  pub state : Words
  pub bitlen : ℕ
  pub buf : List ℕ

-- `ci_sha256_init`
abbrev pub init : Context
init = record {
  state = record {
    a = 0x6a09e667;
    b = 0xbb67ae85;
    c = 0x3c6ef372;
    d = 0xa54ff53a;
    e = 0x510e527f;
    f = 0x9b05688c;
    g = 0x1f83d9ab;
    h = 0x5be0cd19;
  };
  bitlen = 0;
  buf = [];
}

-- The body of the loop of `ci_sha256_update`.
pub update_byte : Context → ℕ → Context
update_byte c x =
    let buf = c.buf ++ x ∷ [] in
    if length buf == 64
    then record { state = transform c.state buf; bitlen = c.bitlen + 512; buf = [] }
    else record c { buf = buf }

-- `ci_sha256_update`
pub update : Context → List ℕ → Context
update c [] = c
update c (x ∷ xs) = update (update_byte c x) xs

-- The bytes of a word, most significant first.
abbrev pub word_bytes : ℕ → List ℕ
word_bytes x = x / 2 ^ 24 % 256 ∷ x / 2 ^ 16 % 256 ∷ x / 2 ^ 8 % 256 ∷ x % 256 ∷ []

-- The loop of `ci_sha256_final` that appends the bit length.
abbrev pub length_bytes : ℕ → List ℕ
length_bytes n = word_bytes (n / 2 ^ 32) ++ word_bytes n

abbrev pub digest : Words → List ℕ
digest s =
    word_bytes s.a
    ++ (word_bytes s.b
        ++ (word_bytes s.c
            ++ (word_bytes s.d
                ++ (word_bytes s.e ++ (word_bytes s.f ++ (word_bytes s.g ++ word_bytes s.h))))))

-- `ci_sha256_final`: the digest.
pub final : Context → List ℕ
final c =
    let bits = c.bitlen + length c.buf * 8 in
    let buf = c.buf ++ 0x80 ∷ [] in
    if ltb 56 (length buf)
    then digest (
        transform (transform c.state (buf ++ replicate (64 - length buf) 0))
          (replicate 56 0 ++ length_bytes bits))
    else digest (transform c.state (buf ++ (replicate (56 - length buf) 0 ++ length_bytes bits)))

-- The three calls that hash a buffer.
unfoldable pub sha256 : List ℕ → List ℕ
unfolding update update_byte final transform
sha256 p = final (update init p)
