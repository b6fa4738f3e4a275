-- ===== src/Sha256/Padding.antt =====
-- The streaming digest against the description of SHA-256 by a padded message and its blocks.
use mathlib.Core.List.{append_assoc, append-nil}
use sat_build.Prelude.{
  ℕ, zero, suc, ◌+◌, ◌-◌, ◌*◌, ◌/◌, ◌%◌, ◌≤◌, ◌<◌, ◌≡◌, refl, sym, ap, ap₂, ◌∙◌, List, [], ◌∷◌,
  ◌++◌, arith, lt→ltb, le→ltb, ne→==, ==_iff, length, take, drop, replicate, length-append,
  length-take, length-drop, length-replicate,
}
use native.Mathlib.Decide.{dec_lt}
use sat_build.Sha256.{
  Words, transform, Context, init, update_byte, update, length_bytes, digest, final, sha256,
}
use sat_build.Sha256.Laws.{update-append}

-- What follows a message of `n` bytes: the bit 1, as few zeros as lead to 8 bytes before the end of
-- a block, and the number of bits.
abbrev pub padding : ℕ → List ℕ
padding n = 0x80 ∷ (replicate ((119 - n % 64) % 64) 0 ++ length_bytes (n * 8))

abbrev pub padded : List ℕ → List ℕ
padded msg = msg ++ padding (length msg)

-- The states over `n` blocks of 64 bytes.
abbrev pub hash_blocks : ℕ → Words → List ℕ → Words
hash_blocks zero s p = s
hash_blocks (suc n) s p = hash_blocks n (transform s (take 64 p)) (drop 64 p)

take-drop {ℓ} : {A : Type ℓ} (n : ℕ) (xs : List A) → take n xs ++ drop n xs ≡ xs
take-drop zero xs = refl
take-drop (suc n) [] = refl
take-drop (suc n) (x ∷ xs) = ap (λ l. x ∷ l) (take-drop n xs)

replicate-add {ℓ} :
    {A : Type ℓ} (m n : ℕ) (a : A) → replicate (m + n) a ≡ replicate m a ++ replicate n a
replicate-add zero n a = ap (λ k. replicate k a) (omega arith)
replicate-add (suc m) n a =
    ap (λ k. replicate k a) (let e : suc m + n ≡ suc (m + n) = omega arith in e)
    ∙ ap (λ l. a ∷ l) (replicate-add m n a)

-- Bytes that end within the block are kept.
update_short :
    (xs buf : List ℕ) (state : Words) (bits : ℕ)
    → length buf + length xs < 64
    → update (record { state = state; bitlen = bits; buf = buf }) xs
      ≡ record { state = state; bitlen = bits; buf = buf ++ xs }
unfolding update update_byte
update_short [] buf state bits h = rw (append-nil buf) refl
update_short (x ∷ xs) buf state bits h =
    let l = length-append buf (x ∷ []) in
    rw (ne→== (length (buf ++ (x ∷ []))) 64 (omega (arith, l))) (
      update_short xs (buf ++ (x ∷ [])) state bits (omega (arith, l))
      ∙ ap (λ b. let c : Context = record { state = state; bitlen = bits; buf = b } in c)
          (append_assoc buf (x ∷ []) xs))

-- Bytes that end the block are hashed.
update_block :
    (xs buf : List ℕ) (state : Words) (bits : ℕ)
    → length buf < 64
    → length buf + length xs ≡ 64
    → update (record { state = state; bitlen = bits; buf = buf }) xs
      ≡ record { state = transform state (buf ++ xs); bitlen = bits + 512; buf = [] }
unfolding update update_byte
update_block [] buf state bits room h = absurd (omega arith)
update_block (x ∷ []) buf state bits room h =
    let l = length-append buf (x ∷ []) in
    let e : length (buf ++ (x ∷ [])) ≡ 64 = omega (arith, l) in
    rw ((==_iff (length (buf ++ (x ∷ []))) 64).1 e) refl
update_block (x ∷ (y ∷ xs)) buf state bits room h =
    let l = length-append buf (x ∷ []) in
    rw (ne→== (length (buf ++ (x ∷ []))) 64 (omega (arith, l))) (
      update_block (y ∷ xs) (buf ++ (x ∷ [])) state bits (omega (arith, l)) (omega (arith, l))
      ∙ ap
          (λ b.
            let c : Context = record { state = transform state b; bitlen = bits + 512; buf = [] } in
            c)
          (append_assoc buf (x ∷ []) (y ∷ xs)))

-- Whole blocks are hashed one after the other.
update_blocks :
    (n : ℕ) (p : List ℕ) (state : Words) (bits : ℕ)
    → length p ≡ n * 64
    → (update (record { state = state; bitlen = bits; buf = [] }) p).state ≡ hash_blocks n state p
unfolding update
update_blocks zero [] state bits h = refl
update_blocks zero (x ∷ p) state bits h = absurd (omega arith)
update_blocks (suc n) p state bits h =
    let l = length-take 64 p in
    let d = length-drop 64 p in
    let c : Context = record { state = state; bitlen = bits; buf = [] } in
    ap (λ q. (update c q).state) (sym (take-drop 64 p))
    ∙ ap (λ (e : Context). e.state) (update-append c (take 64 p) (drop 64 p))
    ∙ rw (update_block (take 64 p) [] state bits (omega arith) (omega (arith, l)))
        (update_blocks n (drop 64 p) (transform state (take 64 p)) (bits + 512) (omega (arith, d)))

-- A byte that fills the buffer, and one that does not.
update_byte_full :
    (c : Context) (x : ℕ)
    → length c.buf + 1 ≡ 64
    → update_byte c x
      ≡ record { state = transform c.state (c.buf ++ (x ∷ [])); bitlen = c.bitlen + 512; buf = [] }
unfolding update_byte
update_byte_full c x e =
    let l = length-append c.buf (x ∷ []) in
    rw ((==_iff (length (c.buf ++ (x ∷ []))) 64).1 (omega (arith, l))) refl

update_byte_more :
    (c : Context) (x : ℕ)
    → length c.buf + 1 < 64
    → update_byte c x ≡ record c { buf = c.buf ++ (x ∷ []) }
unfolding update_byte
update_byte_more c x h =
    let l = length-append c.buf (x ∷ []) in
    rw (ne→== (length (c.buf ++ (x ∷ []))) 64 (omega (arith, l))) refl

-- The counts of a context.
counts :
    (xs : List ℕ) (c : Context)
    → length c.buf < 64
    → (length (update c xs).buf ≡ (length c.buf + length xs) % 64)
      × ((update c xs).bitlen + length (update c xs).buf * 8
          ≡ c.bitlen + length c.buf * 8 + length xs * 8)
unfolding update
counts [] c h = (omega arith, omega arith)
counts (x ∷ xs) c h =
    let l = length-append c.buf (x ∷ []) in
    elim (dec_lt (length c.buf + 1) 64) [
      | no full ↦
          let c' : Context = record {
            state = transform c.state (c.buf ++ (x ∷ []));
            bitlen = c.bitlen + 512;
            buf = [];
          } in
          let ih = counts xs c' (omega arith) in
          let e : update c (x ∷ xs) ≡ update c' xs =
            ap (λ k. update k xs) (update_byte_full c x (omega arith)) in
          rw e (omega (arith, ih.0), omega (arith, ih.1))
      | yes more ↦
          let c' : Context = record c { buf = c.buf ++ (x ∷ []) } in
          let ih = counts xs c' (omega (arith, l)) in
          let e : update c (x ∷ xs) ≡ update c' xs =
            ap (λ k. update k xs) (update_byte_more c x more) in
          rw e (omega (arith, ih.0, l), omega (arith, ih.1, l))
    ]

module _ (buf : List ℕ) (state : Words) (bits : ℕ) (lb : List ℕ) (eight : length lb ≡ 8) where
  abbrev open_context : Context
  open_context = record { state = state; bitlen = bits; buf = buf }

  -- What `ci_sha256_final` appends, where the length still fits the block.
  short_tail :
      length buf < 56
      → (update open_context (0x80 ∷ (replicate ((119 - length buf) % 64) 0 ++ lb))).state
        ≡ transform state
            ((buf ++ (0x80 ∷ [])) ++ (replicate (56 - length (buf ++ (0x80 ∷ []))) 0 ++ lb))
  short_tail h =
      let l = length-append buf (0x80 ∷ []) in
      let n : (119 - length buf) % 64 ≡ 56 - length (buf ++ (0x80 ∷ [])) = omega (arith, l) in
      let z : List ℕ = replicate (56 - length (buf ++ (0x80 ∷ []))) 0 in
      rw n (
        ap (λ (c : Context). c.state)
          (update_block (0x80 ∷ (z ++ lb)) buf state bits (omega arith) (
            omega (
              arith,
              l,
              eight,
              length-append z lb,
              length-replicate {A = ℕ} (56 - length (buf ++ (0x80 ∷ []))) 0,
            )))
        ∙ ap (transform state) (sym (append_assoc buf (0x80 ∷ []) (z ++ lb))))

  -- And where a block of its own is needed.
  long_tail :
      56 ≤ length buf
      → length buf < 64
      → (update open_context (0x80 ∷ (replicate ((119 - length buf) % 64) 0 ++ lb))).state
        ≡ transform
            (transform state
              ((buf ++ (0x80 ∷ [])) ++ replicate (64 - length (buf ++ (0x80 ∷ []))) 0))
            (replicate 56 0 ++ lb)
  long_tail h room =
      let l = length-append buf (0x80 ∷ []) in
      let n : (119 - length buf) % 64 ≡ (64 - length (buf ++ (0x80 ∷ []))) + 56 =
        omega (arith, l) in
      let z : List ℕ = replicate (64 - length (buf ++ (0x80 ∷ []))) 0 in
      let rest : List ℕ = replicate 56 0 ++ lb in
      let split : (0x80 ∷ (replicate ((119 - length buf) % 64) 0 ++ lb)) ≡ (0x80 ∷ z) ++ rest =
        ap (λ t. 0x80 ∷ t)
          (ap (λ k. replicate k 0 ++ lb) n
            ∙ ap (λ t. t ++ lb) (replicate-add (64 - length (buf ++ (0x80 ∷ []))) 56 0)
            ∙ append_assoc z (replicate 56 0) lb) in
      let zl = length-replicate {A = ℕ} (64 - length (buf ++ (0x80 ∷ []))) 0 in
      let first = update_block (0x80 ∷ z) buf state bits room (omega (arith, l, zl)) in
      let last =
        update_block rest [] (transform state (buf ++ (0x80 ∷ z))) (bits + 512) (omega arith)
          (omega (arith, eight)) in
      ap (λ t. (update open_context t).state) split
      ∙ ap (λ (c : Context). c.state) (update-append open_context (0x80 ∷ z) rest)
      ∙ ap (λ c. (update c rest).state) first
      ∙ ap (λ (c : Context). c.state) last
      ∙ ap (λ t. transform (transform state t) rest) (sym (append_assoc buf (0x80 ∷ []) z))

-- What `ci_sha256_final` does is to hash the padding.
final_lem :
    (c : Context)
    → length c.buf < 64
    → final c
      ≡ digest
          (update c (
            0x80
            ∷ (replicate ((119 - length c.buf) % 64) 0
                ++ length_bytes (c.bitlen + length c.buf * 8)))).state
unfolding final
final_lem c room =
    let l = length-append c.buf (0x80 ∷ []) in
    let lb = length_bytes (c.bitlen + length c.buf * 8) in
    elim (dec_lt (length c.buf) 56) [
      | yes h ↦
          rw (le→ltb 56 (length (c.buf ++ (0x80 ∷ []))) (omega (arith, l)), final)
            (ap digest (sym (short_tail c.buf c.state c.bitlen lb refl h)))
      | no h ↦
          rw (lt→ltb 56 (length (c.buf ++ (0x80 ∷ []))) (omega (arith, l)), final)
            (ap digest (sym (long_tail c.buf c.state c.bitlen lb refl (omega arith) room)))
    ]

length-padded : (msg : List ℕ) → length (padded msg) ≡ length (padded msg) / 64 * 64
length-padded msg =
    let n = length msg in
    let z = replicate {A = ℕ} ((119 - n % 64) % 64) 0 in
    let a = length-append msg (padding n) in
    let b = length-append z (length_bytes (n * 8)) in
    omega (arith, a, b, length-replicate {A = ℕ} ((119 - n % 64) % 64) 0)

-- `sha256` is the digest of the states over the blocks of the padded message, which has whole blocks.
pub sha256_lem :
    (msg : List ℕ)
    → (sha256 msg ≡ digest (hash_blocks (length (padded msg) / 64) init.state (padded msg)))
      × (length (padded msg) % 64 ≡ 0)
unfolding sha256
sha256_lem msg =
    let c = update init msg in
    let n = counts msg init (omega arith) in
    let whole = length-padded msg in
    let buffered : length c.buf ≡ length msg % 64 = omega (arith, n.0) in
    let bits : c.bitlen + length c.buf * 8 ≡ length msg * 8 = omega (arith, n.1) in
    (
      final_lem c (omega (arith, n.0))
          ∙ ap₂
              (λ k m.
                digest (update c (0x80 ∷ (replicate ((119 - k) % 64) 0 ++ length_bytes m))).state)
              buffered bits
          ∙ ap (λ (e : Context). digest e.state)
              (sym (update-append init msg (padding (length msg))))
          ∙ ap digest (update_blocks (length (padded msg) / 64) (padded msg) init.state 0 whole),
      omega (arith, whole),
    )
