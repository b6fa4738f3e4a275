-- ===== src/Svu/Tracker/Content.antt =====
-- The reassembled bytes against the file that the manifest was made from.
use sat_build.Prelude.{
  ℕ, zero, suc, ◌+◌, ◌-◌, ◌*◌, ◌/◌, ◌≤◌, ◌<◌, ◌≡◌, refl, sym, ap, ◌∙◌, ◌≢◌, ◌↔◌, ◌⊎◌, inl, inr,
  true, List, [], ◌∷◌, arith, ◌==◌, ==_iff, Bool-cases, length, get_or, take, drop, slice,
  length-append, take-append_of_length, drop-append_of_length, drop-drop, get_or-slice,
  eq_of_get_or,
}
use native.Mathlib.Decide.{ℕ_discrete}
use native.Mathlib.Nat.{div-lt_iff_lt-mul, div-mul-le_self, lt-div-mul-add}
use sat_build.Sha256.{sha256}
use sat_build.Sha256.Laws.{length-sha256}
use sat_build.Svu.Tracker.{
  Tracker, complete_verified, hash_len, block_end, hash_block, manifest_from, manifest, same_bytes,
  block_matches, verify,
}
use sat_build.Svu.Tracker.Blocks.{args_pos_of_nblocks_pos, total-le-blocks}
use sat_build.Svu.Tracker.Invariant.{IsValid}
use sat_build.Svu.Tracker.Verdict.{verified_iff, matches_of_verified}

pub same_bytes_iff : (xs ys : List ℕ) → (same_bytes xs ys ≡ true) ↔ (xs ≡ ys)
unfolding same_bytes
same_bytes_iff [] [] = (λ _. refl, λ _. refl)
same_bytes_iff [] (y ∷ ys) = (λ e. cc, λ e. cc)
same_bytes_iff (x ∷ xs) [] = (λ e. cc, λ e. cc)
same_bytes_iff (x ∷ xs) (y ∷ ys) =
    (λ e. ground (arith, (same_bytes_iff xs ys).0), λ e. ground (arith, (same_bytes_iff xs ys).1))

length-hash_block :
    (src : List ℕ) (total block b : ℕ) → length (hash_block src total block b) ≡ hash_len
unfolding hash_block
length-hash_block src total block b = length-sha256 _

-- The digest of a block in a manifest.
slice-manifest_from :
    (n b k : ℕ) (src : List ℕ) (total block : ℕ)
    → k < n
    → slice (k * hash_len) hash_len (manifest_from n b src total block)
      ≡ hash_block src total block (b + k)
unfolding manifest_from
slice-manifest_from zero b k src total block h = absurd (omega arith)
slice-manifest_from (suc n) b zero src total block h =
    take-append_of_length hash_len (hash_block src total block b) _
      (length-hash_block src total block b)
    ∙ ap (hash_block src total block) (omega arith)
slice-manifest_from (suc n) b (suc k) src total block h =
    ap (take hash_len) next
    ∙ slice-manifest_from n (b + 1) k src total block (omega arith)
    ∙ ap (hash_block src total block) (omega arith)
  where
    next :
        drop (suc k * hash_len) (manifest_from (suc n) b src total block)
        ≡ drop (k * hash_len) (manifest_from n (b + 1) src total block)
    next =
        ap (λ o. drop o (manifest_from (suc n) b src total block))
          (let e : suc k * hash_len ≡ hash_len + k * hash_len = omega arith in e)
        ∙ sym (drop-drop hash_len (k * hash_len) (manifest_from (suc n) b src total block))
        ∙ ap (drop (k * hash_len)) (
            drop-append_of_length hash_len (hash_block src total block b) _
              (length-hash_block src total block b))

pub length-manifest_from :
    (n b : ℕ) (src : List ℕ) (total block : ℕ)
    → length (manifest_from n b src total block) ≡ n * hash_len
unfolding manifest_from
length-manifest_from zero b src total block = omega arith
length-manifest_from (suc n) b src total block = omega (
  arith,
  length-append (hash_block src total block b) (manifest_from n (b + 1) src total block),
  length-hash_block src total block b,
  length-manifest_from n (b + 1) src total block,
)

-- The bytes of block `b`.
abbrev pub block_bytes : List ℕ → ℕ → ℕ → ℕ → List ℕ
block_bytes src total block b = slice (b * block) (block_end total block b - b * block) src

-- The tracker expects the digests of `src`.
pub record Expects (src : List ℕ) (s : Tracker) : Type 0 where
  pub size : length src ≡ s.total
  pub digests : s.expected ≡ manifest src s.total s.block

-- Two different contents of block `b` with one digest.
abbrev pub Collides : List ℕ → List ℕ → ℕ → ℕ → ℕ → Type 0
Collides payload src total block b =
    (block_bytes payload total block b ≢ block_bytes src total block b)
    × (sha256 (block_bytes payload total block b) ≡ sha256 (block_bytes src total block b))

-- Either the first `n` blocks agree, or one of them does not.
first_difference :
    (s : Tracker) (src : List ℕ) (n : ℕ)
    → ((b : ℕ)
        → b < n
        → block_bytes s.payload s.total s.block b ≡ block_bytes src s.total s.block b)
      ⊎ ((b : ℕ) × (b < n)
          × (block_bytes s.payload s.total s.block b ≢ block_bytes src s.total s.block b))
first_difference s src zero = inl (λ b h. absurd (omega arith))
first_difference s src (suc n) = elim (first_difference s src n) [
  | inr (b, h, differ) ↦ inr (b, omega arith, differ)
  | inl agree ↦
      elim (bytes_discrete (block_bytes s.payload s.total s.block n)
        (block_bytes src s.total s.block n)) [
          | yes e ↦ inl (λ b h. elim (Bool-cases (b == n)) [
            | inl last ↦ rw ((==_iff b n).0 last) e
            | inr other ↦ agree b (ground arith)
          ])
          | no differ ↦ inr (n, omega arith, differ)
        ]
]
  where
    bytes_discrete : Discrete (List ℕ)
    bytes_discrete = hlevel ℕ_discrete

-- A byte of the payload, found in its block.
byte_of_block :
    (xs : List ℕ) (total block i : ℕ)
    → i < total
    → 0 < block
    → get_or xs i 0 ≡ get_or (block_bytes xs total block (i / block)) (i - i / block * block) 0
byte_of_block xs total block i h p =
    ap (λ k. get_or xs k 0) (omega (arith, lo))
    ∙ sym (get_or-slice (i / block * block) _ xs (i - i / block * block) 0 (ground (arith, lo, hi)))
  where
    lo : i / block * block ≤ i
    lo = div-mul-le_self i block

    hi : i < i / block * block + block
    hi = lt-div-mul-add p

module _ (s : Tracker) (src : List ℕ) (v : IsValid s) (x : Expects src s) where
  pub expected_digest :
      (b : ℕ)
      → b < s.nblocks
      → slice (b * hash_len) hash_len s.expected ≡ hash_block src s.total s.block b
  unfolding manifest
  expected_digest b h = rw x.digests (
      slice-manifest_from _ 0 b src s.total s.block (rw (← v.blocks_eq) h)
      ∙ ap (hash_block src s.total s.block) (omega arith))

  digest_of_match :
      (b : ℕ)
      → b < s.nblocks
      → block_matches s b ≡ true
      → sha256 (block_bytes s.payload s.total s.block b)
        ≡ sha256 (block_bytes src s.total s.block b)
  unfolding block_matches hash_block
  digest_of_match b h e = (same_bytes_iff _ _).0 e ∙ unfold hash_block in expected_digest b h

  -- Contents that agree block by block agree.
  eq_of_blocks :
      ((b : ℕ)
        → b < s.nblocks
        → block_bytes s.payload s.total s.block b ≡ block_bytes src s.total s.block b)
      → s.payload ≡ src
  eq_of_blocks agree = eq_of_get_or s.payload src 0 (v.payload_size ∙ sym x.size) λ i h.
      let inside : i < s.total = omega (arith, v.payload_size) in
      byte_of_block s.payload s.total s.block i inside block_pos
      ∙ ap (λ l. get_or l (i - i / s.block * s.block) 0) (agree (i / s.block) (block_lt i inside))
      ∙ sym (byte_of_block src s.total s.block i inside block_pos)
    where
      block_pos : 0 < s.block
      block_pos = (args_pos_of_nblocks_pos s.total s.block (rw (← v.blocks_eq) v.blocks_pos)).1

      block_lt : (i : ℕ) → i < s.total → i / s.block < s.nblocks
      block_lt i h = (div-lt_iff_lt-mul block_pos).1 (
          omega (
            arith,
            ap (λ n. n * s.block) v.blocks_eq,
            total-le-blocks s.total s.block v.total_lt v.block_lt (rw (← v.blocks_eq) v.blocks_pos),
          ))

  -- When `ci_svu_verify` returns COMPLETE_VERIFIED for a valid tracker that holds the digests of
  -- a file, its payload is the file, or some block has two contents of one digest.
  pub verified-eq-src :
      (max : ℕ)
      → (verify s max).0 ≡ complete_verified
      → (s.payload ≡ src) ⊎ ((b : ℕ) × (b < s.nblocks) × Collides s.payload src s.total s.block b)
  verified-eq-src max e = elim (first_difference s src s.nblocks) [
    | inl agree ↦ inl (eq_of_blocks agree)
    | inr (b, h, differ) ↦
        inr (b, h, (differ, digest_of_match b h (matches_of_verified s max v e b h)))
  ]

  -- A valid tracker that holds the digests of a file and, fully covered, the file's bytes is
  -- verified.
  pub src-verified :
      (max : ℕ) → s.payload ≡ src → s.total ≤ s.covered_count → (verify s max).0 ≡ complete_verified
  unfolding block_matches
  src-verified max e h = (verified_iff s max v).1 (
    h,
    λ b p.
        (same_bytes_iff _ _).1
          (ap (λ l. hash_block l s.total s.block b) e ∙ sym (expected_digest b p)),
  )
