-- ===== src/Svu/Recovery/Blocks.antt =====
-- What one round's blasts leave for the blocks of the tracker.
use sat_build.Prelude.{
  ℕ, ◌+◌, ◌-◌, ◌*◌, ◌≤◌, ◌<◌, ◌≡◌, sym, ap, ap₂, ◌∙◌, ◌≢◌, ◌⊎◌, inl, inr, Bool, true, false, not,
  List, arith, ==_iff, Bool-cases, length, get_or, drop, slice, length-take, length-drop,
  get_or-slice, eq_of_get_or,
}
use mathlib.Core.Bool.{false≢true}
use sat_build.Sha256.{sha256}
use sat_build.Svu.Tracker.{
  Tracker, complete_verified, block_end, hash_block, same_bytes, block_matches, hash_len, manifest,
  verify,
}
use sat_build.Svu.Tracker.Blocks.{div-block}
use sat_build.Svu.Tracker.Invariant.{IsValid, ones_of_nonzero, get_or-ne-zero_of_ones, ones-le}
use sat_build.Svu.Tracker.Holes.{missing}
use sat_build.Svu.Tracker.Damage.{damaged}
use sat_build.Svu.Tracker.Verdict.{verified_iff}
use sat_build.Svu.Tracker.Content.{Expects, block_bytes, same_bytes_iff, expected_digest}
use sat_build.Svu.Serve.Requested.{Sent}

-- If the missing bytes were sent, every byte is covered.
pub covered_of_Sent :
    (src : List ℕ) (chosen : ℕ → Bool) (s t : Tracker)
    → IsValid s
    → Sent src chosen s t
    → ((i : ℕ) → i < s.total → missing s.covered i ≡ true → chosen i ≡ true)
    → t.total ≤ t.covered_count
covered_of_Sent src chosen s t v f h =
    omega (arith, f.valid.counted, f.valid.covered_size, ones_of_nonzero t.covered all)
  where
    all : (i : ℕ) → i < length t.covered → get_or t.covered i 1 ≢ 0
    all i lt z = elim (Bool-cases (chosen i)) [
      | inl now ↦ f.covers i now z
      | inr before ↦
          let z' : get_or s.covered i 1 ≡ 0 = sym (f.still_covered i before) ∙ z in
          let named = h i (omega (arith, f.valid.covered_size, f.total_eq)) ((==_iff _ _).1 z') in
          false≢true (sym before ∙ named)
    ]

-- Contents that agree on the bytes of a block have the same block.
block_bytes-ext :
    (xs ys : List ℕ) (total block b : ℕ)
    → length xs ≡ length ys
    → ((i : ℕ) → b * block ≤ i → i < block_end total block b → get_or xs i 0 ≡ get_or ys i 0)
    → block_bytes xs total block b ≡ block_bytes ys total block b
block_bytes-ext xs ys total block b e h =
    eq_of_get_or (slice off n xs) (slice off n ys) 0 sizes λ i lt.
      let small : i < n = omega (arith, length-take n (drop off xs)) in
      get_or-slice off n xs i 0 small
      ∙ h (off + i) (omega arith) (omega arith)
      ∙ sym (get_or-slice off n ys i 0 small)
  where
    off : ℕ
    off = b * block

    n : ℕ
    n = block_end total block b - off

    sizes : length (slice off n xs) ≡ length (slice off n ys)
    sizes = omega (
      arith,
      length-take n (drop off xs),
      length-take n (drop off ys),
      length-drop off xs,
      length-drop off ys,
    )

module _ (src : List ℕ) (chosen : ℕ → Bool) (s t : Tracker) (v : IsValid s) (x : Expects src s)
    (f : Sent src chosen s t) where
  pub Sent-Expects : Expects src t
  Sent-Expects = record {
    size = x.size ∙ sym f.total_eq;
    digests = f.expected_eq ∙ x.digests ∙ ap₂ (manifest src) (sym f.total_eq) (sym f.block_eq);
  }

  at_s : (xs : List ℕ) (b : ℕ) → block_bytes xs t.total t.block b ≡ block_bytes xs s.total s.block b
  at_s xs b = ap₂ (λ n k. block_bytes xs n k b) f.total_eq f.block_eq

  -- A block that was sent whole matches.
  sent_block-matches :
      (b : ℕ)
      → b < s.nblocks
      → ((i : ℕ) → b * s.block ≤ i → i < block_end s.total s.block b → chosen i ≡ true)
      → block_matches t b ≡ true
  unfolding block_matches hash_block
  sent_block-matches b h all = (same_bytes_iff _ _).1 (
      ap sha256 same
      ∙ unfold hash_block in
        sym (expected_digest t src f.valid Sent-Expects b (omega (arith, f.nblocks_eq))))
    where
      same : block_bytes t.payload t.total t.block b ≡ block_bytes src t.total t.block b
      same =
          at_s t.payload b
          ∙ block_bytes-ext t.payload src s.total s.block b
              (f.valid.payload_size ∙ f.total_eq ∙ sym x.size) (λ i p q. f.content i (all i p q))
          ∙ sym (at_s src b)

  -- A block of which nothing was sent keeps its verdict.
  kept_block-matches :
      (b : ℕ)
      → ((i : ℕ) → b * s.block ≤ i → i < block_end s.total s.block b → chosen i ≡ false)
      → block_matches t b ≡ block_matches s b
  unfolding block_matches hash_block
  kept_block-matches b none_sent =
      ap₂ same_bytes
        (ap sha256 (
          at_s t.payload b
          ∙ block_bytes-ext t.payload s.payload s.total s.block b
              (f.valid.payload_size ∙ f.total_eq ∙ sym v.payload_size)
              (λ i p q. f.still_there i (none_sent i p q))))
        (ap (slice (b * hash_len) hash_len) f.expected_eq)

  -- If every block was sent whole, or matched and was left alone, the payload is verified.
  pub verified_of_blocks :
      (max : ℕ)
      → s.total ≤ s.covered_count
      → ((b : ℕ)
          → b < s.nblocks
          → ((i : ℕ) → b * s.block ≤ i → i < block_end s.total s.block b → chosen i ≡ true)
            ⊎ ((block_matches s b ≡ true)
                × ((i : ℕ) → b * s.block ≤ i → i < block_end s.total s.block b → chosen i ≡ false)))
      → (verify t max).0 ≡ complete_verified
  verified_of_blocks max full split = (verified_iff t max f.valid).1 (
    covered_of_Sent src chosen s t v f (λ i lt e. absurd (not_missing i lt e)),
    λ b lt. elim (split b (omega (arith, f.nblocks_eq))) [
      | inl whole ↦ sent_block-matches b (omega (arith, f.nblocks_eq)) whole
      | inr (good, alone) ↦ kept_block-matches b alone ∙ good
    ],
  )
    where
      not_missing : (i : ℕ) → i < s.total → missing s.covered i ≡ true → ⊥
      not_missing i lt e =
          get_or-ne-zero_of_ones s.covered i
            (omega (arith, v.counted, v.covered_size, ones-le s.covered))
            (omega (arith, v.covered_size)) ((==_iff _ _).0 e)

-- A block is damaged as a whole, or not at all.
pub damaged_in_block :
    (s : Tracker) (b i : ℕ)
    → b * s.block ≤ i
    → i < block_end s.total s.block b
    → damaged s i ≡ not (block_matches s b)
damaged_in_block s b i p q =
    ap (λ k. not (block_matches s k)) (div-block i s.block b p (ground arith))

pub block_end-le : (total block b : ℕ) → block_end total block b ≤ total
block_end-le total block b = ground arith
