-- ===== src/Svu/Tracker/Invariant.antt =====
-- What `ci_svu_new` sets up and `ci_svu_accept` keeps.
use sat_build.Prelude.{
  ℕ, zero, suc, ◌+◌, ◌*◌, ◌≤◌, ◌<◌, ◌≡◌, refl, sym, ◌∙◌, ◌≢◌, inl, inr, false, ◌||◌, not, some,
  List, [], ◌∷◌, arith, ◌==◌, if◌then◌else◌, le→ltb, ltb→le, ==_iff, Bool-cases, if_none-some,
  length, get_or, set, replicate, length-set, length-take, length-replicate, length-write_at,
  u32_mod,
}
use mathlib.Core.Path.{subst}
use sat_build.Svu.Tracker.{
  Tracker, Coverage, hash_len, nblocks, new, cover_byte, cover, accepted, accept, initial,
}

-- The number of bytes that are not 0.
pub ones : List ℕ → ℕ
ones [] = 0
ones (c ∷ cs) = if c == 0 then ones cs else suc (ones cs)

pub ones-le : (cs : List ℕ) → ones cs ≤ length cs
unfolding ones
ones-le [] = omega arith
ones-le (c ∷ cs) = ground (arith, ones-le cs)

ones-set :
    (cs : List ℕ) (i : ℕ) → i < length cs → get_or cs i 1 ≡ 0 → ones (set cs i 1) ≡ suc (ones cs)
unfolding ones
ones-set [] i h e = absurd (omega arith)
ones-set (c ∷ cs) zero h e = ground arith
ones-set (c ∷ cs) (suc i) h e = ground (arith, ones-set cs i)

ones-replicate : (n : ℕ) → ones (replicate n 0) ≡ 0
unfolding ones
ones-replicate zero = refl
ones-replicate (suc n) = ground (arith, ones-replicate n)

-- With all bytes counted, none is 0.
pub get_or-ne-zero_of_ones :
    (cs : List ℕ) (i : ℕ) → ones cs ≡ length cs → i < length cs → get_or cs i 1 ≢ 0
unfolding ones
get_or-ne-zero_of_ones [] i e h = absurd (omega arith)
get_or-ne-zero_of_ones (c ∷ cs) zero e h = ground (arith, ones-le cs)
get_or-ne-zero_of_ones (c ∷ cs) (suc i) e h =
    ground (arith, ones-le cs, get_or-ne-zero_of_ones cs i)

-- Where none is 0, all are counted.
pub ones_of_nonzero :
    (cs : List ℕ) → ((i : ℕ) → i < length cs → get_or cs i 1 ≢ 0) → ones cs ≡ length cs
unfolding ones
ones_of_nonzero [] h = refl
ones_of_nonzero (c ∷ cs) h =
    ground (arith, h 0 (omega arith), ones_of_nonzero cs (λ i p. h (suc i) (omega arith)))

-- The coverage of `n` bytes: its count is the number of covered bytes.
pub record Counts (n : ℕ) (c : Coverage) : Type 0 where
  pub size : length c.bytes ≡ n
  pub counted : c.count ≡ ones c.bytes

pub record IsValid (s : Tracker) : Type 0 where
  pub total_lt : s.total < u32_mod
  pub block_lt : s.block < u32_mod
  pub blocks_eq : s.nblocks ≡ nblocks s.total s.block
  pub blocks_pos : 0 < s.nblocks
  pub payload_size : length s.payload ≡ s.total
  pub covered_size : length s.covered ≡ s.total
  pub counted : s.covered_count ≡ ones s.covered
  pub digests : length s.expected ≡ s.nblocks * hash_len

cover_byte-Counts :
    (i : ℕ) {n : ℕ} {c : Coverage} → n < u32_mod → i < n → Counts n c → Counts n (cover_byte i c)
unfolding cover_byte
cover_byte-Counts i {n} {c} hn hi v = elim (Bool-cases (get_or c.bytes i 1 == 0)) [
  | inl e ↦ rw e (record {
    size = length-set c.bytes i 1 ∙ v.size;
    counted = omega (
      arith,
      ones-set c.bytes i (omega arith) ((==_iff _ _).0 e),
      ones-le (set c.bytes i 1),
      length-set c.bytes i 1,
    );
  })
  | inr e ↦ rw e v
]

cover-Counts :
    (k i : ℕ) {n : ℕ} (c : Coverage) → n < u32_mod → i + k ≤ n → Counts n c → Counts n (cover k i c)
unfolding cover
cover-Counts zero i c hn h v = v
cover-Counts (suc k) i c hn h v =
    cover-Counts k (i + 1) (cover_byte i c) hn (omega arith)
      (cover_byte-Counts i hn (omega arith) v)

-- A tracker that `ci_svu_new` returns, for a 32-bit size and a digest for each block, is valid.
pub new-IsValid :
    (total block n : ℕ) (digests : List ℕ) {s : Tracker}
    → total < u32_mod
    → block < u32_mod
    → length digests ≡ nblocks total block * hash_len
    → new total block digests n ≡ some s
    → IsValid s
unfolding new
new-IsValid total block n digests {s} ht hb hd e =
    let inv = if_none-some _ _ e in subst IsValid inv.1 (fresh inv.0)
  where
    fresh :
        ((nblocks total block == 0) || not (nblocks total block == n)) ≡ false
        → IsValid (initial total block digests)
    fresh good = record {
      total_lt = ht;
      block_lt = hb;
      blocks_eq = refl;
      blocks_pos = ground arith;
      payload_size = length-replicate total 0;
      covered_size = length-replicate total 0;
      counted = sym (ones-replicate total);
      digests = length-take (nblocks total block * hash_len) digests ∙ ground arith;
    }

-- When `ci_svu_accept` returns 0, and what it has written then.
pub accept-eq-some :
    (s : Tracker) (offset : ℕ) (buf : List ℕ) {t : Tracker}
    → accept s offset buf ≡ some t
    → (offset + length buf ≤ s.total) × (t ≡ accepted s offset buf)
unfolding accept
accept-eq-some s offset buf {t} e = let inv = if_none-some _ _ e in (ltb→le _ _ inv.0, sym inv.1)

pub accept_fits :
    (s : Tracker) (offset : ℕ) (buf : List ℕ)
    → offset + length buf ≤ s.total
    → accept s offset buf ≡ some (accepted s offset buf)
unfolding accept
accept_fits s offset buf h = rw (le→ltb _ _ h)

-- What `ci_svu_accept` accepts keeps the tracker valid: both buffers have the payload's size,
-- and the count of covered bytes is that of the bytes marked.
pub accept-IsValid :
    (s : Tracker) (offset : ℕ) (buf : List ℕ) {t : Tracker}
    → IsValid s
    → accept s offset buf ≡ some t
    → IsValid t
accept-IsValid s offset buf {t} v e =
    let inv = accept-eq-some s offset buf e in subst IsValid (sym inv.1) (keeps inv.0)
  where
    keeps : offset + length buf ≤ s.total → IsValid (accepted s offset buf)
    keeps h = record {
      total_lt = v.total_lt;
      block_lt = v.block_lt;
      blocks_eq = v.blocks_eq;
      blocks_pos = v.blocks_pos;
      payload_size = length-write_at s.payload offset buf ∙ v.payload_size;
      covered_size = covering.size;
      counted = covering.counted;
      digests = v.digests;
    }
      where
        covering :
            Counts s.total
              (cover (length buf) offset (record { bytes = s.covered; count = s.covered_count }))
        covering =
            cover-Counts (length buf) offset _ v.total_lt h
              (record { size = v.covered_size; counted = v.counted })
