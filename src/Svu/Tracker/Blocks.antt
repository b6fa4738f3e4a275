-- ===== src/Svu/Tracker/Blocks.antt =====
-- The number of blocks.
use sat_build.Prelude.{
  ℕ, zero, suc, ◌+◌, ◌-◌, ◌*◌, ◌/◌, ◌%◌, ◌≤◌, ◌<◌, ◌≡◌, ◌⊎◌, inl, inr, true, false, arith, leb,
  leb→le, ne→==, Bool-cases, u32_mod,
}
use native.Mathlib.Nat.{
  div-mul-le_self, lt-div-mul-add, div-eq_of_lt, mod-eq_of_lt, div-eq_of_lt-le,
}
use sat_build.Svu.Tracker.{nblocks}

-- The blocks cover the payload, and none of them is empty.
abbrev pub Splits : ℕ → ℕ → ℕ → Type 0
Splits total block n = (0 < n) × ((n - 1) * block < total) × (total ≤ n * block)

pub Splits-of_bounds :
    (total block q : ℕ)
    → 0 < total
    → q * block ≤ total + block - 1
    → total + block - 1 < q * block + block
    → Splits total block q
Splits-of_bounds total block zero pt lo hi = absurd (omega arith)
Splits-of_bounds total block (suc q) pt lo hi = (omega arith, grind arith, omega arith)

-- For positive 32-bit sizes the count of blocks is exact, every block starting inside the
-- payload and the last one reaching its end, unless `total + block` goes past 2 ^ 32: then it is
-- 0, as for a bad argument.
pub nblocks_lem :
    (total block : ℕ)
    → 0 < total
    → 0 < block
    → total < u32_mod
    → block < u32_mod
    → ((total + block ≤ u32_mod) × Splits total block (nblocks total block))
      ⊎ ((u32_mod < total + block) × (nblocks total block ≡ 0))
unfolding nblocks
nblocks_lem total block pt pb ht hb = elim (Bool-cases (leb (total + block) u32_mod)) [
  | inl e ↦ inl (
    leb→le _ _ e,
    rw (ne→== total 0 (omega arith), ne→== block 0 (omega arith), mod-eq_of_lt (small e))
        (Splits-of_bounds total block ((total + block - 1) / block) pt
          (div-mul-le_self (total + block - 1) block) (lt-div-mul-add pb)),
  )
  | inr e ↦ inr (
    wraps e,
    rw (ne→== total 0 (omega arith), ne→== block 0 (omega arith))
        (div-eq_of_lt (wrapped (wraps e))),
  )
]
  where
    small : leb (total + block) u32_mod ≡ true → total + block - 1 < u32_mod
    small e = omega (arith, leb→le _ _ e)

    wraps : leb (total + block) u32_mod ≡ false → u32_mod < total + block
    wraps e = ground arith

    wrapped : u32_mod < total + block → (total + block - 1) % u32_mod < block
    wrapped h = omega arith

pub args_pos_of_nblocks_pos :
    (total block : ℕ) → 0 < nblocks total block → (0 < total) × (0 < block)
unfolding nblocks
args_pos_of_nblocks_pos zero block h = absurd (omega arith)
args_pos_of_nblocks_pos (suc total) zero h = ground arith
args_pos_of_nblocks_pos (suc total) (suc block) h = omega arith

-- Every block starts inside the payload.
pub block_start-lt :
    (total block b : ℕ)
    → total < u32_mod
    → block < u32_mod
    → b < nblocks total block
    → b * block < total
block_start-lt total block b ht hb h = elim (nblocks_lem total block args.0 args.1 ht hb) [
  | inl (_, exact) ↦ before (nblocks total block) h exact.1
  | inr (_, none_left) ↦ absurd (omega arith)
]
  where
    args : (0 < total) × (0 < block)
    args = args_pos_of_nblocks_pos total block (omega arith)

    before : (n : ℕ) → b < n → (n - 1) * block < total → b * block < total
    before zero p q = absurd (omega arith)
    before (suc n) p q = grind arith

-- The last block ends with the payload.
pub total-le-blocks :
    (total block : ℕ)
    → total < u32_mod
    → block < u32_mod
    → 0 < nblocks total block
    → total ≤ nblocks total block * block
total-le-blocks total block ht hb h = elim (nblocks_lem total block args.0 args.1 ht hb) [
  | inl (_, exact) ↦ exact.2
  | inr (_, none_left) ↦ absurd (omega arith)
]
  where
    args : (0 < total) × (0 < block)
    args = args_pos_of_nblocks_pos total block h

-- The block of a byte.
pub div-block : (i block b : ℕ) → b * block ≤ i → i < b * block + block → i / block ≡ b
div-block i block b lo hi = div-eq_of_lt-le block lo (omega arith)
