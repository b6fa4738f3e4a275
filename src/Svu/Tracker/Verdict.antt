-- ===== src/Svu/Tracker/Verdict.antt =====
-- What the status of `ci_svu_verify` means.
use sat_build.Prelude.{
  ℕ, zero, suc, ◌+◌, ◌*◌, ◌≤◌, ◌<◌, ◌≡◌, refl, sym, ap, ◌∙◌, ◌≢◌, ◌↔◌, inl, inr, Bool, true, false,
  List, [], arith, ltb, ◌==◌, if◌then◌else◌, ltb→lt, le→ltb, ltb→le, Bool-cases,
}
use sat_build.Svu.Wire.{Interval}
use sat_build.Svu.Tracker.{
  Tracker, incomplete, complete_verified, corrupt, block_matches, Scan, scan_block, scan, no_run,
  verify,
}
use sat_build.Svu.Tracker.Blocks.{total-le-blocks}
use sat_build.Svu.Tracker.Invariant.{IsValid}
use sat_build.Svu.Tracker.Ranges.{Collects, Collects-none, Collects-skip}
use sat_build.Svu.Tracker.Holes.{verify_incomplete}
use sat_build.Svu.Tracker.Damage.{damaged, all_match, before, Scanned, push_run_lem, scan_block_lem}

module _ (s : Tracker) (max : ℕ) (v : IsValid s) where
  scan_lem :
      (n b m : ℕ) (c : Scan) (ranges : List Interval)
      → b + n ≡ m
      → m ≤ s.nblocks
      → Scanned s max b c ranges
      → (ranges' : List Interval) × Scanned s max m (scan n b s max c) ranges'
  unfolding scan
  scan_lem zero b m c ranges e le h = let e' : m ≡ b = omega arith in (ranges, rw e' h)
  scan_lem (suc n) b m c ranges e le h =
      let (ranges', h') = scan_block_lem s max v b (omega arith) c ranges h in
      scan_lem n (b + 1) m (scan_block s max b c) ranges' (omega arith) le h'

  Scanned-no_run : Scanned s max 0 no_run []
  unfolding all_match
  Scanned-no_run = record {
    collected = Collects-none max (damaged s);
    run_le = omega arith;
    end_le = omega arith;
    run = λ i p q. absurd (omega arith);
    gap = λ i p q. absurd (omega arith);
    verdict = refl;
  }

  before_end : before s s.nblocks ≡ s.total
  before_end = omega (
    arith,
    total-le-blocks s.total s.block v.total_lt v.block_lt (rw (← v.blocks_eq) v.blocks_pos),
    ap (λ n. n * s.block) v.blocks_eq,
  )

  -- With every byte of a valid tracker covered the status is COMPLETE_VERIFIED if all blocks
  -- match, else CORRUPT; the ranges written are the first `max` of a list of ascending ranges
  -- that hold exactly the bytes of the blocks that fail; the count is that of the whole list.
  pub verify_covered :
      s.total ≤ s.covered_count
      → ((verify s max).0 ≡ (if all_match s s.nblocks then complete_verified else corrupt))
        × ((ranges : List Interval) × Collects max (damaged s) s.total (verify s max).1 ranges)
  unfolding verify
  verify_covered h =
      let (ranges, scanned) =
        scan_lem s.nblocks 0 s.nblocks no_run [] (omega arith) (omega arith) Scanned-no_run in
      let (ranges', collected) =
        push_run_lem s max v s.nblocks (scan s.nblocks 0 s max no_run) ranges scanned in
      rw (le→ltb _ _ h) (
        scanned.verdict,
        (
          ranges',
          Collects-skip max (damaged s) collected (omega (arith, scanned.end_le, before_end))
              (λ i p q. scanned.gap i p (omega (arith, before_end))),
        ),
      )

incomplete≢verified : incomplete ≢ complete_verified
incomplete≢verified e = cc

all_match_of_status :
    (b : Bool) → (if b then complete_verified else corrupt) ≡ complete_verified → b ≡ true
all_match_of_status true e = refl
all_match_of_status false e = cc

all_match_lem :
    (s : Tracker) (n : ℕ) → all_match s n ≡ true → (b : ℕ) → b < n → block_matches s b ≡ true
unfolding all_match
all_match_lem s zero h b lt = absurd (omega arith)
all_match_lem s (suc n) h b lt = elim (Bool-cases (b == n)) [
  | inl e ↦ ground arith
  | inr e ↦ all_match_lem s n (ground arith) b (ground arith)
]

all_match_of :
    (s : Tracker) (n : ℕ) → ((b : ℕ) → b < n → block_matches s b ≡ true) → all_match s n ≡ true
unfolding all_match
all_match_of s zero h = refl
all_match_of s (suc n) h = rw (all_match_of s n (λ b p. h b (omega arith)), h n (omega arith))

pub covered_of_verified :
    (s : Tracker) (max : ℕ)
    → IsValid s
    → (verify s max).0 ≡ complete_verified
    → s.total ≤ s.covered_count
covered_of_verified s max v e = elim (Bool-cases (ltb s.covered_count s.total)) [
  | inl less ↦
      absurd (incomplete≢verified (sym (verify_incomplete s max v (ltb→lt _ _ less)).0 ∙ e))
  | inr enough ↦ ltb→le _ _ enough
]

pub matches_of_verified :
    (s : Tracker) (max : ℕ)
    → IsValid s
    → (verify s max).0 ≡ complete_verified
    → (b : ℕ) → b < s.nblocks
    → block_matches s b ≡ true
matches_of_verified s max v e =
    all_match_lem s s.nblocks
      (all_match_of_status _ (sym (verify_covered s max v (covered_of_verified s max v e)).0 ∙ e))

-- For a valid tracker the status is COMPLETE_VERIFIED exactly when every byte is covered and
-- every block matches its digest.
pub verified_iff :
    (s : Tracker) (max : ℕ)
    → IsValid s
    → ((verify s max).0 ≡ complete_verified)
      ↔ ((s.total ≤ s.covered_count) × ((b : ℕ) → b < s.nblocks → block_matches s b ≡ true))
verified_iff s max v = (
  λ e. (covered_of_verified s max v e, matches_of_verified s max v e),
  λ h. (verify_covered s max v h.0).0 ∙ rw (all_match_of s s.nblocks h.1),
)
