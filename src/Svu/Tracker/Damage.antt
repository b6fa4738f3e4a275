-- ===== src/Svu/Tracker/Damage.antt =====
-- The second half of `ci_svu_verify`: the blocks that fail their digest.
use sat_build.Prelude.{
  ℕ, zero, suc, ◌+◌, ◌*◌, ◌/◌, ◌%◌, ◌≤◌, ◌<◌, min, ◌≡◌, ap, ◌∙◌, inl, inr, Bool, true, false, ◌&&◌,
  not, List, [], ◌∷◌, ◌++◌, arith, ltb, ◌==◌, if◌then◌else◌, ltb→lt, ltb→le, ==_iff, Bool-cases,
  u32_mod,
}
use native.Mathlib.Nat.{mod-eq_of_lt}
use native.Mathlib.Numerals.{add-one}
use sat_build.Svu.Wire.{Interval}
use sat_build.Svu.Tracker.{
  Tracker, complete_verified, corrupt, block_end, block_matches, Scan, push_run, scan_block,
}
use sat_build.Svu.Tracker.Blocks.{block_start-lt, div-block}
use sat_build.Svu.Tracker.Invariant.{IsValid}
use sat_build.Svu.Tracker.Ranges.{Collects, Collects-skip, Collects-push}

-- The block of byte `i` fails its digest.
abbrev pub damaged : Tracker → ℕ → Bool
damaged s i = not (block_matches s (i / s.block))

-- The first `n` blocks match.
unfoldable pub all_match : Tracker → ℕ → Bool
all_match s zero = true
all_match s (suc n) = all_match s n && block_matches s n

-- The bytes before block `b`.
abbrev pub before : Tracker → ℕ → ℕ
before s b = min (b * s.block) s.total

-- The loop's variables before block `b`: what was pushed, the open run, and the verdict.
pub record Scanned (s : Tracker) (max b : ℕ) (c : Scan) (ranges : List Interval) : Type 0 where
  pub collected : Collects max (damaged s) c.run_start c.pushed ranges
  pub run_le : c.run_start ≤ c.run_end
  pub end_le : c.run_end ≤ before s b
  pub run : (i : ℕ) → c.run_start ≤ i → i < c.run_end → damaged s i ≡ true
  pub gap : (i : ℕ) → c.run_end ≤ i → i < before s b → damaged s i ≡ false
  pub verdict : c.status ≡ (if all_match s b then complete_verified else corrupt)

module _ (s : Tracker) (max : ℕ) (v : IsValid s) where
  pub push_run_lem :
      (b : ℕ) (c : Scan) (ranges : List Interval)
      → Scanned s max b c ranges
      → (ranges' : List Interval) × Collects max (damaged s) c.run_end (push_run max c) ranges'
  unfolding push_run
  push_run_lem b c ranges h = elim (Bool-cases (c.run_end == c.run_start)) [
    | inl e ↦ rw e (ranges, rw ((==_iff _ _).0 e) h.collected)
    | inr e ↦ rw e (
      ranges ++ record { start = c.run_start; end = c.run_end } ∷ [],
      Collects-push max (damaged s) c.run_start c.run_end h.collected (omega arith) (run_lt e)
          (omega (arith, h.end_le, v.total_lt)) (λ i p q. absurd (omega arith)) h.run,
    )
  ]
    where
      run_lt : (c.run_end == c.run_start) ≡ false → c.run_start < c.run_end
      run_lt e = ground (arith, h.run_le)

  module _ (b : ℕ) (lt : b < s.nblocks) where
    start_lt : b * s.block < s.total
    start_lt = block_start-lt s.total s.block b v.total_lt v.block_lt (rw (← v.blocks_eq) lt)

    start_eq : b * s.block % u32_mod ≡ b * s.block
    start_eq = mod-eq_of_lt (omega (arith, start_lt, v.total_lt))

    end_eq : block_end s.total s.block b % u32_mod ≡ block_end s.total s.block b
    end_eq = ground (arith, start_lt, v.total_lt)

    before_eq : before s b ≡ b * s.block
    before_eq = omega (arith, start_lt)

    before-add_one : before s (b + 1) ≡ block_end s.total s.block b
    before-add_one = ground arith

    -- The bytes of block `b` share its verdict.
    in_block :
        (i : ℕ)
        → b * s.block ≤ i
        → i < block_end s.total s.block b
        → damaged s i ≡ not (block_matches s b)
    in_block i p q = ap (λ k. not (block_matches s k)) (div-block i s.block b p (ground arith))

    all_match-add_one : all_match s (b + 1) ≡ (all_match s b && block_matches s b)
    unfolding all_match
    all_match-add_one = rw add-one

    in_bad_block :
        (i : ℕ)
        → block_matches s b ≡ false
        → b * s.block ≤ i
        → i < block_end s.total s.block b
        → damaged s i ≡ true
    in_bad_block i e p q = in_block i p q ∙ ap not e

    -- A block that matches: the open run stays as it is.
    scan_matching :
        (c : Scan) (ranges : List Interval)
        → block_matches s b ≡ true
        → Scanned s max b c ranges
        → Scanned s max (b + 1) c ranges
    scan_matching c ranges e h = record {
      collected = h.collected;
      run_le = h.run_le;
      end_le = omega (arith, h.end_le);
      run = h.run;
      gap = λ i p q. elim (Bool-cases (ltb i (b * s.block))) [
        | inl early ↦ h.gap i p (rw before_eq (ltb→lt _ _ early))
        | inr late ↦ in_block i (ltb→le _ _ late) (rw (← before-add_one) q) ∙ ap not e
      ];
      verdict = rw (all_match-add_one, e) (ground (arith, h.verdict));
    }

    -- A block that fails right behind the open run: the run grows.
    scan_growing :
        (c : Scan) (ranges : List Interval)
        → block_matches s b ≡ false
        → b * s.block ≡ c.run_end
        → Scanned s max b c ranges
        → Scanned s max
            (b + 1)
            (record c { status = corrupt; run_end = block_end s.total s.block b })
            ranges
    scan_growing c ranges e at_end h = record {
      collected = h.collected;
      run_le = ground (arith, h.run_le, start_lt);
      end_le = rw before-add_one (omega arith);
      run = λ i p q. elim (Bool-cases (ltb i (b * s.block))) [
        | inl early ↦ h.run i p (rw (← at_end) (ltb→lt _ _ early))
        | inr late ↦ in_bad_block i e (ltb→le _ _ late) q
      ];
      gap = λ i p q.
          absurd
            (let q' : i < block_end s.total s.block b = rw (← before-add_one) q in omega arith);
      verdict = rw (all_match-add_one, e) (ground arith);
    }

    -- Any other block that fails: the open run is pushed, and a new one starts.
    scan_opening :
        (c : Scan) (ranges : List Interval)
        → block_matches s b ≡ false
        → Scanned s max b c ranges
        → (ranges' : List Interval) × Scanned s max
            (b + 1)
            (record {
              status = corrupt;
              run_start = b * s.block;
              run_end = block_end s.total s.block b;
              pushed = push_run max c;
            })
            ranges'
    scan_opening c ranges e h =
        let (ranges', collected) = push_run_lem b c ranges h in
        (
          ranges',
          record {
            collected =
                Collects-skip max (damaged s) collected (rw (← before_eq) h.end_le)
                  (λ i p q. h.gap i p (rw before_eq q));
            run_le = ground (arith, start_lt);
            end_le = rw before-add_one (omega arith);
            run = λ i p q. in_bad_block i e p q;
            gap = λ i p q.
                absurd (
                  let q' : i < block_end s.total s.block b = rw (← before-add_one) q in
                  omega arith);
            verdict = rw (all_match-add_one, e) (ground arith);
          },
        )

    pub scan_block_lem :
        (c : Scan) (ranges : List Interval)
        → Scanned s max b c ranges
        → (ranges' : List Interval) × Scanned s max (b + 1) (scan_block s max b c) ranges'
    unfolding scan_block
    scan_block_lem c ranges h =
        rw (start_eq, end_eq)
          (elim (Bool-cases (block_matches s b)) [
            | inl e ↦ rw e (ranges, scan_matching c ranges e h)
            | inr e ↦
                elim (Bool-cases (not (c.run_end == c.run_start) && (b * s.block == c.run_end))) [
                  | inl adjacent ↦
                      rw (e, adjacent) (ranges, scan_growing c ranges e (ground arith) h)
                  | inr apart ↦ rw (e, apart) (scan_opening c ranges e h)
                ]
          ])
