-- ===== src/Svu/Tracker/Holes.antt =====
-- The first half of `ci_svu_verify`: the ranges that never arrived.
use sat_build.Prelude.{
  ℕ, zero, suc, ◌+◌, ◌-◌, ◌≤◌, ◌<◌, ◌≡◌, refl, inl, inr, Bool, true, List, [], ◌∷◌, ◌++◌, arith,
  ltb, ◌==◌, ltb→lt, lt→ltb, ltb→le, Bool-cases, get_or, u32_mod,
}
use sat_build.Svu.Wire.{Interval}
use sat_build.Svu.Tracker.{
  Tracker, incomplete, Output, no_output, push_interval, run_end, holes, verify,
}
use sat_build.Svu.Tracker.Invariant.{IsValid}
use sat_build.Svu.Tracker.Ranges.{Collects, Collects-none, Collects-skip, Collects-push}

-- Byte `i` never arrived.
abbrev pub missing : List ℕ → ℕ → Bool
missing covered i = get_or covered i 1 == 0

-- A run stops at the first byte that arrived, or at the end.
run_end_lem :
    (n : ℕ) (covered : List ℕ) (run : ℕ)
    → (run ≤ run_end n covered run)
      × (run_end n covered run ≤ run + n)
      × ((i : ℕ) → run ≤ i → i < run_end n covered run → missing covered i ≡ true)
unfolding run_end
run_end_lem zero covered run = (omega arith, omega arith, λ i p q. absurd (omega arith))
run_end_lem (suc n) covered run =
    let ih = run_end_lem n covered (run + 1) in
    elim (Bool-cases (missing covered run)) [
      | inl e ↦ rw e (omega (arith, ih.0), omega (arith, ih.1), λ i p q. ground (arith, ih.2 i))
      | inr e ↦ rw e (omega arith, omega arith, λ i p q. absurd (omega arith))
    ]

-- A run that starts at a missing byte is not empty.
lt-run_end :
    (n : ℕ) (covered : List ℕ) (run : ℕ)
    → missing covered run ≡ true
    → 0 < n
    → run < run_end n covered run
unfolding run_end
lt-run_end zero covered run e h = absurd (omega arith)
lt-run_end (suc n) covered run e h = rw e (omega (arith, (run_end_lem n covered (run + 1)).0))

module _ (max total : ℕ) (covered : List ℕ) (small : total < u32_mod) where
  -- With fuel for the bytes that are left, the loop collects exactly the missing bytes.
  holes_lem :
      (fuel i : ℕ) (o : Output) (ranges : List Interval)
      → i ≤ total
      → total - i < fuel
      → Collects max (missing covered) i o ranges
      → (ranges' : List Interval) × Collects max
          (missing covered)
          total
          (holes fuel max total covered i o)
          ranges'
  unfolding holes
  holes_lem zero i o ranges h f c = absurd (omega arith)
  holes_lem (suc fuel) i o ranges h f c = elim (Bool-cases (ltb i total)) [
    | inr done ↦ rw done (
      ranges,
      Collects-skip max (missing covered) c h (λ j p q. absurd (omega (arith, ltb→le _ _ done))),
    )
    | inl more ↦ elim (Bool-cases (missing covered i)) [
      | inl e ↦
          rw (more, e)
            (let run = run_end (total - i) covered i in
              let bounds = run_end_lem (total - i) covered i in
              let grows = lt-run_end (total - i) covered i e (omega (arith, ltb→lt _ _ more)) in
              holes_lem fuel run (push_interval max o i run)
                (ranges ++ record { start = i; end = run } ∷ []) (omega (arith, bounds.1))
                (omega (arith, ltb→lt _ _ more))
                (Collects-push max (missing covered) i run c (omega arith) grows
                  (omega (arith, bounds.1)) (λ j p q. absurd (omega arith)) bounds.2))
      | inr e ↦
          rw (more, e)
            (holes_lem fuel (i + 1) o ranges (omega (arith, ltb→lt _ _ more))
              (omega (arith, ltb→lt _ _ more))
              (Collects-skip max (missing covered) c (omega arith) (λ j p q. ground arith)))
    ]
  ]

-- With bytes of a valid tracker missing the status is INCOMPLETE, and the ranges written to
-- `out` are the first `max` of a list of ascending ranges that hold exactly the bytes that never
-- arrived; the count is that of the whole list.
pub verify_incomplete :
    (s : Tracker) (max : ℕ)
    → IsValid s
    → s.covered_count < s.total
    → ((verify s max).0 ≡ incomplete)
      × ((ranges : List Interval) × Collects max
            (missing s.covered)
            s.total
            (verify s max).1
            ranges)
unfolding verify
verify_incomplete s max v h = rw (lt→ltb _ _ h) (
  refl,
  holes_lem max s.total s.covered v.total_lt (s.total + 1) 0 no_output [] (omega arith)
      (omega arith) (Collects-none max (missing s.covered)),
)
