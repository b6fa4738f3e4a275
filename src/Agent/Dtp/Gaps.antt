-- ===== src/Agent/Dtp/Gaps.antt =====
-- The intervals that a download asks for again, and what its success means.
use sat_build.Prelude.{
  ℕ, zero, suc, ◌+◌, ◌-◌, ◌≤◌, ◌<◌, ◌≡◌, refl, inl, inr, Bool, true, false, ◌&&◌, ◌||◌, not, List,
  [], ◌∷◌, arith, ltb, leb, ◌==◌, ltb→lt, ltb→le, leb→le, le→leb, leb→lt, ==_iff, Bool-cases,
  length,
}
use sat_build.Agent.Dtp.{
  seq_is_received, Gap, skip_while, gaps_from, compute_missing_intervals, count_to,
}

-- Whether a number lies in one of the gaps.
abbrev pub in_gaps : ℕ → List Gap → Bool
in_gaps k [] = false
in_gaps k (g ∷ gs) = (leb g.start k && leb k g.end) || in_gaps k gs

skip_while_lem :
    (fuel : ℕ) (test : ℕ → Bool) (i : ℕ)
    → let j = skip_while fuel test i in
      (i ≤ j)
      × (j ≤ i + fuel)
      × ((k : ℕ) → i ≤ k → k < j → test k ≡ true)
      × ((j < i + fuel) → test j ≡ false)
unfolding skip_while
skip_while_lem zero test i =
    (omega arith, omega arith, λ k h h'. absurd (omega arith), λ h. absurd (omega arith))
skip_while_lem (suc fuel) test i = elim (Bool-cases (test i)) [
  | inr stop ↦
      rw (stop, skip_while) (omega arith, omega arith, λ k h h'. absurd (omega arith), λ h. stop)
  | inl go ↦
      let (le, ge, all, last) = skip_while_lem fuel test (i + 1) in
      rw (go, skip_while)
        (
          omega (arith, le),
          omega (arith, ge),
          λ k h h'. elim (Bool-cases (k == i)) [
            | inl same ↦ rw ((==_iff k i).0 same) go
            | inr other ↦ all k (ground arith) h'
          ],
          λ h. last (omega arith),
        )
]

module _ (nof : ℕ) (received : ℕ → Bool) where
  -- The first missing packet from `i` on, and the first behind it that is received.
  abbrev gap_at : ℕ → ℕ
  gap_at i = skip_while (nof - i) received i

  abbrev behind_at : ℕ → ℕ
  behind_at i = skip_while (nof - gap_at i) (λ k. not (received k)) (gap_at i)

  -- Where a gap starts before the end, it is not empty, nothing is missing before it, and
  -- everything is missing in it.
  gap_lem :
      (i : ℕ)
      → i ≤ nof
      → gap_at i < nof
      → (i ≤ gap_at i)
        × (gap_at i < behind_at i)
        × (behind_at i ≤ nof)
        × ((k : ℕ) → i ≤ k → k < gap_at i → received k ≡ true)
        × ((k : ℕ) → gap_at i ≤ k → k < behind_at i → received k ≡ false)
  gap_lem i h inside =
      let (le, ge, before, stop) = skip_while_lem (nof - i) received i in
      let (le', ge', all, stop') =
        skip_while_lem (nof - gap_at i) (λ k. not (received k)) (gap_at i) in
      let missing : received (gap_at i) ≡ false = stop (omega arith) in
      (
        le,
        elim (Bool-cases (behind_at i == gap_at i)) [
          | inr other ↦ (ground (arith, other, le'))
          | inl same ↦
              let e = (==_iff (behind_at i) (gap_at i)).0 same in
              absurd (ground (arith, missing, rw e at (stop' (omega (arith, e)))))
        ],
        omega (arith, ge'),
        before,
        λ k a b. ground (arith, all k a b),
      )

  gaps_from_sound :
      (room i k : ℕ)
      → i ≤ nof
      → in_gaps k (gaps_from room nof received i) ≡ true
      → (k < nof) × (received k ≡ false)
  unfolding gaps_from
  gaps_from_sound zero i k h e = absurd (ground (arith, e))
  gaps_from_sound (suc room) i k h e = elim (Bool-cases (leb nof (gap_at i))) [
    | inl none_left ↦ absurd (ground (arith, (rw (none_left, gaps_from) at e)))
    | inr inside ↦
        let (le, nonempty, end_le, before, missing) = gap_lem i h (leb→lt nof (gap_at i) inside) in
        let r = rw (inside, gaps_from) at e in
        (elim (Bool-cases (leb (gap_at i) k && leb k (behind_at i - 1))) [
          | inl within ↦
              let a = leb→le (gap_at i) k (ground (arith, within)) in
              let b = leb→le k (behind_at i - 1) (ground (arith, within)) in
              (omega arith, missing k a (omega arith))
          | inr later ↦ gaps_from_sound room (behind_at i) k end_le (ground (arith, later, r))
        ])
  ]

  gaps_from_complete :
      (room i k : ℕ)
      → i ≤ k
      → k < nof
      → received k ≡ false
      → length (gaps_from room nof received i) < room
      → in_gaps k (gaps_from room nof received i) ≡ true
  unfolding gaps_from
  gaps_from_complete zero i k h inside m few = absurd (omega arith)
  gaps_from_complete (suc room) i k h inside m few = elim (Bool-cases (leb nof (gap_at i))) [
    | inl none_left ↦
        let (le, ge, before, stop) = skip_while_lem (nof - i) received i in
        absurd (ground (arith, m, before k h (omega (arith, leb→le nof (gap_at i) none_left))))
    | inr more ↦
        let (le, nonempty, end_le, before, missing) =
          gap_lem i (omega arith) (leb→lt nof (gap_at i) more) in
        let fewer = rw (more, gaps_from) at few in
        rw (more, gaps_from)
          (elim (Bool-cases (ltb k (gap_at i))) [
            | inl early ↦ absurd (ground (arith, m, before k h (ltb→lt k (gap_at i) early)))
            | inr on ↦ elim (Bool-cases (ltb k (behind_at i))) [
              | inl within ↦
                  rw
                    (
                      le→leb (gap_at i) k (ltb→le k (gap_at i) on),
                      le→leb k (behind_at i - 1) (omega (arith, ltb→lt k (behind_at i) within)),
                    )
                    refl
              | inr later ↦
                  let rest =
                    gaps_from_complete room (behind_at i) k (ltb→le k (behind_at i) later) inside m
                      (omega (arith, fewer)) in
                  rw rest (ground arith)
            ]
          ])
  ]

-- The intervals that are asked for again hold only packets that are missing, and where they are
-- fewer than the 8 that fit, they hold all that are missing.
pub compute_missing_intervals_lem :
    (nof : ℕ) (bitmap : List ℕ) (k : ℕ)
    → let gaps = compute_missing_intervals nof bitmap in
      (in_gaps k gaps ≡ true → (k < nof) × (seq_is_received nof bitmap k ≡ false))
      × (length gaps < 8 → k < nof → seq_is_received nof bitmap k ≡ false → in_gaps k gaps ≡ true)
unfolding compute_missing_intervals
compute_missing_intervals_lem nof bitmap k = (
  gaps_from_sound nof (seq_is_received nof bitmap) 8 0 k (omega arith),
  λ few inside m.
      gaps_from_complete nof (seq_is_received nof bitmap) 8 0 k (omega arith) inside m few,
)

count_to-le : (received : ℕ → Bool) (n : ℕ) → count_to received n ≤ n
unfolding count_to
count_to-le received zero = omega arith
count_to-le received (suc n) = ground (arith, count_to-le received n)

pub all_of_count :
    (received : ℕ → Bool) (n k : ℕ) → n ≤ count_to received n → k < n → received k ≡ true
unfolding count_to
all_of_count received zero k full h = absurd (omega arith)
all_of_count received (suc n) k full h = elim (Bool-cases (received n)) [
  | inr lost ↦ absurd (omega (arith, count_to-le received n, (rw (lost, count_to) at full)))
  | inl here ↦ elim (Bool-cases (k == n)) [
    | inl same ↦ rw ((==_iff k n).0 same) here
    | inr other ↦
        all_of_count received n k (omega (arith, (rw (here, count_to) at full)))
          (ground (arith, other, h))
  ]
]
