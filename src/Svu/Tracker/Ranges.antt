-- ===== src/Svu/Tracker/Ranges.antt =====
-- The intervals that `push_interval` collects, as a set of bytes.
use sat_build.Prelude.{
  ℕ, zero, suc, ◌+◌, ◌≤◌, ◌<◌, ◌≡◌, refl, sym, ap, inl, inr, Bool, true, false, ◌&&◌, ◌||◌, List,
  [], ◌∷◌, ◌++◌, arith, ltb, leb, ltb→lt, ltb→le, Bool-cases, length, take, length-append, take_all,
  u32_mod,
}
use sat_build.Svu.Wire.{Interval}
use sat_build.Svu.Tracker.{Output, no_output, push_interval}

-- Byte `i` lies in one of the intervals.
unfoldable pub in_ranges : ℕ → List Interval → Bool
in_ranges i [] = false
in_ranges i (iv ∷ ivs) = (leb iv.start i && ltb i iv.end) || in_ranges i ivs

pub in_ranges-append :
    (i : ℕ) (xs ys : List Interval) → in_ranges i (xs ++ ys) ≡ (in_ranges i xs || in_ranges i ys)
unfolding in_ranges
in_ranges-append i [] ys = refl
in_ranges-append i (x ∷ xs) ys = ground (arith, in_ranges-append i xs ys)

-- Intervals that are not empty, each with a gap before the next, the last one ending by `n`.
abbrev pub Ascending : ℕ → List Interval → ℕ → Type 0
Ascending lo [] n = lo ≤ n
Ascending lo (iv ∷ ivs) n = (lo ≤ iv.start) × (iv.start < iv.end) × Ascending iv.end ivs n

Ascending-snoc :
    (lo : ℕ) (l : List Interval) {n : ℕ} (start end : ℕ)
    → Ascending lo l n
    → n ≤ start
    → start < end
    → Ascending lo (l ++ record { start = start; end = end } ∷ []) end
Ascending-snoc lo [] start end h p q = omega arith
Ascending-snoc lo (iv ∷ ivs) start end h p q =
    (h.0, h.1, Ascending-snoc iv.end ivs start end h.2 p q)

Ascending-mono :
    (lo : ℕ) (l : List Interval) {n m : ℕ} → Ascending lo l n → n ≤ m → Ascending lo l m
Ascending-mono lo [] h p = omega arith
Ascending-mono lo (iv ∷ ivs) h p = (h.0, h.1, Ascending-mono iv.end ivs h.2 p)

pub length-le_of_Ascending :
    (lo : ℕ) (l : List Interval) {n : ℕ} → Ascending lo l n → lo + length l ≤ n
length-le_of_Ascending lo [] h = omega arith
length-le_of_Ascending lo (iv ∷ ivs) h = omega (arith, length-le_of_Ascending iv.end ivs h.2)

take-append_le {ℓ} : {A : Type ℓ} (k : ℕ) (l r : List A) → k ≤ length l → take k (l ++ r) ≡ take k l
take-append_le zero l r h = refl
take-append_le (suc k) [] r h = absurd (omega arith)
take-append_le (suc k) (x ∷ l) r h = ap (λ t. x ∷ t) (take-append_le k l r (omega arith))

-- What was collected, with room for `max` intervals, about the bytes below `n`: all ranges are
-- `ranges`, and they hold exactly the bytes that `wanted` names.
pub record Collects (max : ℕ) (wanted : ℕ → Bool) (n : ℕ) (o : Output) (ranges : List Interval)
    : Type 0 where
  pub written : o.out ≡ take max ranges
  pub all : o.count ≡ length ranges
  pub ascending : Ascending 0 ranges n
  pub exact : (i : ℕ) → in_ranges i ranges ≡ (ltb i n && wanted i)

module _ (max : ℕ) (wanted : ℕ → Bool) where
  pub Collects-none : Collects max wanted 0 no_output []
  unfolding in_ranges
  Collects-none = record {
    written = sym (take_all max [] (omega arith));
    all = refl;
    ascending = omega arith;
    exact = λ i. ground arith;
  }

  -- Bytes that are not wanted are passed over.
  pub Collects-skip :
      {n m : ℕ} {o : Output} {ranges : List Interval}
      → Collects max wanted n o ranges
      → n ≤ m
      → ((i : ℕ) → n ≤ i → i < m → wanted i ≡ false)
      → Collects max wanted m o ranges
  Collects-skip {n} {m} {o} {ranges} c h gap = record {
    written = c.written;
    all = c.all;
    ascending = Ascending-mono 0 ranges c.ascending h;
    exact = λ i. ground (arith, c.exact i, gap i);
  }

  -- A run of wanted bytes is pushed.
  pub Collects-push :
      {n : ℕ} (start end : ℕ) {o : Output} {ranges : List Interval}
      → Collects max wanted n o ranges
      → n ≤ start
      → start < end
      → end < u32_mod
      → ((i : ℕ) → n ≤ i → i < start → wanted i ≡ false)
      → ((i : ℕ) → start ≤ i → i < end → wanted i ≡ true)
      → Collects max wanted end
          (push_interval max o start end)
          (ranges ++ record { start = start; end = end } ∷ [])
  unfolding push_interval in_ranges
  Collects-push {n} start end {o} {ranges} c h p q gap run = record {
    written = room;
    all =
        omega (
          arith,
          c.all,
          length-append ranges (iv ∷ []),
          length-le_of_Ascending 0 ranges c.ascending,
        );
    ascending = Ascending-snoc 0 ranges start end c.ascending h p;
    exact = λ i. ground (arith, in_ranges-append i ranges (iv ∷ []), c.exact i, gap i, run i);
  }
    where
      iv : Interval
      iv = record { start = start; end = end }

      room : (push_interval max o start end).out ≡ take max (ranges ++ iv ∷ [])
      room = elim (Bool-cases (ltb o.count max)) [
        | inl e ↦ rw (
          e,
          c.written,
          take_all max ranges (omega (arith, c.all, ltb→lt _ _ e)),
          take_all max (ranges ++ iv ∷ [])
              (omega (arith, c.all, ltb→lt _ _ e, length-append ranges (iv ∷ []))),
        )
        | inr e ↦
            rw (e, take-append_le max ranges (iv ∷ []) (omega (arith, c.all, ltb→le _ _ e)))
              c.written
      ]
