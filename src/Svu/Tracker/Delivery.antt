-- ===== src/Svu/Tracker/Delivery.antt =====
-- What accepted fragments of a file leave in the tracker.
use sat_build.Prelude.{
  ℕ, zero, suc, ◌+◌, ◌-◌, ◌≤◌, ◌<◌, ◌≡◌, refl, sym, ap, ◌∙◌, ◌≢◌, ◌⊎◌, inl, inr, some, List, arith,
  ltb, ◌==◌, ltb→lt, ltb→le, ne→==, ==_iff, Bool-cases, length, get_or, drop, slice, length-set,
  length-take, length-drop, get_or-set, get_or-write_at_in, get_or-write_at_out, get_or-slice,
}
use mathlib.Core.Path.{subst}
use sat_build.Svu.Tracker.{Tracker, Coverage, cover_byte, cover, accepted, accept}
use sat_build.Svu.Tracker.Invariant.{IsValid, accept_fits, accept-IsValid}

length-cover_byte : (i : ℕ) (c : Coverage) → length (cover_byte i c).bytes ≡ length c.bytes
unfolding cover_byte
length-cover_byte i c = elim (Bool-cases (get_or c.bytes i 1 == 0)) [
  | inl e ↦ rw e (length-set c.bytes i 1)
  | inr e ↦ rw e
]

-- Covering a byte never uncovers another one.
get_or-cover_byte :
    (i j : ℕ) (c : Coverage)
    → i < length c.bytes
    → (i ≢ j → get_or (cover_byte i c).bytes j 1 ≡ get_or c.bytes j 1)
      × (get_or (cover_byte i c).bytes i 1 ≢ 0)
unfolding cover_byte
get_or-cover_byte i j c h = elim (Bool-cases (get_or c.bytes i 1 == 0)) [
  | inl e ↦ rw e (
    λ d. get_or-set c.bytes i j 1 1 h ∙ rw (ne→== i j d),
    λ z. ground (arith, get_or-set c.bytes i i 1 1 h),
  )
  | inr e ↦ rw e (λ d. refl, ground arith)
]

cover_out :
    (k i j : ℕ) (c : Coverage)
    → i + k ≤ length c.bytes
    → (j < i) ⊎ (i + k ≤ j)
    → get_or (cover k i c).bytes j 1 ≡ get_or c.bytes j 1
unfolding cover
cover_out zero i j c h o = refl
cover_out (suc k) i j c h o =
    cover_out k (i + 1) j (cover_byte i c) (omega (arith, length-cover_byte i c)) (omega arith)
    ∙ (get_or-cover_byte i j c (omega arith)).0 (omega arith)

cover_first :
    (k i : ℕ) (c : Coverage) → i + suc k ≤ length c.bytes → get_or (cover (suc k) i c).bytes i 1 ≢ 0
unfolding cover
cover_first k i c h z = (get_or-cover_byte i i c (omega arith)).1 (
    sym
      (cover_out k (i + 1) i (cover_byte i c) (omega (arith, length-cover_byte i c)) (omega arith))
    ∙ z)

cover_in :
    (k i j : ℕ) (c : Coverage)
    → i + k ≤ length c.bytes
    → i ≤ j
    → j < i + k
    → get_or (cover k i c).bytes j 1 ≢ 0
unfolding cover
cover_in zero i j c h p q = absurd (omega arith)
cover_in (suc k) i j c h p q = elim (Bool-cases (i == j)) [
  | inl e ↦
      subst (λ l. get_or (cover (suc k) i c).bytes l 1 ≢ 0) ((==_iff i j).0 e) (cover_first k i c h)
  | inr e ↦
      cover_in k (i + 1) j (cover_byte i c) (omega (arith, length-cover_byte i c)) (ground arith)
        (omega arith)
]

-- From `s` to `t` the bytes from `lo` to `hi` became covered bytes of the file `src`, and nothing
-- else changed.
pub record Filled (src : List ℕ) (lo hi : ℕ) (s t : Tracker) : Type 0 where
  pub valid : IsValid t
  pub total_eq : t.total ≡ s.total
  pub block_eq : t.block ≡ s.block
  pub nblocks_eq : t.nblocks ≡ s.nblocks
  pub expected_eq : t.expected ≡ s.expected
  pub covers : (i : ℕ) → lo ≤ i → i < hi → get_or t.covered i 1 ≢ 0
  pub content : (i : ℕ) → lo ≤ i → i < hi → get_or t.payload i 0 ≡ get_or src i 0
  pub still_covered : (i : ℕ) → (i < lo) ⊎ (hi ≤ i) → get_or t.covered i 1 ≡ get_or s.covered i 1
  pub still_there : (i : ℕ) → (i < lo) ⊎ (hi ≤ i) → get_or t.payload i 0 ≡ get_or s.payload i 0

-- A fragment of the file is accepted, and fills its range.
pub accept-Filled :
    (s : Tracker) (src : List ℕ) (off n : ℕ)
    → IsValid s
    → length src ≡ s.total
    → off + n ≤ s.total
    → (t : Tracker) × (accept s off (slice off n src) ≡ some t) × Filled src off (off + n) s t
accept-Filled s src off n v e h = (
  accepted s off buf,
  accept_fits s off buf fits,
  record {
    valid = accept-IsValid s off buf v (accept_fits s off buf fits);
    total_eq = refl;
    block_eq = refl;
    nblocks_eq = refl;
    expected_eq = refl;
    covers = λ i p q.
        cover_in (length buf) off i _ (omega (arith, fits, v.covered_size)) p (omega (arith, size));
    content = λ i p q.
        get_or-write_at_in s.payload off buf i 0 (omega (arith, fits, v.payload_size)) p
          (omega (arith, size))
        ∙ get_or-slice off n src (i - off) 0 (omega arith)
        ∙ ap (λ k. get_or src k 0) (omega arith);
    still_covered = λ i o.
        cover_out (length buf) off i _ (omega (arith, fits, v.covered_size)) (omega (arith, size));
    still_there = λ i o. get_or-write_at_out s.payload off buf i 0 (omega (arith, size));
  },
)
  where
    buf : List ℕ
    buf = slice off n src

    size : length buf ≡ n
    size = omega (arith, length-take n (drop off src), length-drop off src)

    fits : off + length buf ≤ s.total
    fits = omega (arith, size)

pub Filled-trans :
    (src : List ℕ) (lo mid hi : ℕ) {s t u : Tracker}
    → lo ≤ mid
    → mid ≤ hi
    → Filled src lo mid s t
    → Filled src mid hi t u
    → Filled src lo hi s u
Filled-trans src lo mid hi {s} {t} {u} p q f g = record {
  valid = g.valid;
  total_eq = g.total_eq ∙ f.total_eq;
  block_eq = g.block_eq ∙ f.block_eq;
  nblocks_eq = g.nblocks_eq ∙ f.nblocks_eq;
  expected_eq = g.expected_eq ∙ f.expected_eq;
  covers = λ i a b. elim (Bool-cases (ltb i mid)) [
    | inl left ↦
        λ z. f.covers i a (ltb→lt _ _ left) (sym (g.still_covered i (inl (ltb→lt _ _ left))) ∙ z)
    | inr right ↦ g.covers i (ltb→le _ _ right) b
  ];
  content = λ i a b. elim (Bool-cases (ltb i mid)) [
    | inl left ↦ g.still_there i (inl (ltb→lt _ _ left)) ∙ f.content i a (ltb→lt _ _ left)
    | inr right ↦ g.content i (ltb→le _ _ right) b
  ];
  still_covered = λ i o. g.still_covered i (omega arith) ∙ f.still_covered i (omega arith);
  still_there = λ i o. g.still_there i (omega arith) ∙ f.still_there i (omega arith);
}

-- Nothing is filled between equal bounds.
pub Filled-refl : (src : List ℕ) (lo : ℕ) {s : Tracker} → IsValid s → Filled src lo lo s s
Filled-refl src lo v = record {
  valid = v;
  total_eq = refl;
  block_eq = refl;
  nblocks_eq = refl;
  expected_eq = refl;
  covers = λ i p q. absurd (omega arith);
  content = λ i p q. absurd (omega arith);
  still_covered = λ i o. refl;
  still_there = λ i o. refl;
}
