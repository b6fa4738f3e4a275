-- ===== src/Svu/Serve/Requested.antt =====
-- What the blasts of one request leave in the tracker, over a link that loses nothing.
use sat_build.Prelude.{
  ℕ, ◌+◌, ◌-◌, ◌%◌, ◌≤◌, ◌<◌, ◌≡◌, refl, sym, ◌∙◌, ◌≢◌, inl, inr, Bool, true, false, ◌&&◌, ◌||◌,
  List, [], ◌∷◌, ◌++◌, arith, ltb, leb, if◌then◌else◌, ltb→lt, Bool-cases, length, get_or, u16_mod,
  u32_mod,
}
use mathlib.Core.Path.{subst}
use sat_build.Svu.Wire.{Interval}
use sat_build.Svu.Tracker.{Tracker}
use sat_build.Svu.Tracker.Invariant.{IsValid}
use sat_build.Svu.Tracker.Ranges.{in_ranges}
use sat_build.Svu.Tracker.Delivery.{Filled, Filled-refl}
use sat_build.Svu.Serve.{blast_interval, blast_requested}
use sat_build.Svu.Serve.Blast.{blast_interval-Filled}
use sat_build.Svu.Session.{Drain, drain_packet, drain_data}

-- The bytes that `chosen` names became covered bytes of the file; nothing else changed.
pub record Sent (src : List ℕ) (chosen : ℕ → Bool) (s t : Tracker) : Type 0 where
  pub valid : IsValid t
  pub total_eq : t.total ≡ s.total
  pub block_eq : t.block ≡ s.block
  pub nblocks_eq : t.nblocks ≡ s.nblocks
  pub expected_eq : t.expected ≡ s.expected
  pub covers : (i : ℕ) → chosen i ≡ true → get_or t.covered i 1 ≢ 0
  pub content : (i : ℕ) → chosen i ≡ true → get_or t.payload i 0 ≡ get_or src i 0
  pub still_covered : (i : ℕ) → chosen i ≡ false → get_or t.covered i 1 ≡ get_or s.covered i 1
  pub still_there : (i : ℕ) → chosen i ≡ false → get_or t.payload i 0 ≡ get_or s.payload i 0

module _ (src : List ℕ) where
  pub Sent-none :
      (chosen : ℕ → Bool) {s : Tracker}
      → IsValid s
      → ((i : ℕ) → chosen i ≡ false)
      → Sent src chosen s s
  Sent-none chosen v no_byte = record {
    valid = v;
    total_eq = refl;
    block_eq = refl;
    nblocks_eq = refl;
    expected_eq = refl;
    covers = λ i h. ground (arith, no_byte i);
    content = λ i h. ground (arith, no_byte i);
    still_covered = λ i h. refl;
    still_there = λ i h. refl;
  }

  -- One interval, then the others.
  pub Sent-step :
      (lo hi : ℕ) (chosen all : ℕ → Bool) {s t u : Tracker}
      → Filled src lo hi s t
      → Sent src chosen t u
      → ((i : ℕ) → all i ≡ ((leb lo i && ltb i hi) || chosen i))
      → Sent src all s u
  Sent-step lo hi chosen all {s} {t} {u} f g split = record {
    valid = g.valid;
    total_eq = g.total_eq ∙ f.total_eq;
    block_eq = g.block_eq ∙ f.block_eq;
    nblocks_eq = g.nblocks_eq ∙ f.nblocks_eq;
    expected_eq = g.expected_eq ∙ f.expected_eq;
    covers = λ i h. elim (Bool-cases (chosen i)) [
      | inl later ↦ g.covers i later
      | inr now ↦ λ z.
          f.covers i (ground (arith, split i)) (ground (arith, split i))
            (sym (g.still_covered i now) ∙ z)
    ];
    content = λ i h. elim (Bool-cases (chosen i)) [
      | inl later ↦ g.content i later
      | inr now ↦
          g.still_there i now ∙ f.content i (ground (arith, split i)) (ground (arith, split i))
    ];
    still_covered = λ i h.
        g.still_covered i (ground (arith, split i)) ∙ f.still_covered i (ground (arith, split i));
    still_there = λ i h.
        g.still_there i (ground (arith, split i)) ∙ f.still_there i (ground (arith, split i));
  }

drain_data-append :
    (d : Drain) (xs ys : List (List ℕ)) → drain_data d (xs ++ ys) ≡ drain_data (drain_data d xs) ys
unfolding drain_data
drain_data-append d [] ys = refl
drain_data-append d (x ∷ xs) ys = drain_data-append (drain_packet d x) xs ys

abbrev pub requested : List Interval → ℕ → ℕ → Bool
requested ivs total i = in_ranges i ivs && ltb i total

module _ (session mtu : ℕ) (src : List ℕ) (total : ℕ) (m : mtu < u16_mod)
    (w : total + u16_mod ≤ u32_mod) where
  pub whole_file-Sent :
      (d : Drain)
      → IsValid d.recv
      → length src ≡ total
      → d.recv.total ≡ total
      → Sent src
          (λ i. ltb i total)
          d.recv
          (drain_data d (blast_interval session mtu src 0 total)).recv
  whole_file-Sent d v e t =
      let f =
        blast_interval-Filled session mtu src 0 total d v (e ∙ sym t) (omega arith) (omega arith) m
          (omega arith) in
      Sent-step src 0 total (λ _. false) (λ i. ltb i total) f
        (Sent-none src (λ _. false) f.valid (λ i. refl)) (λ i. ground arith)

  -- The blasts of a list of intervals, received in full by a valid tracker of the file's size,
  -- deliver exactly the bytes that lie in one of them and in the file, whatever the intervals
  -- are, for a 16-bit packet size and a file at least 2 ^ 16 bytes short of 2 ^ 32.
  pub blast_requested-Sent :
      (ivs : List Interval) (count : ℕ) (d : Drain)
      → IsValid d.recv
      → length src ≡ total
      → d.recv.total ≡ total
      → Sent src
          (requested ivs total)
          d.recv
          (drain_data d (blast_requested session mtu src total ivs count).0).recv
  unfolding blast_requested drain_data in_ranges
  blast_requested-Sent [] count d v e t = Sent-none src (requested [] total) v (λ i. refl)
  blast_requested-Sent (iv ∷ ivs) count d v e t =
      let last = if ltb total iv.end then total else iv.end in
      elim (Bool-cases (ltb iv.start last)) [
        | inl asked ↦
            let packets = blast_interval session mtu src iv.start last in
            let f =
              blast_interval-Filled session mtu src iv.start last d v (e ∙ sym t)
                (omega (arith, ltb→lt _ _ asked)) (ground arith) m (omega arith) in
            let d' = drain_data d packets in
            rw asked (
              subst (λ (x : Drain). Sent src (requested (iv ∷ ivs) total) d.recv x.recv)
                (sym (drain_data-append d packets _))
                (Sent-step src iv.start last (requested ivs total) (requested (iv ∷ ivs) total) f
                  (blast_requested-Sent ivs ((count + (last - iv.start)) % u32_mod) d' f.valid e
                    (f.total_eq ∙ t))
                  (λ i. ground arith)))
        | inr empty ↦ rw empty (
            Sent-step src iv.start iv.start (requested ivs total) (requested (iv ∷ ivs) total)
              (Filled-refl src iv.start v) (blast_requested-Sent ivs count d v e t)
              (λ i. ground arith))
      ]
