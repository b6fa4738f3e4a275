-- ===== src/Svu/Recovery/Losses.antt =====
-- A transfer over a link that loses packets of the first round: what a receiver that has only true
-- bytes of the file gets in the second one.
use sat_build.Prelude.{
  ℕ, zero, suc, ◌+◌, ◌-◌, ◌≤◌, ◌<◌, ◌≡◌, refl, sym, ap₂, ◌∙◌, ◌≢◌, ◌⊎◌, inl, inr, Bool, true, ◌&&◌,
  ◌||◌, some, List, [], ◌∷◌, ◌++◌, arith, ltb, leb, ◌==◌, ltb→lt, ltb→le, ==_iff, Bool-cases,
  length, get_or, take_all, eq_of_get_or, u16_mod, u32_mod, All,
}
use mathlib.Core.Bool.{false≢true}
use sat_build.Svu.Wire.{Interval, max_intervals, req_encode}
use sat_build.Svu.Tracker.{Tracker, complete_verified, manifest, verify}
use sat_build.Svu.Tracker.Invariant.{IsValid, get_or-ne-zero_of_ones, ones-le}
use sat_build.Svu.Tracker.Content.{Expects, src-verified}
use sat_build.Svu.Tracker.Delivery.{Filled}
use sat_build.Svu.Tracker.Ranges.{Collects}
use sat_build.Svu.Tracker.Holes.{missing, verify_incomplete}
use sat_build.Svu.Tracker.Verdict.{verify_covered}
use sat_build.Svu.Tracker.Damage.{damaged}
use sat_build.Svu.Serve.{
  Reply, advance, chunk_len, payload_len, blast, blast_interval, serve_request,
}
use sat_build.Svu.Serve.Blast.{data_packet, chunk_len_lem, drain_packet-Filled}
use sat_build.Svu.Serve.Requested.{Sent}
use sat_build.Svu.Session.{Drain, drain_packet, drain_data, draining}
use sat_build.Svu.Session.Client.{round_request, drain_quiet, is_verified}
use sat_build.Svu.Recovery.{asked_wanted, words_of_Ascending}
use sat_build.Svu.Recovery.Round.{asked, serve_round}
use sat_build.Svu.Recovery.Blocks.{covered_of_Sent, Sent-Expects}

-- A data packet with bytes of the file at the place that its header names.
pub record IsData (src : List ℕ) (pkt : List ℕ) : Type 0 where
  pub session : ℕ
  pub off : ℕ
  pub len : ℕ
  pub inside : off + len ≤ length src
  pub pos : 0 < len
  pub short : 8 + len < u16_mod
  pub eq : pkt ≡ data_packet session src off len

-- What the server blasts for an interval of the file is such packets.
blast-IsData :
    (fuel session pay : ℕ) (src : List ℕ) (off end : ℕ)
    → 0 < pay
    → 8 + pay < u16_mod
    → end ≤ length src
    → end + pay ≤ u32_mod
    → All (IsData src) (blast fuel session pay src off end)
unfolding blast
blast-IsData zero session pay src off end p r e w = tt
blast-IsData (suc fuel) session pay src off end p r e w = elim (Bool-cases (ltb off end)) [
  | inr done ↦ rw done tt
  | inl more ↦
      let (adv, some_bytes, small, sum) = chunk_len_lem off pay end (ltb→lt _ _ more) p w in
      rw more (
        record {
          session = session;
          off = off;
          len = chunk_len off pay end;
          inside = omega (arith, sum, e);
          pos = some_bytes;
          short = omega (arith, small, r);
          eq = refl;
        },
        blast-IsData fuel session pay src (advance off pay) end p r e w,
      )
]

pub blast_interval-IsData :
    (session mtu : ℕ) (src : List ℕ) (start end : ℕ)
    → end ≤ length src
    → mtu < u16_mod
    → end + u16_mod ≤ u32_mod
    → All (IsData src) (blast_interval session mtu src start end)
unfolding blast_interval
blast_interval-IsData session mtu src start end e m w =
    blast-IsData (end - start) session (payload_len mtu) src start end (ground arith) (ground arith)
      e (ground arith)

-- A valid tracker for the file in blocks of that size, of which every covered byte is the file's.
pub record IsPart (src : List ℕ) (block : ℕ) (s : Tracker) : Type 0 where
  pub valid : IsValid s
  pub block_eq : s.block ≡ block
  pub expects : Expects src s
  pub right :
      (i : ℕ) → i < s.total → get_or s.covered i 1 ≢ 0 → get_or s.payload i 0 ≡ get_or src i 0

covered_of_full :
    (s : Tracker)
    → IsValid s
    → s.total ≤ s.covered_count
    → (i : ℕ) → i < s.total
    → get_or s.covered i 1 ≢ 0
covered_of_full s v full i lt =
    get_or-ne-zero_of_ones s.covered i (omega (arith, v.counted, v.covered_size, ones-le s.covered))
      (omega (arith, v.covered_size))

-- The ranges behind a verdict hold all bytes that are missing.
pub verdict_ranges :
    (s : Tracker)
    → IsValid s
    → (wanted : ℕ → Bool) × ((ranges : List Interval) × (Collects max_intervals wanted s.total
            (verify s max_intervals).1
            ranges
          × ((i : ℕ) → i < s.total → missing s.covered i ≡ true → wanted i ≡ true)))
verdict_ranges s v = elim (Bool-cases (ltb s.covered_count s.total)) [
  | inl holes ↦
      let (ranges, c) = (verify_incomplete s max_intervals v (ltb→lt _ _ holes)).1 in
      (missing s.covered, (ranges, (c, λ i lt e. e)))
  | inr full ↦
      let (ranges, c) = (verify_covered s max_intervals v (ltb→le _ _ full)).1 in
      (
        damaged s,
        (
          ranges,
          (c, λ i lt e. absurd (covered_of_full s v (ltb→le _ _ full) i lt ((==_iff _ _).0 e))),
        ),
      )
]

module _ (src : List ℕ) (block : ℕ) where
  Filled-IsPart :
      (lo hi : ℕ) (s t : Tracker) → IsPart src block s → Filled src lo hi s t → IsPart src block t
  Filled-IsPart lo hi s t h f = record {
    valid = f.valid;
    block_eq = f.block_eq ∙ h.block_eq;
    expects = record {
      size = h.expects.size ∙ sym f.total_eq;
      digests =
          f.expected_eq ∙ h.expects.digests ∙ ap₂ (manifest src) (sym f.total_eq) (sym f.block_eq);
    };
    right = λ i lt c. elim (Bool-cases (leb lo i && ltb i hi)) [
      | inl now ↦ f.content i (ground arith) (ground arith)
      | inr before ↦
          let out : (i < lo) ⊎ (hi ≤ i) = ground arith in
          f.still_there i out
          ∙ h.right i (omega (arith, f.total_eq)) (λ z. c (f.still_covered i out ∙ z))
    ];
  }

  drain_packet-IsPart :
      (d : Drain) (pkt : List ℕ)
      → IsPart src block d.recv
      → IsData src pkt
      → IsPart src block (drain_packet d pkt).recv
  drain_packet-IsPart d pkt h p =
      let f =
        drain_packet-Filled d p.session src p.off p.len h.valid h.expects.size
          (omega (arith, p.inside, h.expects.size)) p.pos p.short in
      rw p.eq (Filled-IsPart p.off (p.off + p.len) d.recv _ h f)

  drain_data-IsPart :
      (d : Drain) (pkts : List (List ℕ))
      → IsPart src block d.recv
      → All (IsData src) pkts
      → IsPart src block (drain_data d pkts).recv
  unfolding drain_data
  drain_data-IsPart d [] h a = h
  drain_data-IsPart d (pkt ∷ pkts) h a =
      drain_data-IsPart (drain_packet d pkt) pkts (drain_packet-IsPart d pkt h a.0) a.1

  pub drain_quiet-IsPart :
      (t : Tracker) (hooked : List (ℕ × List ℕ)) (drains : List (List (List ℕ)))
      → IsPart src block t
      → All (All (IsData src)) drains
      → IsPart src block (drain_quiet t hooked drains).recv
  unfolding drain_quiet
  drain_quiet-IsPart t hooked [] h a = h
  drain_quiet-IsPart t hooked (pkts ∷ drains) h a =
      let d = drain_data (draining t) pkts in
      let h' = drain_data-IsPart (draining t) pkts h a.0 in
      elim (Bool-cases (is_verified (verify d.recv max_intervals).0 || (d.accepted == 0))) [
        | inl ends ↦ rw ends h'
        | inr more ↦ rw more (drain_quiet-IsPart d.recv (hooked ++ d.hooked) drains h' a.1)
      ]

  -- With every byte covered it has the file.
  pub payload_of_IsPart :
      (s : Tracker) → IsPart src block s → s.total ≤ s.covered_count → s.payload ≡ src
  payload_of_IsPart s h full =
      eq_of_get_or s.payload src 0 (h.valid.payload_size ∙ sym h.expects.size) λ i lt.
        let inside : i < s.total = omega (arith, h.valid.payload_size) in
        h.right i inside (covered_of_full s h.valid full i inside)

  -- If the request holds all missing bytes, its answer completes the file.
  completes :
      (chosen : ℕ → Bool) (s t : Tracker)
      → IsPart src block s
      → Sent src chosen s t
      → ((i : ℕ) → i < s.total → missing s.covered i ≡ true → chosen i ≡ true)
      → (t.payload ≡ src) × ((verify t max_intervals).0 ≡ complete_verified)
  completes chosen s t h f all =
      let same : t.payload ≡ src = eq_of_get_or t.payload src 0 size byte in
      (
        same,
        src-verified t src f.valid (Sent-Expects src chosen s t h.valid h.expects f) max_intervals
            same (covered_of_Sent src chosen s t h.valid f all),
      )
    where
      size : length t.payload ≡ length src
      size = f.valid.payload_size ∙ f.total_eq ∙ sym h.expects.size

      byte : (i : ℕ) → i < length t.payload → get_or t.payload i 0 ≡ get_or src i 0
      byte i lt = elim (Bool-cases (chosen i)) [
        | inl now ↦ f.content i now
        | inr before ↦
            let inside : i < s.total = omega (arith, size, h.expects.size) in
            f.still_there i before
            ∙ h.right i inside (λ z. false≢true (sym before ∙ all i inside ((==_iff _ _).1 z)))
      ]

  -- The request for the ranges of its verdict completes it in one round without losses.
  pub round_completes :
      (s : Tracker) (mtu block_size : ℕ)
      → IsPart src block s
      → (verify s max_intervals).1.count ≤ max_intervals
      → s.total + u16_mod ≤ u32_mod
      → mtu < u16_mod
      → block_size < u32_mod
      → let o = (verify s max_intervals).1 in
        (reply : Reply) × (serve_request src s.total s.block
            (req_encode (round_request mtu block_size o.count o.out))
          ≡ some reply)
        × (let t = (drain_data (draining s) reply.blasted).recv in
            (t.payload ≡ src) × ((verify t max_intervals).0 ≡ complete_verified))
  round_completes s mtu block_size h few w m b =
      let (wanted, (ranges, (c, all))) = verdict_ranges s h.valid in
      let all_fit : length ranges ≤ max_intervals = omega (arith, c.all) in
      let (reply, served, sent) =
        serve_round s src mtu block_size ranges h.valid h.expects.size w m b all_fit
          (words_of_Ascending 0 ranges h.valid.total_lt c.ascending) in
      rw (c.all, c.written, take_all max_intervals ranges all_fit)
        (
          reply,
          served,
          completes (asked ranges s.total) s _ h sent
              (λ i lt gone. asked_wanted ranges s.total wanted c.exact i lt (all i lt gone)),
        )
