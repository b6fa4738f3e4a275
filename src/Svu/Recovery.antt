-- ===== src/Svu/Recovery.antt =====
-- Recovery over a link that loses nothing: what one round leaves for the verdict.
mod Round
mod Blocks
pub mod Complete
pub mod Losses
pub mod Rounds
mod Tests
use sat_build.Prelude.{
  ℕ, ◌+◌, ◌*◌, ◌≤◌, ◌<◌, ◌≡◌, ◌⊎◌, inl, inr, Bool, true, false, ◌&&◌, some, List, [], ◌∷◌, arith,
  ltb, ◌==◌, lt→ltb, Bool-cases, length, take_all, u16_mod, u32_mod, All,
}
use sat_build.Svu.Wire.{Interval, max_intervals, req_encode}
use sat_build.Svu.Wire.RoundTrip.{IsWord}
use sat_build.Svu.Tracker.{Tracker, complete_verified, block_end, block_matches, verify}
use sat_build.Svu.Tracker.Invariant.{IsValid}
use sat_build.Svu.Tracker.Ranges.{in_ranges, Collects, Ascending, length-le_of_Ascending}
use sat_build.Svu.Tracker.Holes.{missing, verify_incomplete}
use sat_build.Svu.Tracker.Damage.{damaged}
use sat_build.Svu.Tracker.Verdict.{verify_covered}
use sat_build.Svu.Tracker.Content.{Expects}
use sat_build.Svu.Serve.{Reply, serve_request}
use sat_build.Svu.Session.{drain_data, draining}
use sat_build.Svu.Session.Client.{round_request}
use Round.{asked, serve_round}
use Blocks.{covered_of_Sent, verified_of_blocks, damaged_in_block, block_end-le}

-- Ranges inside a 32-bit payload are 32-bit intervals.
pub words_of_Ascending :
    (lo : ℕ) (ranges : List Interval) {n : ℕ}
    → n < u32_mod
    → Ascending lo ranges n
    → All IsWord ranges
words_of_Ascending lo [] h a = tt
words_of_Ascending lo (iv ∷ ivs) h a = (
  record {
    start_lt = omega (arith, length-le_of_Ascending iv.end ivs a.2);
    end_lt = omega (arith, length-le_of_Ascending iv.end ivs a.2);
  },
  words_of_Ascending iv.end ivs h a.2,
)

-- The choice of a request for the damaged ranges, block by block.
asked_split :
    (s : Tracker) (ranges : List Interval)
    → ((i : ℕ) → in_ranges i ranges ≡ (ltb i s.total && damaged s i))
    → (b : ℕ)
    → ((i : ℕ) → b * s.block ≤ i → i < block_end s.total s.block b → asked ranges s.total i ≡ true)
      ⊎ ((block_matches s b ≡ true)
          × ((i : ℕ)
              → b * s.block ≤ i
              → i < block_end s.total s.block b
              → asked ranges s.total i ≡ false))
asked_split s ranges exact b = elim (Bool-cases (length ranges == 0)) [
  | inl whole ↦ rw whole (inl (λ i p q. lt→ltb _ _ (omega (arith, block_end-le s.total s.block b))))
  | inr some_ranges ↦ rw some_ranges (elim (Bool-cases (block_matches s b)) [
    | inl good ↦ inr (good, λ i p q. ground (arith, exact i, damaged_in_block s b i p q))
    | inr bad ↦ inl (λ i p q.
        ground (arith, exact i, damaged_in_block s b i p q, block_end-le s.total s.block b))
  ])
]

-- A request asks for every wanted byte.
pub asked_wanted :
    (ranges : List Interval) (total : ℕ) (wanted : ℕ → Bool)
    → ((i : ℕ) → in_ranges i ranges ≡ (ltb i total && wanted i))
    → (i : ℕ) → i < total
    → wanted i ≡ true
    → asked ranges total i ≡ true
asked_wanted ranges total wanted exact i lt h = elim (Bool-cases (length ranges == 0)) [
  | inl whole ↦ rw whole (lt→ltb i total lt)
  | inr some_ranges ↦ rw some_ranges (ground (arith, exact i))
]

-- Once every byte of a valid tracker arrived one round repairs the payload: if the ranges that
-- `ci_svu_verify` reports fit one request, and the file is at least 2 ^ 16 bytes short of 2 ^
-- 32, then serving that request from the file and receiving all that it blasts makes
-- `ci_svu_verify` return COMPLETE_VERIFIED, for every 16-bit packet size.
pub recover_damage :
    (s : Tracker) (src : List ℕ) (mtu block_size : ℕ)
    → IsValid s
    → Expects src s
    → s.total ≤ s.covered_count
    → (verify s max_intervals).1.count ≤ max_intervals
    → s.total + u16_mod ≤ u32_mod
    → mtu < u16_mod
    → block_size < u32_mod
    → let o = (verify s max_intervals).1 in
      (reply : Reply) × (serve_request src s.total s.block
          (req_encode (round_request mtu block_size o.count o.out))
        ≡ some reply)
      × ((verify (drain_data (draining s) reply.blasted).recv max_intervals).0 ≡ complete_verified)
recover_damage s src mtu block_size v x full few w m bs =
    let (status, (ranges, c)) = verify_covered s max_intervals v full in
    let all_fit : length ranges ≤ max_intervals = omega (arith, c.all) in
    let (reply, served, sent) =
      serve_round s src mtu block_size ranges v x.size w m bs all_fit
        (words_of_Ascending 0 ranges v.total_lt c.ascending) in
    rw (c.all, c.written, take_all max_intervals ranges all_fit)
      (
        reply,
        served,
        verified_of_blocks src (asked ranges s.total) s _ v x sent max_intervals full
            (λ b _. asked_split s ranges c.exact b),
      )

-- While bytes of a valid tracker are missing one round closes the coverage: if the missing
-- ranges fit one request, and the file is at least 2 ^ 16 bytes short of 2 ^ 32, then serving
-- that request and receiving all that it blasts leaves no byte uncovered and the tracker valid,
-- for every 16-bit packet size.
pub recover_holes :
    (s : Tracker) (src : List ℕ) (mtu block_size : ℕ)
    → IsValid s
    → length src ≡ s.total
    → s.covered_count < s.total
    → (verify s max_intervals).1.count ≤ max_intervals
    → s.total + u16_mod ≤ u32_mod
    → mtu < u16_mod
    → block_size < u32_mod
    → let o = (verify s max_intervals).1 in
      (reply : Reply) × (serve_request src s.total s.block
          (req_encode (round_request mtu block_size o.count o.out))
        ≡ some reply)
      × (let t = (drain_data (draining s) reply.blasted).recv in
          IsValid t × (t.total ≤ t.covered_count))
recover_holes s src mtu block_size v e holes few w m bs =
    let (status, (ranges, c)) = verify_incomplete s max_intervals v holes in
    let all_fit : length ranges ≤ max_intervals = omega (arith, c.all) in
    let (reply, served, sent) =
      serve_round s src mtu block_size ranges v e w m bs all_fit
        (words_of_Ascending 0 ranges v.total_lt c.ascending) in
    rw (c.all, c.written, take_all max_intervals ranges all_fit)
      (
        reply,
        served,
        (
          sent.valid,
          covered_of_Sent src (asked ranges s.total) s _ v sent
              (λ i lt gone. asked_wanted ranges s.total (missing s.covered) c.exact i lt gone),
        ),
      )
