-- ===== src/Svu/Recovery/Round.antt =====
-- One request of the client, from its bytes to the packets that it makes the server blast.
use sat_build.Prelude.{
  ℕ, ◌+◌, ◌-◌, ◌≤◌, ◌<◌, ◌≡◌, refl, inl, inr, Bool, some, List, ◌++◌, arith, ltb, ◌==◌,
  if◌then◌else◌, Bool-cases, length, take, replicate, length-append, length-replicate, take-append,
  take_all, u16_mod, u32_mod, All, All-append, All-replicate,
}
use sat_build.Svu.Wire.{Interval, Req, zero_interval, max_intervals, req_encode, req_decode}
use sat_build.Svu.Wire.RoundTrip.{IsWord, IsRequest, req_decode-req_encode}
use sat_build.Svu.Tracker.{Tracker}
use sat_build.Svu.Tracker.Invariant.{IsValid}
use sat_build.Svu.Serve.{Reply, blast_request, answer, serve_request}
use sat_build.Svu.Serve.Requested.{Sent, requested, whole_file-Sent, blast_requested-Sent}
use sat_build.Svu.Session.{drain_data, draining}
use sat_build.Svu.Session.Client.{round_request}

-- The bytes that a request for `ranges` asks for: no range means the whole file.
abbrev pub asked : List Interval → ℕ → ℕ → Bool
asked ranges total = if length ranges == 0 then (λ i. ltb i total) else requested ranges total

-- The client's request for at most `max_intervals` ranges is well formed.
module _ (mtu block_size : ℕ) (ranges : List Interval) (few : length ranges ≤ max_intervals) where
  request_ranges :
      (round_request mtu block_size (length ranges) ranges).intervals
      ≡ ranges ++ replicate (max_intervals - length ranges) zero_interval
  unfolding round_request
  request_ranges = rw (take_all (length ranges) ranges (omega arith))

  round_request-IsRequest :
      mtu < u16_mod
      → block_size < u32_mod
      → All IsWord ranges
      → IsRequest (round_request mtu block_size (length ranges) ranges)
  unfolding round_request
  round_request-IsRequest m b w = record {
    magic_eq = refl;
    session_lt = omega arith;
    mtu_lt = omega arith;
    block_lt = b;
    addr_lt = omega arith;
    nof_le = few;
    array = rw (take_all (length ranges) ranges (omega arith)) (
        omega (
          arith,
          length-append ranges (replicate (max_intervals - length ranges) zero_interval),
          length-replicate (max_intervals - length ranges) zero_interval,
        ));
    words =
        rw (take_all (length ranges) ranges (omega arith))
          (All-append IsWord ranges _ w (All-replicate IsWord _ zero_interval (omega arith)));
  }

  -- The request as the server reads it.
  abbrev decoded : Req
  decoded = record (round_request mtu block_size (length ranges) ranges) {
    intervals =
        take (length ranges) (round_request mtu block_size (length ranges) ranges).intervals
        ++ replicate (max_intervals - length ranges) zero_interval;
  }

  request_decodes :
      mtu < u16_mod
      → block_size < u32_mod
      → All IsWord ranges
      → req_decode (req_encode (round_request mtu block_size (length ranges) ranges)) ≡ some decoded
  unfolding round_request
  request_decodes m b w = req_decode-req_encode _ (round_request-IsRequest m b w)

  decoded_ranges : take (length ranges) decoded.intervals ≡ ranges
  decoded_ranges = rw (request_ranges, take-append ranges _, take-append ranges _)

blast_request-Sent :
    (s : Tracker) (src : List ℕ) (mtu : ℕ) (req : Req) (ranges : List Interval)
    → IsValid s
    → length src ≡ s.total
    → s.total + u16_mod ≤ u32_mod
    → mtu < u16_mod
    → req.nof_intervals ≡ length ranges
    → take (length ranges) req.intervals ≡ ranges
    → Sent src
        (asked ranges s.total)
        s
        (drain_data (draining s) (blast_request req mtu src s.total).0).recv
unfolding blast_request
blast_request-Sent s src mtu req ranges v e w m nof ivs = elim (Bool-cases (length ranges == 0)) [
  | inl whole ↦
      rw (nof, whole) (whole_file-Sent req.session_id mtu src s.total m w (draining s) v e refl)
  | inr some_ranges ↦
      rw (nof, some_ranges, ivs)
        (blast_requested-Sent req.session_id mtu src s.total m w ranges 0 (draining s) v e refl)
]

-- A request for `ranges`, served from the file, delivers what it asks for.
pub serve_round :
    (s : Tracker) (src : List ℕ) (mtu block_size : ℕ) (ranges : List Interval)
    → IsValid s
    → length src ≡ s.total
    → s.total + u16_mod ≤ u32_mod
    → mtu < u16_mod
    → block_size < u32_mod
    → length ranges ≤ max_intervals
    → All IsWord ranges
    → (reply : Reply) × (serve_request src s.total s.block
          (req_encode (round_request mtu block_size (length ranges) ranges))
        ≡ some reply)
      × Sent src (asked ranges s.total) s (drain_data (draining s) reply.blasted).recv
unfolding serve_request answer
serve_round s src mtu block_size ranges v e w m b few words = (
  answer src s.total s.block (decoded mtu block_size ranges few),
  rw (request_decodes mtu block_size ranges few m b words, serve_request),
  blast_request-Sent s src _ (decoded mtu block_size ranges few) ranges v e w
      (unfold round_request in ground arith) (unfold round_request in refl)
      (decoded_ranges mtu block_size ranges few),
)
