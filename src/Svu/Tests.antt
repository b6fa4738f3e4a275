-- ===== src/Svu/Tests.antt =====
-- The uploader's theorems at a file of five bytes in blocks of two.
use sat_build.Prelude.{
  ℕ, ◌-◌, ◌^◌, ◌≤◌, ◌<◌, ◌≡◌, refl, ◌↔◌, ◌⊎◌, inl, true, some, List, [], ◌∷◌, ◌++◌, arith, length,
  take, replicate, take_all,
}
use sat_build.Svu.Wire.{Interval, Req, zero_interval, magic_req, req_encode, req_decode}
use sat_build.Svu.Wire.RoundTrip.{IsRequest, req_decode-req_encode}
use sat_build.Svu.Wire.Announce.{announce_encode, announce_decode, announce_decode-announce_encode}
use sat_build.Svu.Tracker.{
  Tracker, cover, cover_byte, complete_verified, nblocks, manifest, block_matches, new, accept,
  verify,
}
use sat_build.Svu.Tracker.Invariant.{IsValid, new-IsValid, accept-IsValid}
use sat_build.Svu.Tracker.Reachable.{Reaches, created, took, Reaches-IsValid}
use sat_build.Svu.Tracker.Ranges.{length-le_of_Ascending}
use sat_build.Svu.Tracker.Verdict.{verify_covered, verified_iff}
use sat_build.Svu.Tracker.Content.{
  Expects, Collides, verified-eq-src, src-verified, length-manifest_from,
}
use sat_build.Svu.Serve.{Reply, answer, serve_request}
use sat_build.Svu.Session.{drain_data, draining}
use sat_build.Svu.Session.Control.{ctrl_exchange}
use sat_build.Svu.Session.Client.{round_request}
use sat_build.Svu.Exchange.{meta_of, ctrl_exchange-serve_request}
use sat_build.Svu.Recovery.{recover_damage}

abbrev file : List ℕ
file = 1 ∷ 2 ∷ 3 ∷ 4 ∷ 5 ∷ []

abbrev one_range : List Interval
one_range = record { start = 1; end = 9 } ∷ []

abbrev request : Req
request = record {
  magic = magic_req;
  session_id = 1;
  mtu = 1024;
  block_size = 4096;
  nof_intervals = 1;
  client_addr = 0;
  intervals = one_range ++ replicate 31 zero_interval;
}

request-IsRequest : IsRequest request
request-IsRequest = record {
  magic_eq = refl;
  session_lt = omega arith;
  mtu_lt = omega arith;
  block_lt = omega arith;
  addr_lt = omega arith;
  nof_le = omega arith;
  array = refl;
  words = omega arith;
}

req_decode-req_encode_example :
    req_decode (req_encode request)
    ≡ some (record request {
      intervals = take 1 (one_range ++ replicate 31 zero_interval) ++ replicate 31 zero_interval;
    })
req_decode-req_encode_example = req_decode-req_encode request request-IsRequest

announce_decode-announce_encode_example :
    announce_decode (announce_encode 1 (0x2f ∷ 0x61 ∷ []) 64) 32 ≡ (1, some (0x2f ∷ 0x61 ∷ []))
announce_decode-announce_encode_example =
    announce_decode-announce_encode 1 (0x2f ∷ 0x61 ∷ []) 64 32 (omega arith) (omega arith)
      (omega arith) (inl (omega arith))

nblocks_five : nblocks 5 2 ≡ 3
unfolding nblocks
nblocks_five = refl

-- A payload of 2 ^ 32 - 1 bytes in blocks of 4096 is refused.
nblocks_wraps : nblocks (2 ^ 32 - 1) 4096 ≡ 0
unfolding nblocks
nblocks_wraps = refl

-- The tracker that `ci_svu_new` returns for the file.
abbrev fresh : Tracker
fresh = record {
  total = 5;
  block = 2;
  nblocks = 3;
  covered_count = 0;
  payload = replicate 5 0;
  covered = replicate 5 0;
  expected = manifest file 5 2;
}

length-manifest : length (manifest file 5 2) ≡ 96
unfolding manifest
length-manifest = rw nblocks_five (length-manifest_from 3 0 file 5 2)

fresh-new : new 5 2 (manifest file 5 2) 3 ≡ some fresh
unfolding new nblocks
fresh-new = rw (take_all 96 (manifest file 5 2) (omega (arith, length-manifest)))

fresh-IsValid : IsValid fresh
fresh-IsValid =
    new-IsValid 5 2 3 (manifest file 5 2) (omega arith) (omega arith)
      (rw nblocks_five length-manifest) fresh-new

fresh-Expects : Expects file fresh
fresh-Expects = record { size = refl; digests = refl }

-- All bytes arrived, the third one wrong.
abbrev broken : Tracker
broken = record fresh {
  covered_count = 5;
  payload = 1 ∷ 2 ∷ 9 ∷ 4 ∷ 5 ∷ [];
  covered = replicate 5 1;
}

broken_accepted : accept fresh 0 (1 ∷ 2 ∷ 9 ∷ 4 ∷ 5 ∷ []) ≡ some broken
unfolding accept cover cover_byte
broken_accepted = refl

broken-Reaches : Reaches broken
broken-Reaches =
    took fresh 0 (1 ∷ 2 ∷ 9 ∷ 4 ∷ 5 ∷ [])
      (created 5 2 3 (manifest file 5 2) (omega arith) (omega arith)
        (rw nblocks_five length-manifest) fresh-new)
      broken_accepted

Reaches-IsValid_example : IsValid broken
Reaches-IsValid_example = Reaches-IsValid broken broken-Reaches

broken-IsValid : IsValid broken
broken-IsValid = accept-IsValid fresh 0 (1 ∷ 2 ∷ 9 ∷ 4 ∷ 5 ∷ []) fresh-IsValid broken_accepted

broken-Expects : Expects file broken
broken-Expects = record { size = refl; digests = refl }

-- All bytes arrived as they were sent.
abbrev whole : Tracker
whole = record broken { payload = file }

whole-IsValid : IsValid whole
whole-IsValid =
    accept-IsValid fresh 0 file fresh-IsValid
      (let e : accept fresh 0 file ≡ some whole = unfold accept cover cover_byte in refl in e)

verified-eq-src_example :
    (whole.payload ≡ file)
    ⊎ ((b : ℕ) × (b < whole.nblocks) × Collides whole.payload file whole.total whole.block b)
verified-eq-src_example =
    verified-eq-src whole file whole-IsValid (record { size = refl; digests = refl }) 32
      (src-verified whole file whole-IsValid (record { size = refl; digests = refl }) 32 refl
        (omega arith))

verified_iff_example :
    ((verify broken 32).0 ≡ complete_verified)
    ↔ ((5 ≤ 5) × ((b : ℕ) → b < 3 → block_matches broken b ≡ true))
verified_iff_example = verified_iff broken 32 broken-IsValid

few_damaged : (verify broken 32).1.count ≤ 32
few_damaged =
    let (ranges, c) = (verify_covered broken 32 broken-IsValid (omega arith)).1 in
    omega (arith, c.all, length-le_of_Ascending 0 ranges c.ascending)

recover_damage_example :
    (reply : Reply) × (serve_request file 5 2
        (req_encode (round_request 1024 2 (verify broken 32).1.count (verify broken 32).1.out))
      ≡ some reply)
    × ((verify (drain_data (draining broken) reply.blasted).recv 32).0 ≡ complete_verified)
recover_damage_example =
    recover_damage broken file 1024 2 broken-IsValid broken-Expects (omega arith) few_damaged
      (omega arith) (omega arith) (omega arith)

served : serve_request file 5 2 (req_encode request) ≡ some (answer file 5 2 request)
unfolding serve_request
served = rw (req_decode-req_encode_example, serve_request) refl

ctrl_exchange-serve_request_example :
    ctrl_exchange (some (answer file 5 2 request).control) ≡ some (meta_of file 5 2)
unfolding nblocks
ctrl_exchange-serve_request_example =
    ctrl_exchange-serve_request file 5 2 (req_encode request) (omega arith) (omega arith)
      (omega arith) served
