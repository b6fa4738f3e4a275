-- ===== src/Svu/Recovery/Tests.antt =====
-- Transfers of a file of five bytes in blocks of two, in one round and in two.
use sat_build.Prelude.{ℕ, ◌≤◌, ◌≡◌, none, some, List, [], ◌∷◌, arith, All}
use sat_build.Svu.Wire.{req_encode}
use sat_build.Svu.Tracker.{nblocks, verify}
use sat_build.Svu.Tracker.Ranges.{length-le_of_Ascending}
use sat_build.Svu.Serve.{Reply, blast_interval, serve_request}
use sat_build.Svu.Session.Client.{verified, round_request, drain_quiet, client_run}
use sat_build.Svu.Recovery.Losses.{
  blast_interval-IsData, IsData, IsPart, drain_quiet-IsPart, verdict_ranges,
}
use sat_build.Svu.Recovery.Rounds.{opened-IsPart, after_first, client_run-recovers}
use sat_build.Svu.Recovery.Complete.{opened, client_run-verified}

abbrev file : List ℕ
file = 1 ∷ 2 ∷ 3 ∷ 4 ∷ 5 ∷ []

-- Two dead attempts and two late packets follow the reply.
client_run-verified_example :
    (reply : Reply) × (serve_request file 5 2 (req_encode (round_request 1024 4096 0 []))
      ≡ some reply)
    × ((client_run (some 100) 4096 1024 8 none (
          record {
            attempts = some reply.control ∷ none ∷ none ∷ [];
            drains = reply.blasted ∷ ((1 ∷ 2 ∷ []) ∷ []) ∷ [];
          }
          ∷ [])).0
        ≡ verified file file)
unfolding nblocks
client_run-verified_example =
    client_run-verified file 1024 2 4096 100 7 (none ∷ none ∷ []) (((1 ∷ 2 ∷ []) ∷ []) ∷ []) []
      (omega arith) (omega arith) (omega arith) (omega arith) (omega arith) (omega arith)

-- Of the first round's blasts the packet with the last byte is lost.
abbrev arrived : List (List (List ℕ))
arrived = blast_interval 1 10 file 0 4 ∷ []

arrived-IsData : All (All (IsData file)) arrived
arrived-IsData = (blast_interval-IsData 1 10 file 0 4 (omega arith) (omega arith) (omega arith), tt)

arrived-IsPart : IsPart file 2 (drain_quiet (opened file 2) [] arrived).recv
unfolding nblocks
arrived-IsPart =
    drain_quiet-IsPart file 2 (opened file 2) [] arrived
      (opened-IsPart file 2 (omega arith) (omega arith) (omega arith)) arrived-IsData

few_lost : (verify (drain_quiet (opened file 2) [] arrived).recv 32).1.count ≤ 32
few_lost =
    let (wanted, (ranges, (c, all))) = verdict_ranges _ arrived-IsPart.valid in
    omega (arith, c.all, length-le_of_Ascending 0 ranges c.ascending, arrived-IsPart.expects.size)

client_run-recovers_example :
    let c = after_first file 2 1024 4096 arrived in
    (first : Reply) × ((second : Reply) × (serve_request file 5 2
          (req_encode (round_request 1024 4096 0 []))
        ≡ some first)
      × (serve_request file 5 2 (req_encode (round_request 1024 4096 c.nreq c.ivs)) ≡ some second)
      × ((client_run (some 100) 4096 1024 8 none (
            record { attempts = some first.control ∷ []; drains = arrived }
            ∷ record { attempts = some second.control ∷ none ∷ []; drains = second.blasted ∷ [] }
            ∷ [])).0
          ≡ verified file file))
unfolding nblocks
client_run-recovers_example =
    client_run-recovers file 1024 2 4096 100 6 [] (none ∷ []) arrived [] [] (omega arith)
      (omega arith) (omega arith) (omega arith) (omega arith) (omega arith) arrived-IsData few_lost
