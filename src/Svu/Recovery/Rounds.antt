-- ===== src/Svu/Recovery/Rounds.antt =====
-- A transfer of two rounds: `svu_client_run_hooked` of svu_session.c, where the first round loses
-- packets and the second one does not.
use sat_build.Prelude.{
  ℕ, suc, ◌+◌, ◌*◌, ◌≤◌, ◌<◌, ◌≡◌, refl, sym, ap, ap₂, ◌∙◌, inl, inr, true, ◌||◌, Option, none,
  some, List, [], ◌∷◌, ◌++◌, arith, ◌==◌, Bool-cases, length, take, u16_mod, u32_mod, All,
}
use mathlib.Core.Bool.{false≢true}
use sat_build.Svu.Wire.{max_intervals, req_encode}
use sat_build.Svu.Tracker.{
  Tracker, Status, incomplete, complete_verified, corrupt, nblocks, hash_len, verify,
}
use sat_build.Svu.Tracker.Verdict.{covered_of_verified}
use sat_build.Svu.Serve.{Reply, serve_request}
use sat_build.Svu.Session.{drain_data, draining}
use sat_build.Svu.Session.Control.{Meta, man_chunk, ctrl_exchange}
use sat_build.Svu.Session.Client.{
  Link, Client, meta, verified, round_request, open_tracker, next_client, start_client, is_verified,
  drain_quiet, end_round, receive, answered, round, rounds, client_run,
}
use sat_build.Svu.Exchange.{meta_of, get_or-free, ctrl_exchange-serve_request}
use sat_build.Svu.Recovery.Round.{serve_round}
use sat_build.Svu.Recovery.Complete.{
  opened, opened-IsValid, opened-Expects, exchange_first, opens, drains_once,
}
use sat_build.Svu.Recovery.Losses.{
  IsData, IsPart, drain_quiet-IsPart, payload_of_IsPart, round_completes,
}

pub opened-IsPart :
    (src : List ℕ) (block : ℕ)
    → 0 < nblocks (length src) block
    → length src < u32_mod
    → block < u32_mod
    → IsPart src block (opened src block)
opened-IsPart src block n t b = record {
  valid = opened-IsValid src block n t b;
  block_eq = refl;
  expects = opened-Expects src block n;
  right = λ i lt c. absurd (c (get_or-free (length src) i lt));
}

-- The status and the output of the drains are the verdict on what they leave.
drain_quiet-verdict :
    (t : Tracker) (hooked : List (ℕ × List ℕ)) (drains : List (List (List ℕ)))
    → let d = drain_quiet t hooked drains in
      (d.status ≡ (verify d.recv max_intervals).0) × (d.output ≡ (verify d.recv max_intervals).1)
unfolding drain_quiet
drain_quiet-verdict t hooked [] = (refl, refl)
drain_quiet-verdict t hooked (pkts ∷ drains) =
    let d = drain_data (draining t) pkts in
    elim (Bool-cases (is_verified (verify d.recv max_intervals).0 || (d.accepted == 0))) [
      | inl ends ↦ rw ends (refl, refl)
      | inr more ↦ rw more (drain_quiet-verdict d.recv (hooked ++ d.hooked) drains)
    ]

verified_of_status : (s : Status) → is_verified s ≡ true → s ≡ complete_verified
verified_of_status incomplete e = absurd (false≢true e)
verified_of_status complete_verified e = refl
verified_of_status corrupt e = absurd (false≢true e)

-- The client behind the first round of a fresh transfer.
abbrev pub after_first : List ℕ → ℕ → ℕ → ℕ → List (List (List ℕ)) → Client
after_first src block mtu client_block drains =
    next_client (start_client none) (round_request mtu client_block 0 [] ∷ [])
      (meta (length src) block ∷ []) (drain_quiet (opened src block) [] drains)

module _ (src : List ℕ) (mtu block client_block stored : ℕ) where
  -- The first round: the tracker is set up, and the drains are judged.
  round_first :
      (reply : Reply) (attempts : List (Option (List (List ℕ)))) (drains : List (List (List ℕ)))
      → 0 < nblocks (length src) block
      → ctrl_exchange (some reply.control) ≡ some (meta_of src (length src) block)
      → round
          (some stored)
          mtu
          client_block
          (start_client none)
          (record { attempts = some reply.control ∷ attempts; drains = drains })
        ≡ end_round
            (some stored)
            (after_first src block mtu client_block drains)
            (drain_quiet (opened src block) [] drains)
  unfolding round answered receive
  round_first reply attempts drains b met =
      let sends =
        exchange_first 7 (round_request mtu client_block 0 []) (some reply.control) attempts met in
      rw (sends, opens src block b, round, answered, receive, sends) refl

  -- A later round that is answered keeps its tracker, and is verified by what it drains.
  round_again :
      (c : Client) (s : Tracker) {m : Meta} (reply : Reply)
      (attempts : List (Option (List (List ℕ)))) (drains : List (List (List ℕ)))
      → c.recv ≡ some s
      → ctrl_exchange (some reply.control) ≡ some m
      → (drain_data (draining s) reply.blasted).recv.payload ≡ src
      → (verify (drain_data (draining s) reply.blasted).recv max_intervals).0 ≡ complete_verified
      → (n : ℕ) (links : List Link)
      → (rounds (some stored) (suc n) mtu client_block c (
          record { attempts = some reply.control ∷ attempts; drains = reply.blasted ∷ drains }
          ∷ links)).0
        ≡ verified src (take stored src)
  unfolding rounds round answered receive open_tracker end_round
  round_again c s reply attempts drains got met same good n links =
      rw
        (
          exchange_first 7 (round_request mtu client_block c.nreq c.ivs) (some reply.control)
              attempts met,
          got,
          drains_once s reply.blasted drains good,
          same,
          rounds,
          round,
          answered,
          receive,
          open_tracker,
          end_round,
        )
        refl

  -- Its next request is for the ranges of the verdict.
  after_first-request :
      (drains : List (List (List ℕ)))
      → let o = (verify (drain_quiet (opened src block) [] drains).recv max_intervals).1 in
        o.count ≤ max_intervals
        → let c = after_first src block mtu client_block drains in
          (c.nreq ≡ o.count) × (c.ivs ≡ o.out)
  unfolding next_client
  after_first-request drains few =
      let e = (drain_quiet-verdict (opened src block) [] drains).1 in
      (ground (arith, ap (λ o. o.count) e), ap (λ o. o.out) e)

  two_rounds :
      (n : ℕ) (attempts again : List (Option (List (List ℕ)))) (lossy drains : List (List (List ℕ)))
      (links : List Link) (first second : Reply) {m : Meta}
      → let d = drain_quiet (opened src block) [] lossy in
        0 < nblocks (length src) block
        → IsPart src block d.recv
        → ctrl_exchange (some first.control) ≡ some (meta_of src (length src) block)
        → ctrl_exchange (some second.control) ≡ some m
        → (drain_data (draining d.recv) second.blasted).recv.payload ≡ src
        → (verify (drain_data (draining d.recv) second.blasted).recv max_intervals).0
          ≡ complete_verified
        → (client_run (some stored) client_block mtu (suc (suc n)) none (
            record { attempts = some first.control ∷ attempts; drains = lossy }
            ∷ record { attempts = some second.control ∷ again; drains = second.blasted ∷ drains }
            ∷ links)).0
          ≡ verified src (take stored src)
  unfolding client_run rounds end_round next_client
  two_rounds n attempts again lossy drains links first second b part met met_again same good =
      let d = drain_quiet (opened src block) [] lossy in
      let judged = (drain_quiet-verdict (opened src block) [] lossy).0 in
      elim (Bool-cases (is_verified d.status)) [
        | inl ends ↦
            rw (round_first first attempts lossy b met, ends, client_run, rounds, end_round)
              (ap (λ l. verified l (take stored l))
                (payload_of_IsPart src block d.recv part (
                  covered_of_verified d.recv max_intervals part.valid
                    (sym judged ∙ verified_of_status d.status ends))))
        | inr more ↦
            rw (round_first first attempts lossy b met, more, client_run, rounds, end_round)
              (round_again (after_first src block mtu client_block lossy) d.recv second again drains
                refl met_again same good n links)
      ]

  -- What loses only packets of the first round costs one more round: if the file has a block, it
  -- is at least 2 ^ 16 bytes short of 2 ^ 32 and its digests at least 200, the packet size has 16
  -- bits and the block sizes 32, every packet that the first round drains is a data packet with
  -- bytes of the file, in any number and order, and the verdict on them names at most 32 ranges,
  -- then the server replies to the first request and to the one that the client behind that
  -- round builds, and `svu_client_run_hooked`, with an output it can open, at least two rounds
  -- and no prior bytes, returns verified with exactly the file, of which the output has what
  -- `fwrite` stores, when the second round drains the whole second reply, whatever the link does
  -- behind it.
  pub client_run-recovers :
      (n : ℕ) (attempts again : List (Option (List (List ℕ)))) (lossy drains : List (List (List ℕ)))
      (links : List Link)
      → 0 < nblocks (length src) block
      → length src + u16_mod ≤ u32_mod
      → nblocks (length src) block * hash_len + man_chunk ≤ u32_mod
      → block < u32_mod
      → mtu < u16_mod
      → client_block < u32_mod
      → All (All (IsData src)) lossy
      → (verify (drain_quiet (opened src block) [] lossy).recv max_intervals).1.count
        ≤ max_intervals
      → let c = after_first src block mtu client_block lossy in
        (first : Reply) × ((second : Reply) × (serve_request src
              (length src)
              block
              (req_encode (round_request mtu client_block 0 []))
            ≡ some first)
          × (serve_request src
                (length src)
                block
                (req_encode (round_request mtu client_block c.nreq c.ivs))
              ≡ some second)
          × ((client_run (some stored) client_block mtu (suc (suc n)) none (
                record { attempts = some first.control ∷ attempts; drains = lossy }
                ∷ record {
                  attempts = some second.control ∷ again;
                  drains = second.blasted ∷ drains;
                }
                ∷ links)).0
              ≡ verified src (take stored src)))
  client_run-recovers n attempts again lossy drains links some_blocks w m b h k true_data few =
      let start = opened-IsPart src block some_blocks (omega (arith, w)) b in
      let d = drain_quiet (opened src block) [] lossy in
      let part = drain_quiet-IsPart src block (opened src block) [] lossy start true_data in
      let (first, served, sent) =
        serve_round (opened src block) src mtu client_block [] start.valid refl w h k (omega arith)
          tt in
      let (second, served_again, (same, good)) =
        round_completes src block d.recv mtu client_block part few
          (omega (arith, w, part.expects.size)) h k in
      let asks = after_first-request lossy few in
      let reply_again =
        ap₂
          (λ total size. serve_request src total size (
            req_encode (
              round_request mtu client_block (after_first src block mtu client_block lossy).nreq
                (after_first src block mtu client_block lossy).ivs)))
          part.expects.size (sym part.block_eq)
        ∙ ap₂
            (λ nreq ivs.
              serve_request src d.recv.total d.recv.block
                (req_encode (round_request mtu client_block nreq ivs)))
            asks.0 asks.1
        ∙ served_again in
      let met =
        ctrl_exchange-serve_request src (length src) block _ (omega (arith, w)) b m served in
      let met_again =
        ctrl_exchange-serve_request src (length src) block _ (omega (arith, w)) b m reply_again in
      (
        first,
        (
          second,
          served,
          reply_again,
          two_rounds n attempts again lossy drains links first second some_blocks part met met_again
              same good,
        ),
      )
