-- ===== src/Svu/Recovery/Complete.antt =====
-- A whole transfer over a link that loses nothing: `svu_client_run_hooked` of svu_session.c against
-- one request that svu_serve.c answers.
use sat_build.Prelude.{
  ℕ, suc, ◌+◌, ◌*◌, ◌≤◌, ◌<◌, ◌≡◌, refl, ◌∙◌, Bool, true, Option, none, some, List, [], ◌∷◌, arith,
  lt→ltb, length, take, take_all, eq_of_get_or, u16_mod, u32_mod,
}
use sat_build.Svu.Wire.{Req, max_intervals, req_encode}
use sat_build.Svu.Tracker.{
  Tracker, complete_verified, nblocks, hash_len, manifest, initial, new, verify,
}
use sat_build.Svu.Tracker.Invariant.{IsValid, new-IsValid}
use sat_build.Svu.Tracker.Content.{Expects, src-verified, length-manifest_from}
use sat_build.Svu.Serve.{Reply, serve_request}
use sat_build.Svu.Serve.Requested.{Sent}
use sat_build.Svu.Session.{drain_data, draining}
use sat_build.Svu.Session.Control.{Meta, man_chunk, ctrl_exchange}
use sat_build.Svu.Session.Client.{
  Link, meta, verified, round_request, try_exchange, seed_tracker, first_tracker, drain_quiet,
  open_tracker, end_round, receive, answered, round, rounds, client_run,
}
use sat_build.Svu.Exchange.{meta_of, ctrl_exchange-serve_request}
use sat_build.Svu.Recovery.Round.{serve_round}
use sat_build.Svu.Recovery.Blocks.{covered_of_Sent, Sent-Expects}

-- The tracker that the client sets up for the manifest of a file.
abbrev pub opened : List ℕ → ℕ → Tracker
opened src block = initial (length src) block (manifest src (length src) block)

module _ (src : List ℕ) (block : ℕ) (some_blocks : 0 < nblocks (length src) block) where
  new-opened :
      new (length src) block (manifest src (length src) block) (nblocks (length src) block)
      ≡ some (opened src block)
  unfolding new
  new-opened = ground arith

  length-manifest : length (manifest src (length src) block) ≡ nblocks (length src) block * hash_len
  unfolding manifest
  length-manifest = length-manifest_from _ 0 src (length src) block

  pub opened-IsValid : length src < u32_mod → block < u32_mod → IsValid (opened src block)
  opened-IsValid t b = new-IsValid _ _ _ _ t b length-manifest new-opened

  pub opened-Expects : Expects src (opened src block)
  opened-Expects = record { size = refl; digests = take_all _ _ (omega (arith, length-manifest)) }

  -- What the whole file leaves in it.
  whole_file-verified :
      (chosen : ℕ → Bool) (t : Tracker)
      → IsValid (opened src block)
      → Sent src chosen (opened src block) t
      → ((i : ℕ) → i < length src → chosen i ≡ true)
      → (t.payload ≡ src) × ((verify t max_intervals).0 ≡ complete_verified)
  whole_file-verified chosen t v f all =
      let same : t.payload ≡ src =
        eq_of_get_or t.payload src 0 (f.valid.payload_size ∙ f.total_eq)
          (λ i p. f.content i (all i (omega (arith, f.valid.payload_size, f.total_eq)))) in
      (
        same,
        src-verified t src f.valid (Sent-Expects src chosen (opened src block) t v opened-Expects f)
            max_intervals same
            (covered_of_Sent src chosen (opened src block) t v f (λ i lt gone. all i lt)),
      )

pub exchange_first :
    (n : ℕ) (req : Req) (answer : Option (List (List ℕ))) (attempts : List (Option (List (List ℕ))))
    {m : Meta}
    → ctrl_exchange answer ≡ some m
    → try_exchange (suc n) req (answer ∷ attempts) ≡ (req ∷ [], some m)
unfolding try_exchange
exchange_first n req answer attempts met = rw (met, try_exchange) refl

pub opens :
    (src : List ℕ) (block : ℕ)
    → 0 < nblocks (length src) block
    → open_tracker none none (meta_of src (length src) block)
      ≡ (some (opened src block), meta (length src) block ∷ [])
unfolding open_tracker first_tracker seed_tracker
opens src block b = rw (new-opened src block b, open_tracker, first_tracker) refl

-- The first drain ends the round when it leaves a verified payload.
pub drains_once :
    (t : Tracker) (pkts : List (List ℕ)) (drains : List (List (List ℕ)))
    → let d = drain_data (draining t) pkts in
      (verify d.recv max_intervals).0 ≡ complete_verified
      → drain_quiet t [] (pkts ∷ drains) ≡ record {
        recv = d.recv;
        status = complete_verified;
        output = (verify d.recv max_intervals).1;
        hooked = d.hooked;
      }
unfolding drain_quiet
drains_once t pkts drains good = rw good refl

-- The round that ends the transfer: the manifest and the payload arrive, the verdict holds.
run_verified :
    (src : List ℕ) (mtu block client_block stored n : ℕ) (reply : Reply)
    (attempts : List (Option (List (List ℕ)))) (drains : List (List (List ℕ))) (links : List Link)
    → 0 < nblocks (length src) block
    → ctrl_exchange (some reply.control) ≡ some (meta_of src (length src) block)
    → (drain_data (draining (opened src block)) reply.blasted).recv.payload ≡ src
    → (verify (drain_data (draining (opened src block)) reply.blasted).recv max_intervals).0
      ≡ complete_verified
    → (client_run (some stored) client_block mtu (suc n) none (
        record { attempts = some reply.control ∷ attempts; drains = reply.blasted ∷ drains }
        ∷ links)).0
      ≡ verified src (take stored src)
unfolding client_run rounds round answered receive end_round
run_verified src mtu block client_block stored n reply attempts drains links b met same good =
    let req = round_request mtu client_block 0 [] in
    rw
      (
        exchange_first 7 req (some reply.control) attempts met,
        opens src block b,
        drains_once (opened src block) reply.blasted drains good,
        same,
        client_run,
        rounds,
        round,
        answered,
        receive,
        end_round,
      )
      refl

-- Over a link that loses nothing a fresh transfer ends in its first round with the file: if the
-- file has a block, it is at least 2 ^ 16 bytes short of 2 ^ 32 and its digests at least 200,
-- the packet size has 16 bits and the block sizes 32, then the server replies to the client's
-- first request, and `svu_client_run_hooked`, with an output it can open, at least one round
-- and no prior bytes, returns verified with exactly the file, of which the output has what
-- `fwrite` stores, when the first attempt and the first drain yield that reply, whatever the link
-- does behind them.
pub client_run-verified :
    (src : List ℕ) (mtu block client_block stored n : ℕ) (attempts : List (Option (List (List ℕ))))
    (drains : List (List (List ℕ))) (links : List Link)
    → 0 < nblocks (length src) block
    → length src + u16_mod ≤ u32_mod
    → nblocks (length src) block * hash_len + man_chunk ≤ u32_mod
    → block < u32_mod
    → mtu < u16_mod
    → client_block < u32_mod
    → (reply : Reply) × (serve_request src
          (length src)
          block
          (req_encode (round_request mtu client_block 0 []))
        ≡ some reply)
      × ((client_run (some stored) client_block mtu (suc n) none (
            record { attempts = some reply.control ∷ attempts; drains = reply.blasted ∷ drains }
            ∷ links)).0
          ≡ verified src (take stored src))
client_run-verified src mtu block client_block stored n attempts drains links some_blocks w m b h
      c =
    let s = opened src block in
    let v = opened-IsValid src block some_blocks (omega (arith, w)) b in
    let (reply, served, sent) =
      serve_round s src mtu client_block [] v refl w h c (omega arith) tt in
    let (same, good) =
      whole_file-verified src block some_blocks _ _ v sent (λ i lt. lt→ltb i (length src) lt) in
    let met =
      ctrl_exchange-serve_request src (length src) block
        (req_encode (round_request mtu client_block 0 [])) (omega (arith, w)) b m served in
    (
      reply,
      served,
      run_verified src mtu block client_block stored n reply attempts drains links some_blocks met
          same good,
    )
