-- ===== src/Svu/Exchange.antt =====
-- The control connection from `send_manifest` of svu_serve.c to `ctrl_exchange` of svu_session.c.
use sat_build.Prelude.{
  ℕ, zero, suc, ◌+◌, ◌-◌, ◌*◌, ◌/◌, ◌%◌, ◌≤◌, ◌<◌, min, ◌≡◌, refl, sym, ap, ◌∙◌, inl, inr, true,
  false, some, List, [], ◌∷◌, ◌++◌, arith, ltb, ltb→lt, lt→ltb, le→ltb, ltb→le, Bool-cases,
  Option-cases, none≢some, length, get_or, drop, replicate, write_at, slice, length-set,
  length-replicate, length-write_at, take_all, get_or-set, get_or-write_at_in, get_or-write_at_out,
  get_or-slice, eq_of_get_or, u16_mod, u32_mod,
}
use mathlib.Core.Path.{subst}
use mathlib.Core.Option.{some-injective}
use native.Mathlib.Nat.{mod-eq_of_lt}
use sat_build.Svu.Wire.{req_decode, Req, put32, get32, magic_resp}
use sat_build.Svu.Wire.RoundTrip.{get32-put32}
use sat_build.Svu.Tracker.{hash_len, nblocks, manifest}
use sat_build.Svu.Tracker.Content.{length-manifest_from}
use sat_build.Svu.Serve.{Reply, packet, advance, chunk_len, send_manifest, answer, serve_request}
use sat_build.Svu.Serve.Blast.{length-slice, chunk_len_lem}
use sat_build.Svu.Session.Control.{
  Meta, Assembly, man_chunk, chunk_fits, take_chunk, assemble, no_chunks, ctrl_exchange,
}

-- The first `j` chunks of `m` have arrived, in order, and no other.
record Assembling (m : List ℕ) (j : ℕ) (a : Assembly) : Type 0 where
  pub size : length a.manifest ≡ length m
  pub room : (i : ℕ) → i * man_chunk < length m → i < length a.have
  pub fresh : (i : ℕ) → j ≤ i → i * man_chunk < length m → get_or a.have i 1 ≡ 0
  pub copied :
      (i : ℕ) → i < length a.manifest → i < j * man_chunk → get_or a.manifest i 0 ≡ get_or m i 0
  pub count : a.got ≡ min (j * man_chunk) (length m)

-- A chunk that `send_manifest` sends, with the bytes that the packet holds.
abbrev chunk : List ℕ → ℕ → ℕ → List ℕ
chunk m off n = packet (4 + n) (put32 off ++ slice off n m)

chunk_whole :
    (m : List ℕ) (off n : ℕ)
    → off + n ≤ length m
    → n ≤ man_chunk
    → chunk m off n ≡ put32 off ++ slice off n m
chunk_whole m off n h p =
    rw (mod-eq_of_lt (let l : 4 + n < u16_mod = omega (arith, p) in l))
      (take_all (4 + n) _ (omega (arith, length-slice m off n h)))

chunk_fits_lem :
    (m : List ℕ) (j n : ℕ)
    → j * man_chunk + n ≤ length m
    → 0 < n
    → length m < u32_mod
    → chunk_fits (length m) (put32 (j * man_chunk) ++ slice (j * man_chunk) n m) ≡ true
unfolding chunk_fits
chunk_fits_lem m j n h pos w =
    rw (get32-put32 (j * man_chunk) (slice (j * man_chunk) n m) (omega arith))
      (ground (arith, length-slice m (j * man_chunk) n h))

-- The bytes of the manifest behind the copy of a chunk.
chunk_copied :
    (m : List ℕ) (a : Assembly) (off n : ℕ)
    → length a.manifest ≡ length m
    → off + n ≤ length a.manifest
    → length (slice off n m) ≡ n
    → ((i : ℕ) → i < length a.manifest → i < off → get_or a.manifest i 0 ≡ get_or m i 0)
    → (i : ℕ) → i < off + n
    → get_or (write_at a.manifest off (slice off n m)) i 0 ≡ get_or m i 0
chunk_copied m a off n size h len before i l = elim (Bool-cases (ltb i off)) [
  | inl old ↦
      get_or-write_at_out a.manifest off (slice off n m) i 0 (inl (ltb→lt _ _ old))
      ∙ before i (omega (arith, ltb→lt _ _ old)) (ltb→lt _ _ old)
  | inr new ↦
      let p : off ≤ i = ltb→le _ _ new in
      get_or-write_at_in a.manifest off (slice off n m) i 0 (omega (arith, len)) p
        (omega (arith, len))
      ∙ get_or-slice off n m (i - off) 0 (omega arith)
      ∙ ap (λ k. get_or m k 0) (omega arith)
]

-- The next chunk is taken.
chunk-Assembling :
    (m : List ℕ) (j n : ℕ) (a : Assembly)
    → Assembling m j a
    → j * man_chunk < length m
    → j * man_chunk + n ≡ min (j * man_chunk + man_chunk) (length m)
    → length m < u32_mod
    → Assembling m (suc j) (take_chunk (length m) a (chunk m (j * man_chunk) n))
unfolding take_chunk
chunk-Assembling m j n a p lt sum w =
    let off = j * man_chunk in
    let pkt = put32 off ++ slice off n m in
    let whole : chunk m off n ≡ pkt = chunk_whole m off n (omega arith) (omega arith) in
    let fits = chunk_fits_lem m j n (omega arith) (omega arith) w in
    let at : get32 pkt ≡ off = get32-put32 off (slice off n m) (omega arith) in
    let ix : off / man_chunk ≡ j = omega arith in
    let slot = p.room j lt in
    let new_slot = p.fresh j (omega arith) lt in
    let len = length-slice m off n (omega arith) in
    rw (whole, fits, at, ix, new_slot)
      (record {
        size = length-write_at a.manifest off (slice off n m) ∙ p.size;
        room = λ i q. omega (arith, length-set a.have j 1, p.room i q);
        fresh = λ i l q. ground (arith, get_or-set a.have j i 1 1 slot, p.fresh i (omega arith) q);
        copied = λ i q l.
            chunk_copied m a off n p.size (omega (arith, p.size)) len p.copied i
              (omega (arith, length-write_at a.manifest off (slice off n m), p.size));
        count = omega (arith, p.count, len);
      })

send_manifest_past_end :
    (fuel : ℕ) (m : List ℕ) (off : ℕ) → length m ≤ off → send_manifest fuel m (length m) off ≡ []
unfolding send_manifest
send_manifest_past_end zero m off h = refl
send_manifest_past_end (suc fuel) m off h = rw (le→ltb off (length m) h)

-- A manifest that is complete is returned, whatever follows.
assemble_complete :
    (m : List ℕ) (j : ℕ) (a : Assembly)
    → Assembling m j a
    → length m ≤ j * man_chunk
    → (mps : List (List ℕ)) → assemble (length m) a mps ≡ some m
unfolding assemble
assemble_complete m j a p h mps =
    let all : a.manifest ≡ m =
      eq_of_get_or a.manifest m 0 p.size (λ i q. p.copied i q (omega (arith, p.size))) in
    let full : ltb a.got (length m) ≡ false = le→ltb a.got (length m) (omega (arith, p.count)) in
    elim mps as (λ l. assemble (length m) a l ≡ some m) [
      | [] ↦ rw full (ap some all)
      | mp ∷ rest ↦ rw full (ap some all)
    ]

-- From the chunk `j` on.
assemble-send_manifest :
    (fuel : ℕ) (m : List ℕ) (j : ℕ) (a : Assembly)
    → Assembling m j a
    → length m + man_chunk ≤ u32_mod
    → length m - j * man_chunk ≤ fuel
    → assemble (length m) a (send_manifest fuel m (length m) (j * man_chunk)) ≡ some m
unfolding assemble send_manifest
assemble-send_manifest zero m j a p w f = assemble_complete m j a p (omega arith) []
assemble-send_manifest (suc fuel) m j a p w f = elim (Bool-cases (ltb (j * man_chunk) (length m))) [
  | inr done ↦
      assemble_complete m j a p (ltb→le _ _ done)
        (send_manifest (suc fuel) m (length m) (j * man_chunk))
  | inl more ↦
      let off = j * man_chunk in
      let lt = ltb→lt _ _ more in
      let n = chunk_len off man_chunk (length m) in
      let (adv, pos, small, sum) = chunk_len_lem off man_chunk (length m) lt (omega arith) w in
      let next = chunk-Assembling m j n a p lt sum (omega arith) in
      let on : advance off man_chunk ≡ suc j * man_chunk = omega (arith, adv) in
      let got : ltb a.got (length m) ≡ true = lt→ltb a.got (length m) (omega (arith, p.count)) in
      let a' = take_chunk (length m) a (chunk m off n) in
      let rest = assemble-send_manifest fuel m (suc j) a' next w (omega arith) in
      rw (more, got)
        (subst (λ o. assemble (length m) a' (send_manifest fuel m (length m) o) ≡ some m) (sym on)
          rest)
]

pub get_or-free : (n i : ℕ) → i < n → get_or (replicate {A = ℕ} n 0) i 1 ≡ 0
get_or-free zero i h = absurd (omega arith)
get_or-free (suc n) zero h = refl
get_or-free (suc n) (suc i) h = get_or-free n i (omega arith)

-- Before the first chunk.
no_chunks-Assembling :
    (m : List ℕ) → length m + man_chunk ≤ u32_mod → Assembling m 0 (no_chunks (length m))
no_chunks-Assembling m w =
    let slots : ℕ = (length m + man_chunk - 1) % u32_mod / man_chunk in
    record {
      size = length-replicate {A = ℕ} (length m) 0;
      room = λ i q. omega (arith, length-replicate {A = ℕ} slots 0);
      fresh = λ i l q. get_or-free slots i (omega arith);
      copied = λ i q l. absurd (omega arith);
      count = omega arith;
    }

-- What the client learns of a file.
abbrev pub meta_of : List ℕ → ℕ → ℕ → Meta
meta_of src total block = record {
  total = total;
  block = block;
  nblocks = nblocks total block;
  manifest = manifest src total block;
}

ctrl_exchange-answer :
    (src : List ℕ) (total block : ℕ) (req : Req)
    → total < u32_mod
    → block < u32_mod
    → nblocks total block * hash_len + man_chunk ≤ u32_mod
    → ctrl_exchange (some (answer src total block req).control) ≡ some (meta_of src total block)
unfolding ctrl_exchange answer manifest
ctrl_exchange-answer src total block req t b w =
    let n = nblocks total block in
    let m = manifest src total block in
    let size : length m ≡ n * hash_len = length-manifest_from n 0 src total block in
    let whole : assemble (n * hash_len % u32_mod) (no_chunks (n * hash_len % u32_mod))
          (send_manifest (n * hash_len % u32_mod) m (n * hash_len % u32_mod) 0)
        ≡ some m =
      rw (mod-eq_of_lt (let l : n * hash_len < u32_mod = omega arith in l), ← size)
        (assemble-send_manifest (length m) m 0 (no_chunks (length m))
          (no_chunks-Assembling m (omega (arith, size))) (omega (arith, size)) (omega arith)) in
    let head : List ℕ =
      put32 magic_resp ++ (put32 req.session_id ++ (put32 total ++ (put32 block ++ put32 n))) in
    let magic : get32 head ≡ magic_resp = get32-put32 magic_resp _ (omega arith) in
    let read_total : get32 (drop 8 head) ≡ total = get32-put32 total (put32 block ++ put32 n) t in
    let read_block : get32 (drop 12 head) ≡ block = get32-put32 block (put32 n) b in
    let read_n : get32 (drop 16 head) ≡ n = get32-put32 n [] (omega arith) in
    rw (magic, read_n, whole, read_total, read_block, read_n) refl

-- Whatever the packet of a request is, if the server replies to it, and the packets of the reply
-- on the control connection arrive whole and in order, the client reads the file's size, the
-- block size, the number of blocks and the digests of all blocks, if size and block size are
-- 32-bit words and the digests are at least 200 bytes short of 2 ^ 32.
pub ctrl_exchange-serve_request :
    (src : List ℕ) (total block : ℕ) (pkt : List ℕ) {reply : Reply}
    → total < u32_mod
    → block < u32_mod
    → nblocks total block * hash_len + man_chunk ≤ u32_mod
    → serve_request src total block pkt ≡ some reply
    → ctrl_exchange (some reply.control) ≡ some (meta_of src total block)
unfolding serve_request
ctrl_exchange-serve_request src total block pkt {reply} t b w e =
    elim (Option-cases (req_decode pkt)) [
      | inl bad ↦ absurd (none≢some (rw (bad, serve_request) at e))
      | inr (req, good) ↦
          let same : answer src total block req ≡ reply =
            some-injective _ _ (rw (good, serve_request) at e) in
          subst (λ r. ctrl_exchange (some r.control) ≡ some (meta_of src total block)) same
            (ctrl_exchange-answer src total block req t b w)
    ]
