-- ===== src/Svu/Serve.antt =====
-- satdeploy-apm/svu/svu_serve.c: the ground end. A packet is the list of the bytes that its length
-- field covers; buffers are always available, and the pacing between packets is not modelled.
pub mod Blast
pub mod Requested
use sat_build.Prelude.{
  ℕ, zero, suc, ◌+◌, ◌-◌, ◌*◌, ◌%◌, Option, none, some, List, [], ◌∷◌, ◌++◌, ltb, leb, ◌==◌,
  if◌then◌else◌, take, slice, u16_mod, u32_mod,
}
use sat_build.Svu.Wire.{Interval, Req, put32, data_hdr, magic_resp, req_decode}
use sat_build.Svu.Tracker.{hash_len, nblocks, manifest}

-- `manifest_chunk` bytes to a packet of the manifest.
abbrev pub manifest_chunk : ℕ
manifest_chunk = 200

-- A packet whose 16-bit length field was set to `n`.
abbrev pub packet : ℕ → List ℕ → List ℕ
packet n bytes = take (n % u16_mod) bytes

-- `off + step` in 32 bits; the chunk's size, `(off + step <= end) ? step : end - off`.
abbrev pub advance : ℕ → ℕ → ℕ
advance off step = (off + step) % u32_mod

abbrev pub chunk_len : ℕ → ℕ → ℕ → ℕ
chunk_len off step end = if leb (advance off step) end then step else end - off

-- The loop of `send_manifest`, on fuel.
unfoldable pub send_manifest : ℕ → List ℕ → ℕ → ℕ → List (List ℕ)
send_manifest zero manifest bytes off = []
send_manifest (suc fuel) manifest bytes off =
    let len = chunk_len off manifest_chunk bytes in
    let rest = send_manifest fuel manifest bytes (advance off manifest_chunk) in
    if ltb off bytes then packet (4 + len) (put32 off ++ slice off len manifest) ∷ rest else []

-- The payload bytes of a data packet.
abbrev pub payload_len : ℕ → ℕ
payload_len mtu = if ltb data_hdr mtu then mtu - data_hdr else 1

-- The loop of `blast_interval` from `off` to `end`, on fuel.
unfoldable pub blast : ℕ → ℕ → ℕ → List ℕ → ℕ → ℕ → List (List ℕ)
blast zero session pay src off end = []
blast (suc fuel) session pay src off end =
    let len = chunk_len off pay end in
    let rest = blast fuel session pay src (advance off pay) end in
    if ltb off end
    then packet (data_hdr + len) (put32 off ++ (put32 session ++ slice off len src)) ∷ rest
    else []

-- `blast_interval`; each round goes forward by at least a byte.
unfoldable pub blast_interval : ℕ → ℕ → List ℕ → ℕ → ℕ → List (List ℕ)
blast_interval session mtu src start end =
    blast (end - start) session (payload_len mtu) src start end

-- The loop over the requested intervals: the packets, and the count of bytes in 32 bits.
unfoldable pub blast_requested : ℕ → ℕ → List ℕ → ℕ → List Interval → ℕ → List (List ℕ) × ℕ
blast_requested session mtu src total [] blasted = ([], blasted)
blast_requested session mtu src total (iv ∷ ivs) blasted =
    let e = if ltb total iv.end then total else iv.end in
    let asked = ltb iv.start e in
    let (packets, count) =
      blast_requested session mtu src total ivs
        (if asked then (blasted + (e - iv.start)) % u32_mod else blasted) in
    ((if asked then blast_interval session mtu src iv.start e else []) ++ packets, count)

-- What one request makes the server send: on the control connection, and to the data port.
pub record Reply : Type 0 where
  pub control : List (List ℕ)
  pub blasted : List (List ℕ)
  pub count : ℕ

-- `nof_intervals` of the array, or the whole file.
unfoldable pub blast_request : Req → ℕ → List ℕ → ℕ → List (List ℕ) × ℕ
blast_request req mtu src total =
    if req.nof_intervals == 0
    then (blast_interval req.session_id mtu src 0 total, total)
    else blast_requested req.session_id mtu src total (take req.nof_intervals req.intervals) 0

-- What a well-formed request is answered. A manifest of `bytes` bytes takes at most `bytes` chunks.
unfoldable pub answer : List ℕ → ℕ → ℕ → Req → Reply
answer src total block_size req =
    let mtu = if ltb data_hdr req.mtu then req.mtu else 256 in
    let n = nblocks total block_size in
    let bytes = n * hash_len % u32_mod in
    let sent = blast_request req mtu src total in
    record {
      control =
          (put32 magic_resp
            ++ (put32 req.session_id ++ (put32 total ++ (put32 block_size ++ put32 n))))
          ∷ send_manifest bytes (manifest src total block_size) bytes 0;
      blasted = sent.0;
      count = sent.1;
    }

-- The body of `svu_serve_loop` for a packet of the control connection; `none` where it is
-- malformed.
unfoldable pub serve_request : List ℕ → ℕ → ℕ → List ℕ → Option Reply
serve_request src total block_size pkt = elim (req_decode pkt) [
  | none ↦ none
  | some req ↦ some (answer src total block_size req)
]
