-- ===== src/Svu/Session/Control.antt =====
-- `ctrl_exchange` of svu_session.c. The packets are those that `csp_read` returns, in order; behind
-- the last one it times out.
use sat_build.Prelude.{
  ℕ, ◌+◌, ◌-◌, ◌*◌, ◌/◌, ◌%◌, Bool, ◌&&◌, ◌||◌, not, Option, none, some, List, [], ◌∷◌, ltb, leb,
  ◌==◌, if◌then◌else◌, length, get_or, set, drop, replicate, write_at, u32_mod,
}
use sat_build.Svu.Wire.{get32, magic_resp, resp_hdr}
use sat_build.Svu.Tracker.{hash_len}

abbrev pub man_chunk : ℕ
man_chunk = 200

-- What a control exchange hands back.
pub record Meta : Type 0 where
  pub total : ℕ
  pub block : ℕ
  pub nblocks : ℕ
  pub manifest : List ℕ

-- The variables of the loop that assembles the manifest.
pub record Assembly : Type 0 where
  pub manifest : List ℕ
  pub have : List ℕ
  pub got : ℕ

-- The guard on an offset-tagged chunk: a payload, at a multiple of the stride, that fits.
unfoldable pub chunk_fits : ℕ → List ℕ → Bool
chunk_fits man_bytes mp =
    let off = get32 mp in
    let len = length mp - 4 in
    ltb 4 (length mp)
    && (ltb off man_bytes && ((off % man_chunk == 0) && leb len (man_bytes - off)))

-- The body of the loop for one packet.
unfoldable pub take_chunk : ℕ → Assembly → List ℕ → Assembly
take_chunk man_bytes a mp =
    let off = get32 mp in
    let idx = off / man_chunk in
    if chunk_fits man_bytes mp && (get_or a.have idx 1 == 0)
    then record {
      manifest = write_at a.manifest off (drop 4 mp);
      have = set a.have idx 1;
      got = (a.got + (length mp - 4)) % u32_mod;
    }
    else a

-- `while (got < man_bytes)`
unfoldable pub assemble : ℕ → Assembly → List (List ℕ) → Option (List ℕ)
assemble man_bytes a [] = if ltb a.got man_bytes then none else some a.manifest
assemble man_bytes a (mp ∷ mps) =
    let rest = assemble man_bytes (take_chunk man_bytes a mp) mps in
    if ltb a.got man_bytes then rest else some a.manifest

-- The buffers before the first chunk. (`malloc` leaves the manifest's bytes open.)
abbrev pub no_chunks : ℕ → Assembly
no_chunks man_bytes = record {
  manifest = replicate man_bytes 0;
  have = replicate ((man_bytes + man_chunk - 1) % u32_mod / man_chunk) 0;
  got = 0;
}

-- The exchange behind the request; `none` is -1, and stands for a connection that failed.
unfoldable pub ctrl_exchange : Option (List (List ℕ)) → Option Meta
ctrl_exchange none = none
ctrl_exchange (some []) = none
ctrl_exchange (some (hp ∷ mps)) =
    let nblocks = get32 (drop 16 hp) in
    let man_bytes = nblocks * hash_len % u32_mod in
    if ltb (length hp) resp_hdr || not (get32 hp == magic_resp)
    then none
    else elim (assemble man_bytes (no_chunks man_bytes) mps) [
      | none ↦ none
      | some manifest ↦ some (record {
        total = get32 (drop 8 hp);
        block = get32 (drop 12 hp);
        nblocks = nblocks;
        manifest = manifest;
      })
    ]
