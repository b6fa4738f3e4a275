-- ===== src/Svu/Runs.antt =====
-- A whole transfer of a file of three bytes in blocks of two.
use sat_build.Prelude.{
  ℕ, ◌≡◌, refl, sym, ◌∙◌, ◌⊎◌, inr, true, Option, none, some, List, [], ◌∷◌, arith,
}
use mathlib.Core.Path.{subst}
use mathlib.Core.Option.{some-injective}
use sat_build.Sha256.{sha256}
use sat_build.Svu.Wire.{get32}
use sat_build.Svu.Tracker.{
  Tracker, nblocks, hash_block, manifest_from, manifest, new, cover_byte, cover, accept, same_bytes,
  block_matches, push_interval, run_end, holes, scan_block, scan, verify,
}
use sat_build.Svu.Tracker.Content.{Collides}
use sat_build.Svu.Serve.{Reply, send_manifest, blast, blast_interval, blast_request, answer}
use sat_build.Svu.Session.{drain_packet, drain_data}
use sat_build.Svu.Session.Control.{Meta, chunk_fits, take_chunk, assemble, ctrl_exchange}
use sat_build.Svu.Session.Client.{
  Link, Outcome, failed, seed_tracker, verified, round_request, manifest_only, try_exchange,
  first_tracker, drain_quiet, open_tracker, next_client, end_round, receive, answered, round,
  rounds, client_run,
}
use sat_build.Svu.Session.Client.Keeps.{IsMetaOf, HonestLink}
use sat_build.Svu.Session.Client.Sound.{IsWritten, client_run-IsFile}
use sat_build.Svu.Sidecar.{header_ok, start_pass, sidecar_restore}
use sat_build.Svu.Transfer.{check_size, svu_download_file}
use sat_build.Svu.Transfer.Result.{
  SizeFits, resumed, svu_download_file-IsFile, svu_download_file_resumable,
}

abbrev pub small : List ℕ
small = 7 ∷ 8 ∷ 9 ∷ []

-- What the ground end answers to the first request, which asks for everything.
abbrev first_reply : Reply
first_reply = answer small 3 2 (round_request 1024 2 0 [])

abbrev pub served : Link
served = record { attempts = some first_reply.control ∷ []; drains = first_reply.blasted ∷ [] }

abbrev outcome : Outcome
outcome = (client_run (some 100) 2 1024 3 none (served ∷ [])).0

abbrev answered_meta : Option Meta
answered_meta = ctrl_exchange (some first_reply.control)

served_verifies : outcome ≡ verified small small
unfolding client_run rounds round try_exchange answered open_tracker first_tracker receive
    drain_quiet next_client end_round drain_data drain_packet ctrl_exchange assemble take_chunk
    chunk_fits get32 answer blast_request blast_interval blast send_manifest nblocks manifest
    manifest_from hash_block sha256 new accept cover cover_byte scan_block scan seed_tracker verify
    block_matches same_bytes round_request
served_verifies = refl

abbrev first_meta : Meta
first_meta = record { total = 3; block = 2; nblocks = 2; manifest = manifest small 3 2 }

answered_first : answered_meta ≡ some first_meta
unfolding ctrl_exchange assemble take_chunk chunk_fits get32 answer blast_request blast_interval
    blast send_manifest nblocks manifest manifest_from hash_block sha256 round_request
answered_first = refl

first_meta-IsMetaOf : IsMetaOf small first_meta
first_meta-IsMetaOf = record {
  total_eq = refl;
  total_lt = omega arith;
  block_lt = omega arith;
  manifest_eq = refl;
}

pub served-Honest : HonestLink small served
served-Honest = (
  λ m e. subst (IsMetaOf small) (some-injective _ _ (sym answered_first ∙ e)) first_meta-IsMetaOf,
  tt,
)

client_run-IsFile_example : IsWritten small (some 100) small small
client_run-IsFile_example =
    client_run-IsFile small (some 100) 2 1024 3 none (served ∷ []) small small (served-Honest, tt)
      served_verifies

-- The download of the same file, with what is no sidecar on the disk.
abbrev pub torn : Option (List ℕ)
torn = some (1 ∷ [])

pub download_done :
    (svu_download_file true 5 3 0 true torn (some 100) true (served ∷ [])).result ≡ some small
unfolding svu_download_file check_size sidecar_restore header_ok client_run rounds round
    try_exchange answered open_tracker first_tracker receive drain_quiet next_client end_round
    drain_data drain_packet ctrl_exchange assemble take_chunk chunk_fits get32 answer blast_request
    blast_interval blast send_manifest nblocks manifest manifest_from hash_block sha256 new accept
    cover cover_byte scan_block scan seed_tracker verify block_matches same_bytes round_request
download_done = refl

-- With no expected size, a file of which one byte was stored passes for the whole.
cut_download :
    (svu_download_file true 5 0 0 true torn (some 1) true (served ∷ [])).result ≡ some (7 ∷ [])
unfolding svu_download_file check_size sidecar_restore header_ok client_run rounds round
    try_exchange answered open_tracker first_tracker receive drain_quiet next_client end_round
    drain_data drain_packet ctrl_exchange assemble take_chunk chunk_fits get32 answer blast_request
    blast_interval blast send_manifest nblocks manifest manifest_from hash_block sha256 new accept
    cover cover_byte scan_block scan seed_tracker verify block_matches same_bytes round_request
cut_download = refl

svu_download_file-IsFile_example :
    ((small ≡ small) ⊎ ((block : ℕ) × (b : ℕ) × Collides small small 3 block b)) × SizeFits 3 small
svu_download_file-IsFile_example =
    svu_download_file-IsFile small true 5 3 0 true torn (some 100) true (served ∷ []) small
      (served-Honest, tt) (inr refl) download_done

loop_verifies : (resumed (some 100) 0 torn (served ∷ [])).0 ≡ verified small small
unfolding sidecar_restore header_ok client_run rounds round try_exchange answered open_tracker
    first_tracker receive drain_quiet next_client end_round drain_data drain_packet ctrl_exchange
    assemble take_chunk chunk_fits get32 answer blast_request blast_interval blast send_manifest
    nblocks manifest manifest_from hash_block sha256 new accept cover cover_byte scan_block scan
    seed_tracker verify block_matches same_bytes round_request
loop_verifies = refl

-- A link that is lost behind the first packet.
abbrev cut : Link
cut = record {
  attempts = some first_reply.control ∷ [];
  drains = ((0 ∷ 0 ∷ 0 ∷ 0 ∷ 1 ∷ 0 ∷ 0 ∷ 0 ∷ 7 ∷ 8 ∷ []) ∷ []) ∷ [];
}

abbrev two_bytes : Tracker
two_bytes = record {
  total = 3;
  block = 2;
  nblocks = 2;
  covered_count = 2;
  payload = 7 ∷ 8 ∷ 0 ∷ [];
  covered = 1 ∷ 1 ∷ 0 ∷ [];
  expected = manifest small 3 2;
}

cut_fails : (resumed (some 100) 0 torn (cut ∷ [])).0 ≡ failed
unfolding sidecar_restore header_ok client_run rounds round try_exchange answered open_tracker
    first_tracker receive drain_quiet next_client end_round drain_data drain_packet ctrl_exchange
    assemble take_chunk chunk_fits get32 answer blast_request blast_interval blast send_manifest
    nblocks manifest manifest_from hash_block sha256 new accept cover cover_byte scan_block scan
    seed_tracker verify block_matches same_bytes round_request push_interval run_end holes
    manifest_only
cut_fails = refl

cut_keeps : (resumed (some 100) 0 torn (cut ∷ [])).1.recv ≡ some two_bytes
unfolding sidecar_restore header_ok client_run rounds round try_exchange answered open_tracker
    first_tracker receive drain_quiet next_client end_round drain_data drain_packet ctrl_exchange
    assemble take_chunk chunk_fits get32 answer blast_request blast_interval blast send_manifest
    nblocks manifest manifest_from hash_block sha256 new accept cover cover_byte scan_block scan
    seed_tracker verify block_matches same_bytes round_request push_interval run_end holes
    manifest_only
cut_keeps = refl

cut-Honest : HonestLink small cut
cut-Honest = served-Honest

svu_download_file_resumable_example :
    (sidecar_restore true true (
      start_pass
        (svu_download_file true 5 3 0 true torn (some 100) true (cut ∷ [])).sidecar_file)).1
    ≡ some (7 ∷ 8 ∷ 0 ∷ [])
svu_download_file_resumable_example =
    svu_download_file_resumable small 5 3 0 torn (some 100) true (cut ∷ []) two_bytes (omega arith)
      (cut-Honest, tt) cut_fails cut_keeps
