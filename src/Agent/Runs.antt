-- ===== src/Agent/Runs.antt =====
-- A deploy, an upload and a rollback of an app whose file is "/a".
use sat_build.Prelude.{
  codes, streq, ℕ, ◌+◌, ◌≡◌, refl, ◌⊎◌, inr, true, false, none, some, List, [], ◌∷◌, arith, length,
  replicate,
}
use sat_build.Agent.Disk.{File, find, unlink, add, store, chmod, rename}
use sat_build.Agent.Backups.{
  compute_file_checksum, CopyIo, chmod_as, written, stored_bytes, copy_file, no_slash, child_of,
  read_dir, with_suffix, CreateIo, backup_create,
}
use sat_build.Agent.Backups.Laws.{is_archive}
use sat_build.Agent.Deploy.{
  cmd_deploy, Request, Store, check_skew, check_deploy, backup_current, check_checksum, DeployIo,
  downloaded, fetched, install, handle_deploy, temp_path_of,
}
use sat_build.Agent.Deploy.Install.{
  installed, IsKept, IsInstalled, handle_deploy_cases, handle_deploy-IsFile,
}
use sat_build.Agent.Upload.{
  State, no_session, check_start, handle_upload_start, append, handle_upload_chunk, check_received,
  EndIo, install_upload, handle_upload_end,
}
use sat_build.Agent.Upload.Install.{uploading, upload_installs}
use sat_build.Svu.Session.Client.Sound.{IsFile}
use sat_build.Svu.Runs.{small, served, torn, served-Honest, download_done}

abbrev pub hash_of : List ℕ → List ℕ
hash_of bs = replicate 64 (65 + length bs)

abbrev pub old : File
old = record { bytes = 1 ∷ 2 ∷ []; mtime = 3; mode = 420 }

abbrev pub before : Store
before = record { disk = (codes "/a", old) ∷ []; apps = [] }

abbrev pub copy_io : CopyIo
copy_io = record { opens = true; stored = 100; lost = 0; now = 5; mode = 420 }

abbrev pub create_io : CreateIo
create_io = record { mkdirs = true; stamp = codes "20250101-000000"; copy = copy_io }

abbrev pub deploy_io : DeployIo
deploy_io = record {
  before = create_io;
  usable = true;
  sidecar = torn;
  outfile = some 100;
  stats = true;
  links = served ∷ [];
  now = 6;
  mode = 420;
  left = none;
  renames = true;
  after = create_io;
  time = codes "2025-01-01T00:00:00";
}

abbrev pub request : Request
request = record {
  command = cmd_deploy;
  app_name = codes "a";
  remote_path = codes "/a";
  dtp_server_node = 5;
  expected_size = 3;
  expected_checksum = replicate 64 68;
  rollback_hash = [];
  chunk_seq = 0;
  total_chunks = 0;
  chunk_data = [];
  log_lines = 0;
  file_mode = 0;
  dtp_mtu = 0;
}

pub outside : is_archive (codes "/a") ≡ false
unfolding streq
outside = refl

pub got_small : downloaded deploy_io request (temp_path_of (codes "/a")) ≡ some small
unfolding downloaded
got_small = download_done

deploy_succeeds : (handle_deploy hash_of deploy_io request before).1.success ≡ true
unfolding handle_deploy check_deploy check_skew backup_current backup_create find streq with_suffix
    read_dir child_of no_slash copy_file written stored_bytes chmod_as store unlink add chmod
    fetched install check_checksum compute_file_checksum rename
deploy_succeeds = rw got_small refl

handle_deploy_cases_example :
    let r = handle_deploy hash_of deploy_io request before in
    IsKept (codes "/a") before r
    ⊎ ((bytes : List ℕ) × (downloaded deploy_io request (temp_path_of (codes "/a")) ≡ some bytes)
        × IsInstalled hash_of (replicate 64 68) (codes "/a") bytes r)
handle_deploy_cases_example =
    handle_deploy_cases hash_of deploy_io request before (omega arith) outside

handle_deploy-IsFile_example :
    (bytes : List ℕ) × IsFile small bytes
    × (hash_of bytes ≡ replicate 64 68)
    × (installed (codes "/a") (handle_deploy hash_of deploy_io request before).0 ≡ some bytes)
handle_deploy-IsFile_example =
    handle_deploy-IsFile small hash_of deploy_io request before (omega arith) outside
      (served-Honest, tt) (inr refl) deploy_succeeds

-- An upload of two chunks, the second of which comes too early once, and the first of which twice.
abbrev idle : State
idle = record { session = no_session; store = before }

abbrev chunks : ℕ → List ℕ
chunks k = (k + 7) ∷ []

abbrev chunk : ℕ → Request
chunk k = record request { chunk_seq = k; chunk_data = chunks k }

abbrev sent : List Request
sent = chunk 1 ∷ chunk 0 ∷ chunk 0 ∷ chunk 1 ∷ []

abbrev upload : Request
upload = record request { expected_size = 2; expected_checksum = replicate 64 67; total_chunks = 2 }

abbrev end_io : EndIo
end_io = record {
  before = create_io;
  parent = true;
  copy = copy_io;
  after = create_io;
  time = codes "2025-01-01T00:00:00";
}

start_succeeds : (handle_upload_start true 6 420 upload idle).1.success ≡ true
unfolding handle_upload_start check_start check_skew
start_succeeds = refl

abbrev last : State
last = uploading true 6 420 upload sent idle

end_succeeds : (handle_upload_end hash_of end_io last).1.success ≡ true
unfolding handle_upload_start check_start check_skew handle_upload_chunk append handle_upload_end
    check_received check_checksum compute_file_checksum backup_current backup_create find streq
    with_suffix read_dir child_of no_slash copy_file written stored_bytes chmod_as store unlink add
    chmod install_upload
end_succeeds = refl

apart : streq (codes "/tmp/satdeploy-a.tmp") (codes "/a") ≡ false
unfolding streq
apart = refl

upload_installs_example :
    (hash_of (7 ∷ 8 ∷ []) ≡ replicate 64 67)
    × (installed (codes "/a") (handle_upload_end hash_of end_io last).0.store ≡ some (7 ∷ 8 ∷ []))
unfolding handle_upload_start check_start check_skew handle_upload_chunk
upload_installs_example =
    upload_installs hash_of chunks true 6 420 upload sent end_io idle
      (refl, (refl, (refl, (refl, tt)))) (omega arith) apart outside refl start_succeeds
      end_succeeds
