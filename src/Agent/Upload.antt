-- ===== src/Agent/Upload.antt =====
-- The direct upload of deploy_handler.c: its session, and the three requests that move it. The
-- session's path `temp_path` lies in "/tmp"; what a chunk's `fwrite` stores is in the file at once.
pub mod Assembly
pub mod Install
use sat_build.Prelude.{
  codes, clip, streq, ℕ, ◌+◌, ◌%◌, Bool, true, false, ◌&&◌, not, Option, none, some, List, [], ◌∷◌,
  ◌++◌, ltb, ◌==◌, if◌then◌else◌, length, take, u32_mod,
}
use sat_build.Agent.Disk.{File, Disk, unlink, store}
use sat_build.Agent.Backups.{max_path_len, hash_buf_len, CopyIo, copy_file, CreateIo}
use sat_build.Agent.Metadata.{max_app_name_len}
use sat_build.Agent.Deploy.{
  err_no_upload_in_progress, err_chunk_out_of_order, err_file_write_failed, err_checksum_mismatch,
  err_backup_failed, err_install_failed, err_app_not_found, Request, Response, Refusal, refuse,
  error, fail, succeed, Store, check_skew, check_checksum, backup_current, finish,
}

-- `upload_session_t`; `temp_file` says that the file is open.
pub record Session : Type 0 where
  pub active : Bool
  pub app_name : List ℕ
  pub remote_path : List ℕ
  pub temp_path : List ℕ
  pub expected_checksum : List ℕ
  pub expected_size : ℕ
  pub received_size : ℕ
  pub next_chunk : ℕ
  pub total_chunks : ℕ
  pub file_mode : ℕ
  pub temp_file : Bool

abbrev pub no_session : Session
no_session = record {
  active = false;
  app_name = [];
  remote_path = [];
  temp_path = [];
  expected_checksum = [];
  expected_size = 0;
  received_size = 0;
  next_chunk = 0;
  total_chunks = 0;
  file_mode = 0;
  temp_file = false;
}

-- The agent between two requests.
pub record State : Type 0 where
  pub session : Session
  pub store : Store

-- `upload_session_reset`
unfoldable pub upload_session_reset : State → State
upload_session_reset s = record {
  session = no_session;
  store = record {
    disk =
        if length s.session.temp_path == 0
        then s.store.disk
        else unlink s.session.temp_path s.store.disk;
    apps = s.store.apps;
  };
}

-- The required fields of `handle_upload_start`.
unfoldable pub check_start : Request → Option Refusal
check_start req =
    if length req.app_name == 0
    then some (error err_app_not_found "No app_name specified")
    else if length req.remote_path == 0
    then some (error err_app_not_found "No remote_path specified")
    else check_skew req.expected_checksum

abbrev pub upload_path : List ℕ → List ℕ
upload_path app_name = clip max_path_len (codes "/tmp/satdeploy-" ++ (app_name ++ codes ".tmp"))

abbrev pub new_session : Request → Session
new_session req = record {
  active = true;
  app_name = clip max_app_name_len req.app_name;
  remote_path = clip max_path_len req.remote_path;
  temp_path = upload_path req.app_name;
  expected_checksum = clip hash_buf_len req.expected_checksum;
  expected_size = req.expected_size;
  received_size = 0;
  next_chunk = 0;
  total_chunks = req.total_chunks;
  file_mode = req.file_mode;
  temp_file = true;
}

-- `handle_upload_start`, with whether the file can be opened, its time and its permissions.
unfoldable pub handle_upload_start : Bool → ℕ → ℕ → Request → State → State × Response
handle_upload_start opens now mode req s =
    let cleared = if s.session.active then upload_session_reset s else s in
    let session = new_session req in
    let empty : File = record { bytes = []; mtime = now; mode = mode } in
    let opened : State = record {
      session = session;
      store = record cleared.store { disk = store session.temp_path empty cleared.store.disk };
    } in
    elim (check_start req) [
      | some refusal ↦ (cleared, refuse refusal)
      | none ↦
          if not opens
          then (
            upload_session_reset
                (record cleared { session = record session { temp_file = false } }),
            fail err_file_write_failed "Failed to create temp file",
          )
          else (opened, succeed)
    ]

-- The bytes that `fwrite` puts behind the file's last.
unfoldable pub append : List ℕ → List ℕ → Disk → Disk
append path bytes [] = []
append path bytes ((p, f) ∷ d) =
    if streq p path
    then (p, record f { bytes = f.bytes ++ bytes }) ∷ d
    else (p, f) ∷ append path bytes d

-- `handle_upload_chunk`; `fwrite` stores `written` bytes of the chunk.
unfoldable pub handle_upload_chunk : ℕ → Request → State → State × Response
handle_upload_chunk written req s =
    let bytes = take written req.chunk_data in
    let wrote : State = record s {
      store = record s.store { disk = append s.session.temp_path bytes s.store.disk };
    } in
    if not s.session.active
    then (s, fail err_no_upload_in_progress "No upload in progress")
    else if not (req.chunk_seq == s.session.next_chunk)
    then (s, fail err_chunk_out_of_order "Chunk out of order")
    else if length req.chunk_data == 0
    then (s, fail err_file_write_failed "Empty chunk data")
    else if not (length bytes == length req.chunk_data)
    then (upload_session_reset wrote, fail err_file_write_failed "Failed to write chunk")
    else (
      record wrote {
        session = record s.session {
          received_size = (s.session.received_size + length req.chunk_data) % u32_mod;
          next_chunk = (s.session.next_chunk + 1) % u32_mod;
        };
      },
      succeed,
    )

-- The tests of `handle_upload_end` on what was received.
unfoldable pub check_received : (List ℕ → List ℕ) → Session → Disk → Option Refusal
check_received digest session d =
    if ltb 0 session.expected_size && not (session.received_size == session.expected_size)
    then some (error err_checksum_mismatch "Size mismatch")
    else check_checksum digest session.expected_checksum session.temp_path d

-- The two backups, whether the directory can be made, the copy, and the formatted time.
pub record EndIo : Type 0 where
  pub before : CreateIo
  pub parent : Bool
  pub copy : CopyIo
  pub after : CreateIo
  pub time : List ℕ

-- The part of `handle_upload_end` behind the first backup.
unfoldable pub install_upload : (List ℕ → List ℕ) → EndIo → List ℕ → State → State × Response
install_upload digest io backup_path s =
    let session = s.session in
    let copied = copy_file io.copy session.temp_path session.remote_path s.store.disk in
    let placed : State = record s { store = record s.store { disk = copied.0 } } in
    let cleaned : Store = record s.store { disk = unlink session.temp_path copied.0 } in
    if not io.parent
    then (upload_session_reset s, fail err_install_failed "Failed to create directory")
    else if not copied.1
    then (upload_session_reset placed, fail err_install_failed "Failed to install file")
    else (
      record {
        session = record session { active = false; temp_path = [] };
        store =
            finish digest io.after io.time session.file_mode session.app_name session.remote_path
              session.expected_checksum cleaned;
      },
      record succeed { backup_path = backup_path },
    )

-- `handle_upload_end`
unfoldable pub handle_upload_end : (List ℕ → List ℕ) → EndIo → State → State × Response
handle_upload_end digest io s =
    let closed : State = record s { session = record s.session { temp_file = false } } in
    let session = closed.session in
    let saved = backup_current digest io.before session.app_name session.remote_path s.store.disk in
    let kept : State = record closed { store = record s.store { disk = saved.0 } } in
    if not session.active
    then (s, fail err_no_upload_in_progress "No upload in progress")
    else elim (check_received digest session s.store.disk) [
      | some refusal ↦ (upload_session_reset closed, refuse refusal)
      | none ↦ (elim saved.1 [
        | none ↦ (upload_session_reset kept, fail err_backup_failed "Failed to backup current file")
        | some backup_path ↦ install_upload digest io backup_path kept
      ])
    ]
