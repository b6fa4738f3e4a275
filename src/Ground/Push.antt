-- ===== src/Ground/Push.antt =====
-- `deploy_single_app` of satdeploy_apm.c and the server of svu_serve_session.c that runs during it.
-- The exchange of a request and its answer, `send_deploy_request_timeout` with protobuf and CSP below
-- it, is the parameter `ask`: the server that runs meanwhile, a node, a timeout, a request and what is
-- on the other side, where no answer is a failure. A null pointer is `none`.
pub mod Cases
use sat_build.Prelude.{
  codes, clip, streq, ℕ, ◌%◌, Bool, true, false, ◌&&◌, ◌||◌, not, Option, none, some, List, [], ◌∷◌,
  ◌++◌, ◌==◌, if◌then◌else◌, length, get_or, drop, u32_mod,
}
use sat_build.Agent.Deploy.{Command, cmd_status, cmd_deploy, Request, Response, AppStatusEntry}

-- `svu_serve_session_t`
pub record ServeSession : Type 0 where
  pub block_size : ℕ
  pub src : List ℕ
  pub total : ℕ
  pub active : Bool

-- `SVU_SERVE_DEFAULT_BLOCK`
abbrev pub svu_serve_default_block : ℕ
svu_serve_default_block = 4096

-- `svu_serve_session_start` on what `svu_load_file` reads, and whether the thread starts.
unfoldable pub svu_serve_session_start : Option (List ℕ) → ℕ → Bool → Option ServeSession
svu_serve_session_start none block_size thread = none
svu_serve_session_start (some bytes) block_size thread =
    let total = length bytes % u32_mod in
    let size = if block_size == 0 then svu_serve_default_block else block_size in
    if (total == 0) || not thread
    then none
    else some (record { block_size = size; src = bytes; total = total; active = true })

-- The results of a command.
pub data SlashCode : Type 0 where
  slash_success : SlashCode
  slash_eusage : SlashCode
  slash_eio : SlashCode
  slash_einval : SlashCode

-- `satdeploy_history_write_t`; the module is always "default", and the transport "csp".
pub record HistoryWrite : Type 0 where
  pub app : List ℕ
  pub file_hash : List ℕ
  pub remote_path : List ℕ
  pub action : List ℕ
  pub success : Bool
  pub error_message : List ℕ
  pub backup_path : List ℕ

-- The other side, and what was handed to `satdeploy_history_record`.
pub record World (W : Type 0) : Type 0 where
  pub agent : W
  pub history : List HistoryWrite

-- A file of the ground station.
pub record LocalFile : Type 0 where
  pub bytes : List ℕ
  pub mode : ℕ

-- The ground station: "HOME", what `stat` and `svu_load_file` find at a path, whether the digest can
-- be computed, whether a thread starts, and the address of the default interface.
pub record PushIo : Type 0 where
  pub home : Option (List ℕ)
  pub local : List ℕ → Option LocalFile
  pub readable : Bool
  pub thread : Bool
  pub ground_node : ℕ

-- The tilde of the local path, in a buffer of `MAX_PATH_LEN` bytes.
unfoldable pub expand_tilde : Option (List ℕ) → List ℕ → List ℕ
expand_tilde none path = path
expand_tilde (some home) path =
    if (get_or path 0 0 == 126) && ((get_or path 1 0 == 47) || (get_or path 1 0 == 0))
    then clip 256 (home ++ drop 1 path)
    else path

-- `SATDEPLOY__DEPLOY_REQUEST__INIT` with a command.
abbrev pub request_init : Command → Request
request_init command = record {
  command = command;
  app_name = [];
  remote_path = [];
  dtp_server_node = 0;
  expected_size = 0;
  expected_checksum = [];
  rollback_hash = [];
  chunk_seq = 0;
  total_chunks = 0;
  chunk_data = [];
  log_lines = 0;
  file_mode = 0;
  dtp_mtu = 0;
}

abbrev pub deploy_request : ℕ → List ℕ → List ℕ → LocalFile → List ℕ → ℕ → Request
deploy_request ground_node app_name remote_path file checksum dtp_mtu =
    record (request_init cmd_deploy) {
      app_name = app_name;
      remote_path = remote_path;
      expected_size = length file.bytes % u32_mod;
      expected_checksum = checksum;
      dtp_server_node = ground_node;
      dtp_mtu = dtp_mtu;
      file_mode = file.mode % 512;
    }

-- The search for the app in the answer to the status request.
unfoldable pub already_deployed : List ℕ → List ℕ → List AppStatusEntry → Bool
already_deployed app_name checksum [] = false
already_deployed app_name checksum (e ∷ apps) =
    if streq e.app_name app_name
    then streq e.file_hash checksum
    else already_deployed app_name checksum apps

-- What the check before the transfer ends the command with, if it does.
unfoldable pub preflight : List ℕ → List ℕ → Option Response → Option SlashCode
preflight app_name checksum none = some slash_eio
preflight app_name checksum (some resp) =
    if resp.success && already_deployed app_name checksum resp.apps
    then some slash_success
    else none

abbrev pub upload_record : List ℕ → List ℕ → List ℕ → Bool → List ℕ → List ℕ → HistoryWrite
upload_record app_name checksum remote_path success error_message backup_path = record {
  app = app_name;
  file_hash = checksum;
  remote_path = remote_path;
  action = codes "upload";
  success = success;
  error_message = error_message;
  backup_path = backup_path;
}

-- The end of the command, by the answer.
unfoldable pub conclude_push : List ℕ → List ℕ → List ℕ → Option Response → SlashCode × HistoryWrite
conclude_push app_name checksum remote_path none = (
  slash_eio,
  upload_record app_name checksum remote_path false (codes "No response from agent (timeout)") [],
)
conclude_push app_name checksum remote_path (some resp) =
    if resp.success
    then (slash_success, upload_record app_name checksum remote_path true [] resp.backup_path)
    else (slash_eio, upload_record app_name checksum remote_path false resp.error_message [])

-- `PROBE_TIMEOUT` and `DEFAULT_TIMEOUT`
abbrev pub probe_timeout : ℕ
probe_timeout = 15000

abbrev pub default_timeout : ℕ
default_timeout = 360000

module _ {W : Type 0} (ask : Option ServeSession → ℕ → ℕ → Request → W → W × Option Response) where
  -- The part of `deploy_single_app` behind the check: the server runs while the agent is asked.
  unfoldable pub transfer :
      PushIo → ℕ → List ℕ → List ℕ → LocalFile → List ℕ → ℕ → World W → World W × SlashCode
  transfer io node app_name remote_path file checksum dtp_mtu w =
      elim (svu_serve_session_start (some file.bytes) svu_serve_default_block io.thread) [
        | none ↦ (w, slash_eio)
        | some server ↦
            let req = deploy_request io.ground_node app_name remote_path file checksum dtp_mtu in
            let answer = ask (some server) node default_timeout req w.agent in
            let end = conclude_push app_name checksum remote_path answer.1 in
            (record { agent = answer.0; history = w.history ++ (end.1 ∷ []) }, end.0)
      ]

  -- The check whether the file is there, and the transfer.
  unfoldable pub check_and_transfer :
      PushIo → ℕ → List ℕ → List ℕ → LocalFile → List ℕ → Bool → ℕ → World W → World W × SlashCode
  check_and_transfer io node app_name remote_path file checksum true dtp_mtu w =
      transfer io node app_name remote_path file checksum dtp_mtu w
  check_and_transfer io node app_name remote_path file checksum false dtp_mtu w =
      let probe = ask none node probe_timeout (request_init cmd_status) w.agent in
      let probed : World W = record w { agent = probe.0 } in
      elim (preflight app_name checksum probe.1) [
        | some code ↦ (probed, code)
        | none ↦ transfer io node app_name remote_path file checksum dtp_mtu probed
      ]

  -- `deploy_single_app`; `digest` is `compute_checksum` on the bytes of a file.
  unfoldable pub deploy_single_app :
      (List ℕ → List ℕ)
      → PushIo
      → ℕ
      → List ℕ
      → Option (List ℕ)
      → Option (List ℕ)
      → Bool
      → ℕ
      → World W
      → World W × SlashCode
  deploy_single_app digest io node app_name none remote force dtp_mtu w = (w, slash_eusage)
  deploy_single_app digest io node app_name (some local_path) none force dtp_mtu w =
      (w, slash_eusage)
  deploy_single_app digest io node app_name (some local_path) (some remote_path) force dtp_mtu w =
      elim (io.local (expand_tilde io.home local_path)) [
        | none ↦ (w, slash_eio)
        | some file ↦
            if io.readable
            then check_and_transfer io node app_name remote_path file (digest file.bytes) force
                dtp_mtu w
            else (w, slash_eio)
      ]
