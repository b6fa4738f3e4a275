-- ===== src/Agent/Deploy.antt =====
-- satdeploy-agent/src/deploy_handler.c: the requests, the responses and `handle_deploy`. A string of
-- a request that is a null pointer is the empty list, as every test of the code takes the two alike.
pub mod Install
use sat_build.Prelude.{
  codes, clip, streq, ℕ, Bool, true, false, not, Option, none, some, List, [], ◌∷◌, ◌++◌, ◌==◌,
  if◌then◌else◌, length,
}
use Prim.Native.String.{String}
use sat_build.Agent.Disk.{File, Disk, find, unlink, store, chmod, rename, content}
use sat_build.Agent.Backups.{max_path_len, compute_file_checksum, CreateIo, backup_create}
use sat_build.Agent.Metadata.{Entry, app_metadata_save}
use sat_build.Svu.Session.Client.{Link}
use sat_build.Svu.Transfer.{svu_download_file}

-- `Satdeploy__DeployCommand`; the last one stands for every other number.
pub data Command : Type 0 where
  cmd_status : Command
  cmd_deploy : Command
  cmd_rollback : Command
  cmd_list_versions : Command
  cmd_logs : Command
  cmd_upload_start : Command
  cmd_upload_chunk : Command
  cmd_upload_end : Command
  cmd_unknown : Command

-- `Satdeploy__DeployError`
pub data DeployError : Type 0 where
  err_none : DeployError
  err_unknown_command : DeployError
  err_app_not_found : DeployError
  err_param_set_failed : DeployError
  err_backup_failed : DeployError
  err_dtp_download_failed : DeployError
  err_checksum_mismatch : DeployError
  err_install_failed : DeployError
  err_no_backups : DeployError
  err_backup_not_found : DeployError
  err_restore_failed : DeployError
  err_upload_in_progress : DeployError
  err_no_upload_in_progress : DeployError
  err_chunk_out_of_order : DeployError
  err_file_write_failed : DeployError
  err_logs_failed : DeployError

-- The fields of `Satdeploy__DeployRequest` that the handlers read.
pub record Request : Type 0 where
  pub command : Command
  pub app_name : List ℕ
  pub remote_path : List ℕ
  pub dtp_server_node : ℕ
  pub expected_size : ℕ
  pub expected_checksum : List ℕ
  pub rollback_hash : List ℕ
  pub chunk_seq : ℕ
  pub total_chunks : ℕ
  pub chunk_data : List ℕ
  pub log_lines : ℕ
  pub file_mode : ℕ
  pub dtp_mtu : ℕ

-- `Satdeploy__BackupEntry`
pub record BackupEntry : Type 0 where
  pub version : List ℕ
  pub timestamp : List ℕ
  pub hash : List ℕ
  pub path : List ℕ
  pub size_bytes : ℕ

-- `Satdeploy__AppStatusEntry`
pub record AppStatusEntry : Type 0 where
  pub app_name : List ℕ
  pub running : Bool
  pub file_hash : List ℕ
  pub remote_path : List ℕ

-- `Satdeploy__DeployResponse`
pub record Response : Type 0 where
  pub success : Bool
  pub error_code : DeployError
  pub error_message : List ℕ
  pub apps : List AppStatusEntry
  pub backups : List BackupEntry
  pub log_output : List ℕ
  pub backup_path : List ℕ

-- `SATDEPLOY__DEPLOY_RESPONSE__INIT`
abbrev pub response_init : Response
response_init = record {
  success = false;
  error_code = err_none;
  error_message = [];
  apps = [];
  backups = [];
  log_output = [];
  backup_path = [];
}

-- An error's code and text.
pub record Refusal : Type 0 where
  pub code : DeployError
  pub message : List ℕ

abbrev pub refuse : Refusal → Response
refuse r = record response_init { error_code = r.code; error_message = r.message }

abbrev pub error : DeployError → String → Refusal
error code message = record { code = code; message = codes message }

abbrev pub fail : DeployError → String → Response
fail code message = refuse (error code message)

-- The dash of the text is the three bytes of its UTF-8 form.
abbrev pub skew_message : List ℕ
skew_message =
    codes "version skew: APM is older than agent "
    ++ (0xe2
        ∷ 0x80
        ∷ 0x94
        ∷ codes " both must use full 64-hex SHA256 wire format (see CHANGELOG v0.4.0)")

abbrev pub succeed : Response
succeed = record response_init { success = true }

abbrev pub hash_hex_len : ℕ
hash_hex_len = 64

-- The files and the table of apps.
pub record Store : Type 0 where
  pub disk : Disk
  pub apps : List Entry

-- The test on the length of the digest.
unfoldable pub check_skew : List ℕ → Option Refusal
check_skew expected_checksum =
    if not (length expected_checksum == hash_hex_len)
    then some (record { code = err_checksum_mismatch; message = skew_message })
    else none

-- The required fields of `handle_deploy`.
unfoldable pub check_deploy : Request → Option Refusal
check_deploy req =
    if length req.app_name == 0
    then some (error err_app_not_found "No app_name specified")
    else if length req.remote_path == 0
    then some (error err_app_not_found "No remote_path specified")
    else if req.dtp_server_node == 0
    then some (error err_dtp_download_failed "No DTP server node specified")
    else check_skew req.expected_checksum

-- The backup of the file that is there; `none` is a failure.
unfoldable pub backup_current :
    (List ℕ → List ℕ) → CreateIo → List ℕ → List ℕ → Disk → Disk × Option (List ℕ)
backup_current digest io app_name remote_path d =
    let made = backup_create digest io app_name remote_path d in
    elim (find remote_path d) [ none ↦ (d, some []) | some _ ↦ made ]

-- The comparison of the digest with that of the file, where one is expected.
unfoldable pub check_checksum : (List ℕ → List ℕ) → List ℕ → List ℕ → Disk → Option Refusal
check_checksum digest expected_checksum temp_path d =
    if length expected_checksum == 0
    then none
    else elim (compute_file_checksum digest temp_path d) [
      | none ↦ some (error err_checksum_mismatch "Failed to compute checksum")
      | some actual ↦
          if not (streq actual expected_checksum)
          then some (error err_checksum_mismatch "Checksum mismatch")
          else none
    ]

-- What the system calls of a deploy do: the two backups; for the download whether there is a
-- sidecar's path, the sidecar, how much of the file is stored if it can be opened, whether `stat`
-- finds it, the link, the new file's time and permissions, and what a failed download leaves; whether `rename` works; and the formatted time.
pub record DeployIo : Type 0 where
  pub before : CreateIo
  pub usable : Bool
  pub sidecar : Option (List ℕ)
  pub outfile : Option ℕ
  pub stats : Bool
  pub links : List Link
  pub now : ℕ
  pub mode : ℕ
  pub left : Option File
  pub renames : Bool
  pub after : CreateIo
  pub time : List ℕ

-- The bytes that `svu_download_file` writes to the temporary path, if it returns 0.
unfoldable pub downloaded : DeployIo → Request → List ℕ → Option (List ℕ)
downloaded io req temp_path =
    (svu_download_file (not (length temp_path == 0)) req.dtp_server_node req.expected_size
      req.dtp_mtu io.usable io.sidecar io.outfile io.stats io.links).result

-- The files behind a download, and whether it returned 0.
unfoldable pub fetched : DeployIo → List ℕ → Option (List ℕ) → Disk → Disk × Bool
fetched io temp_path none d = (elim io.left [ none ↦ d | some f ↦ store temp_path f d ], false)
fetched io temp_path (some payload) d =
    (store temp_path (record { bytes = payload; mtime = io.now; mode = io.mode }) d, true)

abbrev pub temp_path_of : List ℕ → List ℕ
temp_path_of remote_path = clip max_path_len (remote_path ++ codes ".tmp")

abbrev pub mode_of : ℕ → ℕ
mode_of file_mode = if file_mode == 0 then 0x1ed else file_mode

-- The end of an installation: the permissions, the backup of what is now there, and the table.
unfoldable pub finish :
    (List ℕ → List ℕ) → CreateIo → List ℕ → ℕ → List ℕ → List ℕ → List ℕ → Store → Store
finish digest after time file_mode app_name remote_path expected_checksum s = record {
  disk =
      (backup_create digest after app_name remote_path
        (chmod remote_path (mode_of file_mode) s.disk)).0;
  apps = (app_metadata_save app_name remote_path expected_checksum time s.apps).0;
}

-- The part of `handle_deploy` behind the download.
unfoldable pub install :
    (List ℕ → List ℕ) → DeployIo → Request → List ℕ → List ℕ → Store → Store × Response
install digest io req temp_path backup_path s =
    let dropped : Store = record s { disk = unlink temp_path s.disk } in
    elim (check_checksum digest req.expected_checksum temp_path s.disk) [
      | some refusal ↦ (dropped, refuse refusal)
      | none ↦ (elim (if io.renames then rename temp_path req.remote_path s.disk else none) [
        | none ↦ (dropped, fail err_install_failed "Failed to install file")
        | some installed ↦ (
          finish digest io.after io.time req.file_mode req.app_name req.remote_path
              req.expected_checksum (record s { disk = installed }),
          record succeed { backup_path = backup_path },
        )
      ])
    ]

-- `handle_deploy`
unfoldable pub handle_deploy : (List ℕ → List ℕ) → DeployIo → Request → Store → Store × Response
handle_deploy digest io req s =
    let temp_path = temp_path_of req.remote_path in
    let saved = backup_current digest io.before req.app_name req.remote_path s.disk in
    let got = fetched io temp_path (downloaded io req temp_path) saved.0 in
    elim (check_deploy req) [
      | some refusal ↦ (s, refuse refusal)
      | none ↦ (elim saved.1 [
        | none ↦
            (record s { disk = saved.0 }, fail err_backup_failed "Failed to backup current file")
        | some backup_path ↦
            if got.1
            then install digest io req temp_path backup_path (record s { disk = got.0 })
            else (
              record s { disk = got.0 },
              fail err_dtp_download_failed "SVU transfer did not verify",
            )
      ])
    ]
