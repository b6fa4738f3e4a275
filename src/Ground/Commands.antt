-- ===== src/Ground/Commands.antt =====
-- The commands of satdeploy_apm.c. What `optparse_parse` makes of the reordered arguments is the
-- parameter `optparse`, its result the options and the index of the first other argument; `none` is
-- a negative result. Nothing is printed.
pub mod Laws
pub mod Restored
use sat_build.Prelude.{
  codes, streq, has_suffix, ℕ, suc, ◌-◌, Bool, true, false, ◌&&◌, ◌||◌, not, Option, none, some,
  List, [], ◌∷◌, ◌++◌, ltb, ◌==◌, if◌then◌else◌, length, take, drop,
}
use sat_build.Agent.Deploy.{
  AppStatusEntry, Command, cmd_status, cmd_rollback, cmd_list_versions, cmd_logs, Request, Response,
  BackupEntry,
}
use sat_build.Ground.Args.{satdeploy_reorder_argv}
use sat_build.Ground.AppName.{strrchr, base_of, satdeploy_derive_app_name}
use sat_build.Ground.Push.{
  ServeSession, SlashCode, slash_success, slash_eusage, slash_eio, slash_einval, HistoryWrite,
  World, PushIo, request_init, probe_timeout, deploy_single_app,
}

-- The options of all commands; a null pointer is `none`.
pub record Parsed : Type 0 where
  pub argi : ℕ
  pub node : ℕ
  pub local : Option (List ℕ)
  pub remote : Option (List ℕ)
  pub force : Bool
  pub mtu : ℕ
  pub hash : Option (List ℕ)
  pub lines : ℕ

-- `DTP_DEFAULT_MTU`
abbrev pub dtp_default_mtu : ℕ
dtp_default_mtu = 1024

-- The entries of `reordered` that a command reads: up to the returned count, which may lie behind
-- the array. `behind` is what stands there.
abbrev pub entries : List (List ℕ) → List (List ℕ) × ℕ → List (List ℕ)
entries behind (out, total) = take total (out ++ behind)

-- The node of a command: `slash_dfl_node` where none is given.
abbrev pub node_or : ℕ → ℕ → ℕ
node_or slash_dfl_node node = if node == 0 then slash_dfl_node else node

-- The loop of `satdeploy_deploy_cmd` over the other arguments.
unfoldable pub fill_paths :
    List (List ℕ) → Option (List ℕ) → Option (List ℕ) → Option (List ℕ) × Option (List ℕ)
fill_paths [] local remote = (local, remote)
fill_paths (arg ∷ args) none remote = fill_paths args (some arg) remote
fill_paths (arg ∷ args) (some l) none = fill_paths args (some l) (some arg)
fill_paths (arg ∷ args) (some l) (some r) = fill_paths args (some l) (some r)

abbrev pub mtu_ok : ℕ → Bool
mtu_ok mtu = not (not (mtu == 0) && (ltb mtu 64 || ltb dtp_default_mtu mtu))

abbrev pub mtu_or : ℕ → ℕ
mtu_or mtu = if mtu == 0 then dtp_default_mtu else mtu

-- `target_path`: the first of the other arguments, or else the option.
unfoldable pub target_of : List (List ℕ) → ℕ → Option (List ℕ) → Option (List ℕ)
target_of args argi remote = elim (drop argi args) [ [] ↦ remote | arg ∷ rest ↦ some arg ]

-- The hash in the name of a backup, as `satdeploy_rollback_cmd` takes it out.
unfoldable pub restored_hash : List ℕ → List ℕ
restored_hash backup_path =
    let filename = base_of backup_path in
    let len = length filename in
    elim (strrchr 45 filename) [
      | none ↦ []
      | some dash ↦
          let hash_len = len - 4 - suc dash in
          if has_suffix filename (codes ".bak")
            && (ltb 4 len && (ltb 0 hash_len && ltb hash_len 65))
          then take hash_len (drop (suc dash) filename)
          else []
    ]

abbrev pub rollback_record : List ℕ → List ℕ → List ℕ → Bool → List ℕ → List ℕ → HistoryWrite
rollback_record app_name file_hash remote_path success error_message backup_path = record {
  app = app_name;
  file_hash = file_hash;
  remote_path = remote_path;
  action = codes "rollback";
  success = success;
  error_message = error_message;
  backup_path = backup_path;
}

unfoldable pub conclude_rollback : List ℕ → List ℕ → Option Response → SlashCode × HistoryWrite
conclude_rollback app_name remote_path none = (
  slash_eio,
  rollback_record app_name [] remote_path false (codes "No response from agent (timeout)") [],
)
conclude_rollback app_name remote_path (some resp) =
    if resp.success
    then (
      slash_success,
      rollback_record app_name (restored_hash resp.backup_path) remote_path true []
          resp.backup_path,
    )
    else (slash_eio, rollback_record app_name [] remote_path false resp.error_message [])

-- A row of the table of `satdeploy_list_cmd`.
pub record VersionRow : Type 0 where
  pub hash : List ℕ
  pub timestamp : List ℕ
  pub is_deployed : Bool
  pub size_bytes : ℕ
  pub path : List ℕ

unfoldable pub row_path : Bool → Option (List ℕ) → List ℕ → List ℕ
row_path true (some deploy_path) path = if length deploy_path == 0 then path else deploy_path
row_path _ deploy_path path = path

unfoldable pub version_rows : Option (List ℕ) → List BackupEntry → List VersionRow
version_rows deploy_path [] = []
version_rows deploy_path (b ∷ backups) =
    let is_deployed = streq b.version (codes "current") in
    record {
      hash = b.hash;
      timestamp = b.timestamp;
      is_deployed = is_deployed;
      size_bytes = b.size_bytes;
      path = row_path is_deployed deploy_path b.path;
    }
    ∷ version_rows deploy_path backups

-- The code and the table, or the log, by the answer.
unfoldable pub conclude_list : Option (List ℕ) → Option Response → SlashCode × List VersionRow
conclude_list deploy_path none = (slash_eio, [])
conclude_list deploy_path (some resp) =
    if resp.success then (slash_success, version_rows deploy_path resp.backups) else (slash_eio, [])

unfoldable pub conclude_logs : Option Response → SlashCode × List ℕ
conclude_logs none = (slash_eio, [])
conclude_logs (some resp) =
    if resp.success then (slash_success, resp.log_output) else (slash_eio, [])

-- A row of the table of `satdeploy_status_cmd`; `has_service` is `is_running`.
pub record StatusRow : Type 0 where
  pub app_name : List ℕ
  pub status : List ℕ
  pub hash : List ℕ
  pub path : List ℕ
  pub provenance : Option (List ℕ)
  pub is_running : Bool

-- The rows; `get_last` is the provenance in the last record of `satdeploy_history_get_last`, if it
-- finds one.
unfoldable pub status_rows : (List ℕ → Option (List ℕ)) → List AppStatusEntry → List StatusRow
status_rows get_last [] = []
status_rows get_last (app ∷ apps) =
    record {
      app_name = app.app_name;
      status = codes (if app.running then "running" else "deployed");
      hash = app.file_hash;
      path = app.remote_path;
      provenance = elim (get_last app.app_name) [
        | none ↦ none
        | some git_hash ↦ if length git_hash == 0 then none else some git_hash
      ];
      is_running = app.running;
    }
    ∷ status_rows get_last apps

unfoldable pub conclude_status :
    (List ℕ → Option (List ℕ)) → Option Response → SlashCode × List StatusRow
conclude_status get_last none = (slash_eio, [])
conclude_status get_last (some resp) =
    if resp.success then (slash_success, status_rows get_last resp.apps) else (slash_eio, [])

module _ {W : Type 0} (ask : Option ServeSession → ℕ → ℕ → Request → W → W × Option Response)
    (optparse : ℕ → List (List ℕ) → Option Parsed) (slash_dfl_node : ℕ)
    (behind : List (List ℕ)) where
  -- `satdeploy_deploy_cmd` behind the parser.
  unfoldable pub deploy_parsed :
      (List ℕ → List ℕ) → PushIo → List (List ℕ) → Parsed → World W → World W × SlashCode
  deploy_parsed digest io args p w =
      let paths = fill_paths (drop p.argi args) p.local p.remote in
      if not (mtu_ok p.mtu) then (w, slash_eusage) else elim paths.0 [
        | none ↦ (w, slash_eusage)
        | some local ↦ (elim paths.1 [
          | none ↦ (w, slash_eusage)
          | some remote ↦
              deploy_single_app ask digest io (node_or slash_dfl_node p.node)
                (satdeploy_derive_app_name remote 128) (some local) (some remote) p.force
                (mtu_or p.mtu) w
        ])
      ]

  -- `satdeploy_deploy_cmd` on `slash->argv + 1`
  unfoldable pub satdeploy_deploy_cmd :
      (List ℕ → List ℕ) → PushIo → List (List ℕ) → World W → World W × SlashCode
  satdeploy_deploy_cmd digest io argv w =
      let reordered = satdeploy_reorder_argv 32 argv in
      let args = entries behind reordered in
      elim (optparse reordered.1 args) [
        | none ↦ (w, slash_einval)
        | some p ↦ deploy_parsed digest io args p w
      ]

  -- `satdeploy_rollback_cmd` from the target on.
  unfoldable pub rollback_target : Parsed → List ℕ → World W → World W × SlashCode
  rollback_target p target w =
      let app_name = satdeploy_derive_app_name target 128 in
      let req : Request = record (request_init cmd_rollback) {
        app_name = app_name;
        remote_path = target;
        rollback_hash = elim p.hash [ none ↦ [] | some h ↦ h ];
      } in
      let answer = ask none (node_or slash_dfl_node p.node) probe_timeout req w.agent in
      let end = conclude_rollback app_name target answer.1 in
      if length target == 0
      then (w, slash_einval)
      else (record { agent = answer.0; history = w.history ++ (end.1 ∷ []) }, end.0)

  unfoldable pub satdeploy_rollback_cmd : List (List ℕ) → World W → World W × SlashCode
  satdeploy_rollback_cmd argv w =
      let reordered = satdeploy_reorder_argv 32 argv in
      let args = entries behind reordered in
      elim (optparse reordered.1 args) [
        | none ↦ (w, slash_einval)
        | some p ↦ (elim (target_of args p.argi p.remote) [
          | none ↦ (w, slash_eusage)
          | some target ↦ rollback_target p target w
        ])
      ]

  -- The exchange of `satdeploy_list_cmd` and `satdeploy_logs_cmd`.
  unfoldable pub query : Command → Parsed → List ℕ → ℕ → W → W × Option Response
  query command p target log_lines a =
      ask none (node_or slash_dfl_node p.node) probe_timeout
        (record (request_init command) {
          app_name = satdeploy_derive_app_name target 128;
          log_lines = log_lines;
        })
        a

  unfoldable pub satdeploy_list_cmd :
      List (List ℕ) → World W → World W × (SlashCode × List VersionRow)
  satdeploy_list_cmd argv w =
      let reordered = satdeploy_reorder_argv 32 argv in
      let args = entries behind reordered in
      elim (optparse reordered.1 args) [
        | none ↦ (w, (slash_einval, []))
        | some p ↦ (elim (target_of args p.argi p.remote) [
          | none ↦ (w, (slash_eusage, []))
          | some target ↦
              let answer = query cmd_list_versions p target 0 w.agent in
              (record w { agent = answer.0 }, conclude_list p.remote answer.1)
        ])
      ]

  unfoldable pub satdeploy_logs_cmd : List (List ℕ) → World W → World W × (SlashCode × List ℕ)
  satdeploy_logs_cmd argv w =
      let reordered = satdeploy_reorder_argv 32 argv in
      let args = entries behind reordered in
      elim (optparse reordered.1 args) [
        | none ↦ (w, (slash_einval, []))
        | some p ↦ (elim (target_of args p.argi none) [
          | none ↦ (w, (slash_eusage, []))
          | some target ↦
              let answer = query cmd_logs p target p.lines w.agent in
              (record w { agent = answer.0 }, conclude_logs answer.1)
        ])
      ]

  unfoldable pub satdeploy_status_cmd :
      (List ℕ → Option (List ℕ)) → List (List ℕ) → World W → World W × (SlashCode × List StatusRow)
  satdeploy_status_cmd get_last argv w =
      let reordered = satdeploy_reorder_argv 32 argv in
      let args = entries behind reordered in
      elim (optparse reordered.1 args) [
        | none ↦ (w, (slash_einval, []))
        | some p ↦
            let answer =
              ask none (node_or slash_dfl_node p.node) probe_timeout (request_init cmd_status)
                w.agent in
            (record w { agent = answer.0 }, conclude_status get_last answer.1)
      ]
