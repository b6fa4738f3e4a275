-- ===== src/Agent/Query.antt =====
-- The requests of deploy_handler.c that change nothing: the status of the apps, the logs of a
-- service, and the list of an app's versions. `malloc` does not fail.
pub mod Safety
use sat_build.Prelude.{
  codes, clip, streq, ℕ, zero, suc, ◌+◌, ◌/◌, ◌%◌, Bool, true, false, ◌&&◌, ◌||◌, not, Option, none,
  some, List, [], ◌∷◌, ◌++◌, ltb, leb, ◌==◌, if◌then◌else◌, length,
}
use sat_build.Agent.Disk.{File, Disk, find}
use sat_build.Agent.Backups.{compute_file_checksum}
use sat_build.Agent.Backups.Names.{Timestamp, Listed, backup_list}
use sat_build.Agent.Metadata.{Entry, app_metadata_get}
use sat_build.Agent.Deploy.{
  err_app_not_found, err_logs_failed, Request, BackupEntry, AppStatusEntry, Response, fail, succeed,
  response_init, Store,
}
use sat_build.Agent.Rollback.{stamped, exchange_sort}

-- `status_metadata_callback`; `pgrep` says whether a process runs the file.
unfoldable pub status_metadata_callback :
    (List ℕ → List ℕ) → (List ℕ → Bool) → Disk → List AppStatusEntry → Entry → List AppStatusEntry
status_metadata_callback digest pgrep d entries e =
    if leb 32 (length entries)
    then entries
    else elim (compute_file_checksum digest e.remote_path d) [
      | none ↦ entries
      | some hash ↦
          entries
          ++ (record {
            app_name = e.app_name;
            running = pgrep e.remote_path;
            file_hash = hash;
            remote_path = e.remote_path;
          }
              ∷ [])
    ]

-- `app_metadata_list` with that callback.
unfoldable pub status_entries :
    (List ℕ → List ℕ)
    → (List ℕ → Bool)
    → Disk
    → List AppStatusEntry
    → List Entry
    → List AppStatusEntry
status_entries digest pgrep d entries [] = entries
status_entries digest pgrep d entries (e ∷ es) =
    status_entries digest pgrep d (status_metadata_callback digest pgrep d entries e) es

-- `handle_status`
unfoldable pub handle_status : (List ℕ → List ℕ) → (List ℕ → Bool) → Store → Response
handle_status digest pgrep s = record succeed {
  apps = status_entries digest pgrep s.disk [] s.apps;
}

-- The bytes that an app's name may have.
abbrev pub is_name_byte : ℕ → Bool
is_name_byte c =
    (leb 97 c && leb c 122)
    || ((leb 65 c && leb c 90)
        || ((leb 48 c && leb c 57) || ((c == 95) || ((c == 45) || (c == 46)))))

unfoldable pub is_sane : List ℕ → Bool
is_sane [] = true
is_sane (c ∷ s) = let rest = is_sane s in is_name_byte c && rest

-- "%u", on fuel; 20 digits are more than a number of 32 bits has.
unfoldable pub decimal : ℕ → ℕ → List ℕ
decimal zero n = []
decimal (suc fuel) n =
    let more = decimal fuel (n / 10) in
    if ltb n 10 then (48 + n) ∷ [] else more ++ ((48 + n % 10) ∷ [])

unfoldable pub logs_command : Request → List ℕ
logs_command req =
    let service_name = clip 128 (req.app_name ++ codes ".service") in
    let lines = if ltb 0 req.log_lines then req.log_lines else 100 in
    clip 256 (
      codes "journalctl -u "
      ++ (service_name ++ (codes " -n " ++ (decimal 20 lines ++ codes " --no-pager 2>&1"))))

-- The text of an exit status; a process that a signal ended has none.
abbrev pub status_text : Option ℕ → List ℕ
status_text none = codes "-1"
status_text (some n) = decimal 20 n

-- `handle_logs`; `journal` is what a shell command writes and its exit status, if `popen` works.
unfoldable pub handle_logs : (List ℕ → Option (List ℕ × Option ℕ)) → Request → Response
handle_logs journal req =
    if length req.app_name == 0
    then fail err_app_not_found "No app_name specified"
    else if not (is_sane req.app_name)
    then fail err_app_not_found
        "Invalid app_name: only alphanumeric, underscore, hyphen, dot allowed"
    else elim (journal (logs_command req)) [
      | none ↦ fail err_logs_failed "Failed to execute journalctl"
      | some (output, some zero) ↦ record succeed { log_output = clip 8192 output }
      | some (output, rc) ↦
          (let log_buf = clip 8192 output in
            let trimmed =
              if length log_buf == 0 then codes "(no output from journalctl)" else log_buf in
            record response_init {
              error_code = err_logs_failed;
              error_message = clip (8192 + 64) (
                  codes "journalctl exited "
                  ++ (status_text rc ++ (codes " on target: " ++ trimmed)));
            })
    ]

abbrev pub max_backup_entries : ℕ
max_backup_entries = 64

abbrev pub size_of : Option File → ℕ
size_of none = 0
size_of (some f) = length f.bytes

-- Whether an entry has a hash.
unfoldable pub has_hash : List ℕ → List BackupEntry → Bool
has_hash hash [] = false
has_hash hash (e ∷ es) = let later = has_hash hash es in streq e.hash hash || later

-- `backup_collect_callback`; `show` is the text of a time.
unfoldable pub backup_collect_callback :
    (Timestamp → List ℕ) → Disk → List BackupEntry → Listed → List BackupEntry
backup_collect_callback show d entries l =
    if leb max_backup_entries (length entries)
    then entries
    else if has_hash l.parsed.hash entries
    then entries
    else entries
      ++ (record {
        version = l.parsed.version;
        timestamp = show l.parsed.timestamp;
        hash = l.parsed.hash;
        path = l.path;
        size_bytes = size_of (find l.path d);
      }
          ∷ [])

unfoldable pub backup_collect :
    (Timestamp → List ℕ) → Disk → List BackupEntry → List Listed → List BackupEntry
backup_collect show d entries [] = entries
backup_collect show d entries (l ∷ ls) =
    backup_collect show d (backup_collect_callback show d entries l) ls

-- The first entry with a hash becomes "current".
unfoldable pub mark_current : List ℕ → List BackupEntry → List BackupEntry
mark_current hash [] = []
mark_current hash (e ∷ es) =
    let later = mark_current hash es in
    if streq e.hash hash then record e { version = codes "current" } ∷ es else e ∷ later

-- The entry of the installed file; `none` is a write behind the array of 64 entries.
unfoldable pub add_current : BackupEntry → List BackupEntry → Option (List BackupEntry)
add_current current entries =
    if has_hash current.hash entries
    then some (mark_current current.hash entries)
    else if leb max_backup_entries (length entries)
    then none
    else some (entries ++ (current ∷ []))

-- The installed file of an app, if the table knows it and it is there.
unfoldable pub current_entry : (List ℕ → List ℕ) → Disk → Option Entry → Option BackupEntry
current_entry digest d none = none
current_entry digest d (some e) = elim (find e.remote_path d) [
  | none ↦ none
  | some f ↦ some (record {
    version = codes "current";
    timestamp = e.deployed_at;
    hash = digest f.bytes;
    path = e.remote_path;
    size_bytes = length f.bytes;
  })
]

-- The collection behind both steps.
unfoldable pub versions :
    (List ℕ → List ℕ) → (Timestamp → List ℕ) → List ℕ → Store → Option (List BackupEntry)
versions digest show app_name s =
    let entries = backup_collect show s.disk [] (backup_list app_name s.disk) in
    elim (current_entry digest s.disk (app_metadata_get app_name s.apps)) [
      | none ↦ some entries
      | some current ↦ add_current current entries
    ]

-- `handle_list_versions`, where the list of the backups can be read; `none` is a write behind the
-- array.
unfoldable pub handle_list_versions :
    (List ℕ → List ℕ) → (Timestamp → List ℕ) → Request → Store → Option Response
handle_list_versions digest show req s =
    if length req.app_name == 0
    then some (fail err_app_not_found "No app_name specified")
    else elim (versions digest show req.app_name s) [
      | none ↦ none
      | some entries ↦ some (record succeed {
        backups = exchange_sort (λ e. stamped (find e.path s.disk)) (length entries) entries;
      })
    ]
