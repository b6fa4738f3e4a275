-- ===== src/Agent/Rollback.antt =====
-- `handle_rollback` of deploy_handler.c: the backups of an app by age, and the one that follows the
-- installed version in the dial.
pub mod Order
pub mod Dial
pub mod Restore
use sat_build.Prelude.{
  clip, streq, ℕ, zero, suc, ◌+◌, ◌%◌, not, Option, none, some, List, [], ◌∷◌, ◌++◌, ltb, leb, ◌==◌,
  if◌then◌else◌, length,
}
use sat_build.Agent.Disk.{File, Disk, find}
use sat_build.Agent.Backups.{
  max_path_len, hash_buf_len, compute_file_checksum, CopyIo, CreateIo, backup_create,
  backup_restore,
}
use sat_build.Agent.Backups.Names.{Listed, backup_list}
use sat_build.Agent.Metadata.{Entry, app_metadata_get, app_metadata_save}
use sat_build.Agent.Deploy.{
  err_app_not_found, err_no_backups, err_backup_not_found, err_restore_failed, Request, Response,
  fail, succeed, Store,
}

abbrev pub max_dial_entries : ℕ
max_dial_entries = 32

-- `backup_entry_t`
pub record DialEntry : Type 0 where
  pub hash : List ℕ
  pub path : List ℕ
  pub mtime : ℕ

-- The index of the first entry with a hash.
unfoldable pub index_of : List ℕ → List DialEntry → Option ℕ
index_of hash [] = none
index_of hash (e ∷ es) =
    let later = index_of hash es in
    if streq e.hash hash then some 0 else elim later [ none ↦ none | some k ↦ some (k + 1) ]

abbrev pub stamped : Option File → ℕ
stamped none = 0
stamped (some f) = f.mtime

-- `rollback_collect_callback`
unfoldable pub rollback_collect_callback : Disk → List DialEntry → Listed → List DialEntry
rollback_collect_callback d entries l =
    let hash = clip hash_buf_len l.parsed.hash in
    let entry : DialEntry = record {
      hash = hash;
      path = clip max_path_len l.path;
      mtime = stamped (find l.path d);
    } in
    if leb max_dial_entries (length entries)
    then entries
    else elim (index_of l.parsed.hash entries) [ some _ ↦ entries | none ↦ entries ++ (entry ∷ []) ]

unfoldable pub rollback_collect : Disk → List DialEntry → List Listed → List DialEntry
rollback_collect d entries [] = entries
rollback_collect d entries (l ∷ ls) = rollback_collect d (rollback_collect_callback d entries l) ls

-- The inner loop of the sort: the entry of one place is swapped with every later and newer one.
unfoldable pub pass {ℓ} : {A : Type ℓ} → (A → ℕ) → A → List A → A × List A
pass key x [] = (x, [])
pass key x (y ∷ ys) =
    let swapped = pass key y ys in
    let kept = pass key x ys in
    if ltb (key x) (key y) then (swapped.0, x ∷ swapped.1) else (kept.0, y ∷ kept.1)

-- The outer loop, on fuel.
unfoldable pub exchange_sort {ℓ} : {A : Type ℓ} → (A → ℕ) → ℕ → List A → List A
exchange_sort key zero xs = xs
exchange_sort key (suc fuel) [] = []
exchange_sort key (suc fuel) (x ∷ xs) = let p = pass key x xs in p.0 ∷ exchange_sort key fuel p.1

abbrev pub newest_first : List DialEntry → List DialEntry
newest_first entries = exchange_sort (λ e. e.mtime) (length entries) entries

unfoldable pub get_elem? {ℓ} : {A : Type ℓ} → List A → ℕ → Option A
get_elem? [] k = none
get_elem? (x ∷ xs) zero = some x
get_elem? (x ∷ xs) (suc k) = get_elem? xs k

-- The next index of the dial.
unfoldable pub dial : List ℕ → List DialEntry → ℕ
dial current_hash entries =
    let current_idx = if length current_hash == 0 then none else index_of current_hash entries in
    elim current_idx [ none ↦ 0 | some k ↦ (k + 1) % length entries ]

-- The backup that is asked for, or the next one of the dial; with the entries in their new order.
unfoldable pub select_backup : List ℕ → List ℕ → List DialEntry → List DialEntry × Option DialEntry
select_backup rollback_hash current_hash entries =
    let sorted = newest_first entries in
    if length rollback_hash == 0 then (sorted, get_elem? sorted (dial current_hash sorted)) else (
      entries,
      elim (index_of rollback_hash entries) [ none ↦ none | some k ↦ get_elem? entries k ],
    )

abbrev pub path_of : Option Entry → List ℕ
path_of none = []
path_of (some e) = e.remote_path

-- The path of the request, or that in the table; empty where there is none.
unfoldable pub rollback_path : Request → List Entry → List ℕ
rollback_path req apps =
    if length req.remote_path == 0
    then path_of (app_metadata_get req.app_name apps)
    else req.remote_path

abbrev pub or_empty : Option (List ℕ) → List ℕ
or_empty none = []
or_empty (some hash) = hash

-- The backup of the installed version, its copy of the selected one, and the formatted time.
pub record RollbackIo : Type 0 where
  pub before : CreateIo
  pub copy : CopyIo
  pub time : List ℕ

-- The backup of the installed version, where no entry has its digest; its result is not looked at.
unfoldable pub keep_current :
    (List ℕ → List ℕ) → CreateIo → Request → List ℕ → List ℕ → List DialEntry → Disk → Disk
keep_current digest io req remote_path current_hash entries d =
    let made = backup_create digest io req.app_name remote_path d in
    if length current_hash == 0
    then d
    else elim (index_of current_hash entries) [ some _ ↦ d | none ↦ made.0 ]

-- The restoration of the selected backup.
unfoldable pub restore_selected :
    RollbackIo → Request → List ℕ → DialEntry → Store → Store × Response
restore_selected io req remote_path selected s =
    let restored = backup_restore io.copy selected.path remote_path s.disk in
    if not restored.1
    then (record s { disk = restored.0 }, fail err_restore_failed "Failed to restore backup")
    else (
      record {
        disk = restored.0;
        apps = (app_metadata_save req.app_name remote_path selected.hash io.time s.apps).0;
      },
      record succeed { backup_path = clip max_path_len selected.path },
    )

-- `handle_rollback`, where the list of the backups can be read.
unfoldable pub handle_rollback : (List ℕ → List ℕ) → RollbackIo → Request → Store → Store × Response
handle_rollback digest io req s =
    let remote_path = rollback_path req s.apps in
    let current_hash = or_empty (compute_file_checksum digest remote_path s.disk) in
    let entries = rollback_collect s.disk [] (backup_list req.app_name s.disk) in
    let choice = select_backup req.rollback_hash current_hash entries in
    let kept : Store = record s {
      disk = keep_current digest io.before req remote_path current_hash choice.0 s.disk;
    } in
    if length req.app_name == 0
    then (s, fail err_app_not_found "No app_name specified")
    else if length remote_path == 0
    then (s, fail err_app_not_found "No remote_path specified and app not in metadata")
    else if length entries == 0
    then (s, fail err_no_backups "No backups available")
    else elim choice.1 [
      | none ↦ (s, fail err_backup_not_found "Backup with specified hash not found")
      | some selected ↦ restore_selected io req remote_path selected kept
    ]
