-- ===== src/Agent/Tests.antt =====
-- The theorems on backups, rollbacks, requests and the table of apps at small inputs.
use sat_build.Prelude.{
  codes, streq, has_suffix, ℕ, ◌+◌, ◌%◌, ◌<◌, ◌≡◌, refl, sym, ap, ◌∙◌, ◌≢◌, ◌↔◌, true, false, ◌||◌,
  none, some, List, [], ◌∷◌, ◌++◌, arith, ◌==◌, length, replicate,
}
use mathlib.Core.List.{Perm}
use sat_build.Agent.Disk.{File, Disk, find, unlink, add, store, chmod, content}
use sat_build.Agent.Disk.{find-All}
use sat_build.Agent.Backups.{
  CopyIo, chmod_as, written, copy_file, no_slash, child_of, read_dir, with_suffix, CreateIo,
  backup_create, restore_mode, backup_restore, join, backup_dir, backup_name, compute_file_checksum,
}
use sat_build.Agent.Backups.Laws.{backup_create_keeps}
use sat_build.Agent.Backups.Names.{
  skip_space, digits, scan_int, scan_dash, word, scan_word, scan_name, by_date,
  parse_backup_filename, list_names, backup_list, date_of, of_name, of_file, Listed,
  parse-backup_name,
}
use sat_build.Agent.Metadata.{
  Entry, load_metadata, entry_text, entries_text, metadata_text, app_metadata_save,
  app_metadata_get, find_app,
}
use sat_build.Agent.Metadata.Table.{saved, get-save}
use sat_build.Agent.Metadata.RoundTrip.{IsPrintable, load_metadata-metadata_text}
use sat_build.Agent.Deploy.{cmd_rollback, Request, BackupEntry, Store}
use sat_build.Agent.Deploy.Install.{installed}
use sat_build.Agent.Upload.{State, new_session}
use sat_build.Agent.Upload.Assembly.{
  IsAssembled, deliver, in_order, deliver-IsAssembled, deliver-in_order,
}
use sat_build.Agent.Rollback.{
  DialEntry, index_of, rollback_collect, rollback_collect_callback, pass, exchange_sort,
  newest_first, get_elem?, dial, select_backup, RollbackIo, keep_current, restore_selected,
  handle_rollback, rollback_path,
}
use sat_build.Agent.Rollback.Order.{IsNewestFirst, exchange_sort_lem}
use sat_build.Agent.Rollback.Dial.{IsDistinct, dial_turns}
use sat_build.Agent.Rollback.Restore.{chosen, kept, handle_rollback_installs}
use sat_build.Agent.Query.{has_hash, backup_collect, current_entry, handle_list_versions}
use sat_build.Agent.Query.Safety.{handle_list_versions_overruns}

abbrev hash_of : List ℕ → List ℕ
hash_of bs = replicate 64 (65 + length bs)

abbrev sum : List ℕ
sum = replicate 64 67

-- The name of a backup of the first of March 2025, 12:30.
abbrev short_hash : List ℕ
short_hash = codes "0a1b2c3d"

abbrev name : List ℕ
name = backup_name (codes "20250301-123000") short_hash

parse-backup_name_example :
    parse_backup_filename name (some 9)
    ≡ some (record {
      version = codes "20250301-123000-0a1b2c3d";
      timestamp =
          of_name (
            date_of
              (codes "2025")
              (codes "03")
              (codes "01")
              (codes "12")
              (codes "30")
              (codes "00"));
      hash = short_hash;
    })
parse-backup_name_example =
    parse-backup_name (codes "2025") (codes "03") (codes "01") (codes "12") (codes "30")
      (codes "00") short_hash (some 9)
      (
        (refl, (refl, (refl, (refl, (refl, tt))))),
        (
          (refl, (refl, (refl, tt))),
          (
            (refl, (refl, (refl, tt))),
            ((refl, (refl, (refl, tt))), ((refl, (refl, (refl, tt))), (refl, (refl, (refl, tt))))),
          ),
        ),
      )
      (omega arith) (omega arith) (refl, (refl, (refl, (refl, (refl, (refl, (refl, (refl, tt))))))))

-- A table of one app.
abbrev app : Entry
app = record {
  app_name = codes "a";
  remote_path = codes "/a";
  file_hash = codes "0";
  deployed_at = codes "t";
}

plain_byte : (c : ℕ) → ((c == 34) || (c == 92)) ≡ false → (c ≢ 34) × (c ≢ 92)
plain_byte c h = (ground arith, ground arith)

app-IsPrintable : IsPrintable app
app-IsPrintable = record {
  name_lt = omega arith;
  name_plain = (plain_byte 97 refl, tt);
  path_lt = omega arith;
  path_plain = (plain_byte 47 refl, (plain_byte 97 refl, tt));
  hash_lt = omega arith;
  hash_plain = (plain_byte 48 refl, tt);
  time_lt = omega arith;
  time_plain = (plain_byte 116 refl, tt);
}

load_metadata-metadata_text_example :
    load_metadata (some (metadata_text (app ∷ []))) ≡ some (app ∷ [])
load_metadata-metadata_text_example =
    load_metadata-metadata_text (app ∷ []) (omega arith) (app-IsPrintable, tt)
      (unfold metadata_text entries_text entry_text in omega arith)

get-save_example :
    app_metadata_get
      (codes "b")
      (app_metadata_save (codes "b") (codes "/b") sum (codes "t") (app ∷ [])).0
    ≡ some (saved (codes "b") (codes "/b") sum (codes "t"))
unfolding app_metadata_save find_app streq
get-save_example =
    get-save (codes "b") (codes "/b") sum (codes "t") (codes "b") (app ∷ []) (omega arith)

-- The installed file, one backup of it, and one of an older version.
abbrev file : List ℕ → ℕ → File
file bytes mtime = record { bytes = bytes; mtime = mtime; mode = 420 }

abbrev dir : List ℕ
dir = join backup_dir (codes "a")

abbrev new_path : List ℕ
new_path = join dir (backup_name (codes "20250301-123000") (hash_of (1 ∷ 2 ∷ [])))

abbrev old_path : List ℕ
old_path = join dir (backup_name (codes "20250201-123000") (hash_of (1 ∷ [])))

abbrev disk : Disk
disk =
    (old_path, file (1 ∷ []) 3)
    ∷ (codes "/a", file (1 ∷ 2 ∷ []) 5)
    ∷ (new_path, file (1 ∷ 2 ∷ []) 5)
    ∷ []

abbrev files : Store
files = record { disk = disk; apps = [] }

abbrev copy_io : CopyIo
copy_io = record { opens = true; stored = 100; lost = 0; now = 7; mode = 420 }

abbrev create_io : CreateIo
create_io = record { mkdirs = true; stamp = codes "20250401-123000"; copy = copy_io }

abbrev rollback_io : RollbackIo
rollback_io = record { before = create_io; copy = copy_io; time = codes "t" }

abbrev request : Request
request = record {
  command = cmd_rollback;
  app_name = codes "a";
  remote_path = codes "/a";
  dtp_server_node = 0;
  expected_size = 0;
  expected_checksum = [];
  rollback_hash = [];
  chunk_seq = 0;
  total_chunks = 0;
  chunk_data = [];
  log_lines = 0;
  file_mode = 0;
  dtp_mtu = 0;
}

rollback_succeeds : (handle_rollback hash_of rollback_io request files).1.success ≡ true
unfolding handle_rollback rollback_path find streq compute_file_checksum rollback_collect
    rollback_collect_callback index_of select_backup exchange_sort pass get_elem? dial keep_current
    restore_selected backup_restore copy_file written chmod_as restore_mode store unlink add chmod
    backup_list list_names read_dir child_of no_slash parse_backup_filename by_date scan_name
    scan_int skip_space digits scan_dash scan_word word
rollback_succeeds = refl

handle_rollback_installs_example :
    (e : DialEntry) × ((chosen hash_of request files).1 ≡ some e)
    × (f : File) × (find e.path (kept hash_of rollback_io request files).disk ≡ some f)
    × (installed (rollback_path request []) (handle_rollback hash_of rollback_io request files).0
        ≡ some f.bytes)
handle_rollback_installs_example =
    handle_rollback_installs hash_of rollback_io request files refl rollback_succeeds

abbrev entry : ℕ → DialEntry
entry t = record { hash = t ∷ []; path = []; mtime = t }

abbrev three : List DialEntry
three = entry 4 ∷ entry 9 ∷ entry 6 ∷ []

three-IsDistinct : IsDistinct three
unfolding streq
three-IsDistinct = ((refl, (refl, tt)), ((refl, tt), (tt, tt)))

newest_at_two : get_elem? (newest_first three) 2 ≡ some (entry 4)
unfolding get_elem? exchange_sort pass
newest_at_two = refl

-- Behind the oldest of three comes the newest.
dial_turns_example :
    (e' : DialEntry) × (get_elem? (newest_first three) ((2 + 1) % 3) ≡ some e')
    × ((select_backup [] (4 ∷ []) three).1 ≡ some e')
dial_turns_example = dial_turns three 2 (entry 4) three-IsDistinct newest_at_two (omega arith)

exchange_sort_lem_example :
    let sorted = exchange_sort (λ (e : DialEntry). e.mtime) 3 three in
    IsNewestFirst (λ (e : DialEntry). e.mtime) sorted × Perm sorted three
exchange_sort_lem_example = exchange_sort_lem (λ (e : DialEntry). e.mtime) three

-- Two of three backups have one hash.
abbrev listed : ℕ → Listed
listed t = record {
  parsed = record { version = []; timestamp = of_file none; hash = t ∷ [] };
  path = t ∷ [];
}

-- An app whose backup of the day before has its bytes.
abbrev kept_path : List ℕ
kept_path = join dir (backup_name (codes "20250331-123000") (hash_of (1 ∷ 2 ∷ [])))

abbrev backed_up : Disk
backed_up = (codes "/a", file (1 ∷ 2 ∷ []) 5) ∷ (kept_path, file (1 ∷ 2 ∷ []) 4) ∷ []

backup_known :
    (backup_create hash_of create_io (codes "a") (codes "/a") backed_up).1 ≡ some kept_path
unfolding backup_create find streq with_suffix has_suffix read_dir child_of no_slash copy_file
    written store unlink add chmod_as chmod
backup_known = refl

-- All files are those of the backup.
abbrev IsCopy : List ℕ × File → Type 0
IsCopy (path, f) = (length path < 512) × (f.bytes ≡ 1 ∷ 2 ∷ [])

copies : (q : List ℕ) (g : File) → find q backed_up ≡ some g → IsCopy (q, g)
copies q g = find-All IsCopy backed_up q g ((omega arith, refl), ((omega arith, refl), tt))

backup_create_keeps_example :
    (f : File) × (find (codes "/a") backed_up ≡ some f)
    × (bytes : List ℕ) × (content
          (find kept_path (backup_create hash_of create_io (codes "a") (codes "/a") backed_up).0)
        ≡ some bytes)
    × (hash_of bytes ≡ hash_of f.bytes)
backup_create_keeps_example =
    backup_create_keeps hash_of create_io (codes "a") (codes "/a") kept_path backed_up refl
      (λ bytes. omega arith) (λ q g e. (copies q g e).0)
      (λ f name g e there ends.
        ap hash_of ((copies (dir ++ (47 ∷ name)) g there).1 ∙ sym (copies (codes "/a") f e).1))
      backup_known

handle_list_versions_overruns_example :
    let entries = backup_collect (λ t. []) disk [] (backup_list (codes "a") disk) in
    (handle_list_versions hash_of (λ t. []) request files ≡ none) ↔ (
      (0 < 1)
      × (current : BackupEntry) × (current_entry hash_of disk (app_metadata_get (codes "a") [])
          ≡ some current)
      × (has_hash current.hash entries ≡ false)
      × (length entries ≡ 64))
handle_list_versions_overruns_example =
    handle_list_versions_overruns hash_of (λ t. []) request files

-- An upload that has begun: its temporary file is empty.
abbrev begun : State
begun = record {
  session = new_session request;
  store = record { disk = ((new_session request).temp_path, file [] 1) ∷ []; apps = [] };
}

abbrev chunks : ℕ → List ℕ
chunks k = (k + 7) ∷ []

begun-IsAssembled : IsAssembled chunks begun
unfolding find streq
begun-IsAssembled = record { active = refl; held = refl; counted = refl }

abbrev chunk : ℕ → Request
chunk k = record request { chunk_seq = k; chunk_data = chunks k }

deliver-IsAssembled_example : IsAssembled chunks (deliver (chunk 1 ∷ chunk 0 ∷ chunk 1 ∷ []) begun)
deliver-IsAssembled_example =
    deliver-IsAssembled chunks (chunk 1 ∷ chunk 0 ∷ chunk 1 ∷ []) begun (refl, (refl, (refl, tt)))
      (omega arith) begun-IsAssembled

deliver-in_order_example : (deliver (in_order request chunks 0 3) begun).session.next_chunk ≡ 3
deliver-in_order_example =
    deliver-in_order request chunks 3 begun refl (λ k. omega arith) (omega arith)
