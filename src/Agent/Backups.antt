-- ===== src/Agent/Backups.antt =====
-- satdeploy-agent/src/backup_manager.c: copies of an app's files, by the time and the digest. The
-- digest of a file's bytes, in hex, is the parameter `digest`; what the system calls report and the
-- clock's time are arguments.
pub mod Names
pub mod Known
pub mod Laws
use sat_build.Prelude.{
  codes, clip, streq, has_suffix, ℕ, ◌+◌, ◌-◌, Bool, true, false, ◌&&◌, not, Option, none, some,
  List, [], ◌∷◌, ◌++◌, ltb, ◌==◌, if◌then◌else◌, length, take, drop,
}
use sat_build.Agent.Disk.{File, Disk, find, unlink, store, chmod}

abbrev pub max_path_len : ℕ
max_path_len = 512

abbrev pub hash_buf_len : ℕ
hash_buf_len = 65

abbrev pub backup_dir : List ℕ
backup_dir = codes "/opt/satdeploy/backups"

abbrev pub dot_bak : List ℕ
dot_bak = codes ".bak"

-- `compute_file_checksum`; `none` is -1.
unfoldable pub compute_file_checksum : (List ℕ → List ℕ) → List ℕ → Disk → Option (List ℕ)
compute_file_checksum digest path d = elim (find path d) [
  | none ↦ none
  | some f ↦ some (digest f.bytes)
]

-- Whether `fopen` of the destination succeeds, how many bytes the `fwrite` calls take, how many of
-- these the unchecked `fclose` fails to store, and the time and the permissions of a new file.
pub record CopyIo : Type 0 where
  pub opens : Bool
  pub stored : ℕ
  pub lost : ℕ
  pub now : ℕ
  pub mode : ℕ

-- `stat` of the source, and `chmod` of the copy to its permissions.
unfoldable pub chmod_as : List ℕ → List ℕ → Disk → Disk
chmod_as src dst d = elim (find src d) [ none ↦ d | some g ↦ chmod dst g.mode d ]

-- The bytes of a copy, and the copy once it is closed.
unfoldable pub stored_bytes : CopyIo → List ℕ → List ℕ
stored_bytes io bytes = let taken = take io.stored bytes in take (length taken - io.lost) taken

unfoldable pub written : CopyIo → List ℕ → List ℕ → Disk → Disk
written io bytes dst d =
    store dst (record { bytes = stored_bytes io bytes; mtime = io.now; mode = io.mode })
      (unlink dst d)

-- `copy_file`: the destination is removed first.
unfoldable pub copy_file : CopyIo → List ℕ → List ℕ → Disk → Disk × Bool
copy_file io src dst d = elim (find src d) [
  | none ↦ (d, false)
  | some f ↦
      let fout = written io f.bytes dst d in
      if not io.opens
      then (unlink dst d, false)
      else if ltb io.stored (length f.bytes)
      then (fout, false)
      else (chmod_as src dst fout, true)
]

-- The name that `readdir` of `dir` gives for a path, if it lies in it.
unfoldable pub no_slash : List ℕ → Bool
no_slash [] = true
no_slash (c ∷ s) = not (c == 47) && no_slash s

unfoldable pub child_of : List ℕ → List ℕ → Option (List ℕ)
child_of dir path =
    let name = drop (length dir + 1) path in
    if streq (take (length dir + 1) path) (dir ++ (47 ∷ [])) && no_slash name
    then some name
    else none

-- The regular files of a directory, in order.
unfoldable pub read_dir : List ℕ → Disk → List (List ℕ)
read_dir dir [] = []
read_dir dir ((p, f) ∷ d) =
    let rest = read_dir dir d in elim (child_of dir p) [ none ↦ rest | some name ↦ name ∷ rest ]

-- The first name with a suffix.
unfoldable pub with_suffix : List ℕ → List (List ℕ) → Option (List ℕ)
with_suffix suffix [] = none
with_suffix suffix (name ∷ names) =
    let later = with_suffix suffix names in if has_suffix name suffix then some name else later

-- "%s/%s" in a buffer of MAX_PATH_LEN bytes.
abbrev pub join : List ℕ → List ℕ → List ℕ
join dir name = clip max_path_len (dir ++ (47 ∷ name))

-- "%s-%s.bak", and "-%s.bak" in a buffer of HASH_BUF_LEN + 8 bytes.
abbrev pub backup_name : List ℕ → List ℕ → List ℕ
backup_name stamp hash = stamp ++ (45 ∷ (hash ++ dot_bak))

abbrev pub hash_suffix : List ℕ → List ℕ
hash_suffix hash = clip (hash_buf_len + 8) (45 ∷ (hash ++ dot_bak))

-- Whether both directories can be made, the formatted time, and the copy.
pub record CreateIo : Type 0 where
  pub mkdirs : Bool
  pub stamp : List ℕ
  pub copy : CopyIo

-- `backup_create`: the path of the backup, or `none` for -1.
unfoldable pub backup_create :
    (List ℕ → List ℕ) → CreateIo → List ℕ → List ℕ → Disk → Disk × Option (List ℕ)
backup_create digest io app_name src_path d = elim (find src_path d) [
  | none ↦ (d, none)
  | some f ↦
      let hash = digest f.bytes in
      let dir = join backup_dir app_name in
      let backup_path = join dir (backup_name io.stamp hash) in
      let copied = copy_file io.copy src_path backup_path d in
      if not io.mkdirs then (d, none) else elim (with_suffix (hash_suffix hash) (read_dir dir d)) [
        | some name ↦ (d, some (join dir name))
        | none ↦ (copied.0, if copied.1 then some backup_path else none)
      ]
]

-- The permissions of the backup, or 0755 where it has none.
unfoldable pub restore_mode : List ℕ → List ℕ → Disk → Disk
restore_mode backup_path dest_path d = elim (find backup_path d) [
  | none ↦ chmod dest_path 0x1ed d
  | some b ↦ chmod dest_path b.mode d
]

-- `backup_restore`
unfoldable pub backup_restore : CopyIo → List ℕ → List ℕ → Disk → Disk × Bool
backup_restore io backup_path dest_path d =
    let copied = copy_file io backup_path dest_path d in
    elim (find backup_path d) [
      | none ↦ (d, false)
      | some _ ↦
          if not copied.1
          then (copied.0, false)
          else (restore_mode backup_path dest_path copied.0, true)
    ]
