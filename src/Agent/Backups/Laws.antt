-- ===== src/Agent/Backups/Laws.antt =====
-- What the copies of backup_manager.c leave at every path.
use sat_build.Prelude.{
  streq_iff, streq_refl, streq, has_suffix, ℕ, ◌-◌, ◌≤◌, ◌<◌, ◌≡◌, refl, sym, ap, ◌∙◌, inl, inr,
  Bool, true, false, Option, some, List, [], ◌∷◌, ◌++◌, arith, ltb, if◌then◌else◌, ltb→le,
  Bool-cases, Option-cases, length, take, length-append, take_all,
}
use mathlib.Core.Option.{some-injective}
use sat_build.Agent.Disk.{
  File, Disk, find, unlink, chmod, content, find-unlink, find-store, find-chmod,
}
use sat_build.Agent.Backups.Known.{with_suffix-read_dir}
use sat_build.Agent.Backups.{
  dot_bak, max_path_len, CopyIo, chmod_as, stored_bytes, written, copy_file, CreateIo,
  backup_create, restore_mode, backup_restore, with_suffix, hash_suffix, read_dir, join, backup_dir,
  backup_name,
}

-- What is at a path is the same but for its permissions.
abbrev pub SameFile : Option File → Option File → Type 0
SameFile f g = content f ≡ content g

pub content-chmod :
    (path : List ℕ) (mode : ℕ) (q : List ℕ) (d : Disk)
    → content (find q (chmod path mode d)) ≡ content (find q d)
content-chmod path mode q d = ground (arith, find-chmod path mode q d)

chmod_as_frame :
    (src dst q : List ℕ) (d : Disk) → streq dst q ≡ false → find q (chmod_as src dst d) ≡ find q d
unfolding chmod_as
chmod_as_frame src dst q d other = elim (Option-cases (find src d)) [
  | inl e ↦ rw (e, chmod_as) refl
  | inr (g, e) ↦ rw (e, chmod_as, find-chmod dst g.mode q d, other) refl
]

content-chmod_as :
    (src dst q : List ℕ) (d : Disk) → content (find q (chmod_as src dst d)) ≡ content (find q d)
unfolding chmod_as
content-chmod_as src dst q d = elim (Option-cases (find src d)) [
  | inl e ↦ rw (e, chmod_as) refl
  | inr (g, e) ↦ rw (e, chmod_as) (content-chmod dst g.mode q d)
]

find-written :
    (io : CopyIo) (bytes dst q : List ℕ) (d : Disk)
    → find q (written io bytes dst d) ≡ (
        if streq dst q
        then some (record { bytes = stored_bytes io bytes; mtime = io.now; mode = io.mode })
        else find q d)
unfolding written
find-written io bytes dst q d = ground (
  arith,
  find-store dst (record { bytes = stored_bytes io bytes; mtime = io.now; mode = io.mode }) q
      (unlink dst d),
  find-unlink dst q d,
)

-- A copy changes nothing but its destination.
pub copy_file_frame :
    (io : CopyIo) (src dst q : List ℕ) (d : Disk)
    → streq dst q ≡ false
    → find q (copy_file io src dst d).0 ≡ find q d
unfolding copy_file
copy_file_frame io src dst q d other = elim (Option-cases (find src d)) [
  | inl e ↦ rw (e, copy_file) refl
  | inr (f, e) ↦
      rw (e, copy_file)
        (ground (
          arith,
          find-unlink dst q d,
          find-written io f.bytes dst q d,
          chmod_as_frame src dst q (written io f.bytes dst d) other,
        ))
]

-- A copy that nothing is lost of is whole.
stored_bytes_whole :
    (io : CopyIo) (bytes : List ℕ)
    → io.lost ≡ 0
    → ltb io.stored (length bytes) ≡ false
    → stored_bytes io bytes ≡ bytes
unfolding stored_bytes
stored_bytes_whole io bytes kept all =
    rw (take_all io.stored bytes (ltb→le io.stored (length bytes) all), kept)
      (take_all (length bytes - 0) bytes (omega arith))

content-written :
    (io : CopyIo) (src bytes dst : List ℕ) (d : Disk)
    → io.lost ≡ 0
    → ltb io.stored (length bytes) ≡ false
    → content (find dst (chmod_as src dst (written io bytes dst d))) ≡ some bytes
content-written io src bytes dst d kept all =
    rw
      (
        content-chmod_as src dst dst (written io bytes dst d),
        find-written io bytes dst dst d,
        streq_refl dst,
        stored_bytes_whole io bytes kept all,
      )
      refl

copy_found :
    (io : CopyIo) (src dst : List ℕ) (d : Disk) (f : File)
    → io.lost ≡ 0
    → find src d ≡ some f
    → (copy_file io src dst d).1 ≡ true
    → content (find dst (copy_file io src dst d).0) ≡ some f.bytes
unfolding copy_file written stored_bytes
copy_found io src dst d f whole e ok =
    let r = rw (e, copy_file) at ok in
    rw (e, copy_file)
      (elim (Bool-cases io.opens) [
        | inr shut ↦ absurd (ground (arith, shut, r))
        | inl opens ↦ elim (Bool-cases (ltb io.stored (length f.bytes))) [
          | inl short ↦ absurd (ground (arith, opens, short, r))
          | inr all ↦ rw (opens, all) (content-written io src f.bytes dst d whole all)
        ]
      ])

-- A copy that succeeds, and of which nothing is lost, had a source, and leaves its bytes at the
-- destination.
pub copy_file_content :
    (io : CopyIo) (src dst : List ℕ) (d : Disk)
    → io.lost ≡ 0
    → (copy_file io src dst d).1 ≡ true
    → (f : File) × (find src d ≡ some f)
      × (content (find dst (copy_file io src dst d).0) ≡ some f.bytes)
unfolding copy_file
copy_file_content io src dst d whole ok = elim (Option-cases (find src d)) [
  | inl e ↦ absurd (ground (arith, (rw (e, copy_file) at ok)))
  | inr (f, e) ↦ (f, e, copy_found io src dst d f whole e ok)
]

content-restore_mode :
    (src dst q : List ℕ) (d : Disk) → content (find q (restore_mode src dst d)) ≡ content (find q d)
unfolding restore_mode
content-restore_mode src dst q d = elim (Option-cases (find src d)) [
  | inl e ↦ rw (e, restore_mode) (content-chmod dst 0x1ed q d)
  | inr (g, e) ↦ rw (e, restore_mode) (content-chmod dst g.mode q d)
]

-- A restoration that succeeds, and of whose copy nothing is lost, leaves the backup's bytes at the destination, and one that finds no
-- backup changes nothing.
pub backup_restore_content :
    (io : CopyIo) (backup_path dest_path : List ℕ) (d : Disk)
    → io.lost ≡ 0
    → let r = backup_restore io backup_path dest_path d in
      r.1 ≡ true
      → (f : File) × (find backup_path d ≡ some f) × (content (find dest_path r.0) ≡ some f.bytes)
unfolding backup_restore
backup_restore_content io backup_path dest_path d whole ok =
    elim (Option-cases (find backup_path d)) [
      | inl e ↦ absurd (ground (arith, (rw (e, backup_restore) at ok)))
      | inr (f, e) ↦
          let r = rw (e, backup_restore) at ok in
          (
            f,
            e,
            rw (e, backup_restore)
                (elim (Bool-cases (copy_file io backup_path dest_path d).1) [
                  | inr failed ↦ absurd (ground (arith, failed, r))
                  | inl copied ↦
                      rw
                        (
                          copied,
                          content-restore_mode backup_path dest_path dest_path
                              (copy_file io backup_path dest_path d).0,
                        )
                        (copy_found io backup_path dest_path d f whole e copied)
                ]),
          )
    ]

-- Whether a path lies under the backups.
abbrev pub is_archive : List ℕ → Bool
is_archive path = streq (take 23 path) (backup_dir ++ (47 ∷ []))

archive_path : (app name : List ℕ) → is_archive (join (join backup_dir app) name) ≡ true
unfolding streq
archive_path app name = refl

apart : (path q : List ℕ) → is_archive path ≡ true → is_archive q ≡ false → streq path q ≡ false
apart path q h k = elim (Bool-cases (streq path q)) [
  | inr other ↦ other
  | inl same ↦ absurd (ground (arith, k, (rw ((streq_iff path q).0 same) at h)))
]

-- A backup changes nothing outside the directory of the backups.
pub backup_create_frame :
    (digest : List ℕ → List ℕ) (io : CreateIo) (app_name src_path q : List ℕ) (d : Disk)
    → is_archive q ≡ false
    → find q (backup_create digest io app_name src_path d).0 ≡ find q d
unfolding backup_create
backup_create_frame digest io app_name src_path q d outside =
    elim (Option-cases (find src_path d)) [
      | inl e ↦ rw (e, backup_create) refl
      | inr (f, e) ↦
          let dir = join backup_dir app_name in
          let path = join dir (backup_name io.stamp (digest f.bytes)) in
          let same = copy_file_frame io.copy src_path path q d (
            apart path q (archive_path app_name (backup_name io.stamp (digest f.bytes))) outside) in
          rw (e, backup_create)
            (elim (Option-cases (with_suffix (hash_suffix (digest f.bytes)) (read_dir dir d))) [
              | inl fresh ↦ rw fresh (ground (arith, same))
              | inr (name, known) ↦ rw known (ground arith)
            ])
    ]

-- The end of the name of a backup with a digest, where the digest has at most 64 bytes.
hash_suffix_lem : (hash : List ℕ) → length hash ≤ 64 → hash_suffix hash ≡ 45 ∷ (hash ++ dot_bak)
hash_suffix_lem hash short = take_all 72 _ (omega (arith, length-append hash dot_bak))

-- A backup that succeeds has a source, and leaves at the path that it returns bytes with the digest
-- of the source's: if `fclose` of a copy loses nothing, digests have at most 64 bytes, paths on the disk less than 512, and each file
-- in the app's directory of backups whose name ends with the source's digest has that digest.
pub backup_create_keeps :
    (digest : List ℕ → List ℕ) (io : CreateIo) (app_name src_path path : List ℕ) (d : Disk)
    → io.copy.lost ≡ 0
    → ((bytes : List ℕ) → length (digest bytes) ≤ 64)
    → ((q : List ℕ) (g : File) → find q d ≡ some g → length q < max_path_len)
    → ((f : File) (name : List ℕ) (g : File)
        → find src_path d ≡ some f
        → find (join backup_dir app_name ++ (47 ∷ name)) d ≡ some g
        → has_suffix name (45 ∷ (digest f.bytes ++ dot_bak)) ≡ true
        → digest g.bytes ≡ digest f.bytes)
    → (backup_create digest io app_name src_path d).1 ≡ some path
    → (f : File) × (find src_path d ≡ some f)
      × (kept : List ℕ) × (content (find path (backup_create digest io app_name src_path d).0)
          ≡ some kept)
      × (digest kept ≡ digest f.bytes)
unfolding backup_create
backup_create_keeps digest io app_name src_path path d unlost short paths intact ok =
    elim (Option-cases (find src_path d)) [
      | inl e ↦ absurd (ground (arith, (simp (e, backup_create) at ok)))
      | inr (f, e) ↦
          let hash = digest f.bytes in
          let dir = join backup_dir app_name in
          let fresh_path = join dir (backup_name io.stamp hash) in
          let copied = copy_file io.copy src_path fresh_path d in
          (elim (Bool-cases io.mkdirs) [
            | inr unmade ↦ absurd (ground (arith, (simp (e, unmade, backup_create) at ok)))
            | inl made ↦ elim (Option-cases (with_suffix (hash_suffix hash) (read_dir dir d))) [
              | inr (name, known) ↦
                  let (ends, (g, there)) =
                    with_suffix-read_dir (hash_suffix hash) dir d name known in
                  let sum =
                    intact f name g e there
                      (ap (has_suffix name) (sym (hash_suffix_lem hash (short f.bytes))) ∙ ends) in
                  let whole : join dir name ≡ dir ++ (47 ∷ name) =
                    take_all (max_path_len - 1) _ (omega (arith, paths _ g there)) in
                  let at_path : join dir name ≡ path =
                    some-injective _ _ (simp (e, made, known, backup_create) at ok) in
                  (
                    f,
                    e,
                    g.bytes,
                    simp (e, made, known, backup_create)
                        (sym (ap (λ p. content (find p d)) (sym whole ∙ at_path))
                          ∙ ap content there),
                    sum,
                  )
              | inl new ↦ elim (Bool-cases copied.1) [
                | inr failed ↦
                    absurd (ground (arith, (simp (e, made, new, failed, backup_create) at ok)))
                | inl done ↦
                    let at_path : fresh_path ≡ path =
                      some-injective _ _ (simp (e, made, new, done, backup_create) at ok) in
                    (
                      f,
                      e,
                      f.bytes,
                      simp (e, made, new, backup_create)
                          (sym (ap (λ p. content (find p copied.0)) at_path)
                            ∙ copy_found io.copy src_path fresh_path d f unlost e done),
                      refl,
                    )
              ]
            ]
          ])
    ]
