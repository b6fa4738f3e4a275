-- ===== src/Agent/Deploy/Install.antt =====
-- What `handle_deploy` leaves at the path that is deployed to.
use sat_build.Prelude.{
  codes, streq_iff, streq_refl, streq, ℕ, ◌<◌, ◌≡◌, refl, sym, ap, ◌∙◌, ◌⊎◌, inl, inr, Bool, true,
  false, not, Option, none, some, List, ◌++◌, arith, ◌==◌, if◌then◌else◌, ne→==, Bool-cases,
  Option-cases, none≢some, length, length-append, length-take, All,
}
use mathlib.Core.Option.{some-injective}
use mathlib.Core.Path.{subst}
use sat_build.Agent.Disk.{File, Disk, find, unlink, chmod, rename, content, find-unlink, find-store}
use sat_build.Agent.Backups.{CreateIo, compute_file_checksum}
use sat_build.Agent.Backups.Laws.{content-chmod, is_archive, backup_create_frame}
use sat_build.Svu.Session.Client.Keeps.{HonestLink}
use sat_build.Svu.Session.Client.Sound.{IsFile}
use sat_build.Svu.Transfer.Result.{CutIsSeen, svu_download_file-IsFile}
use sat_build.Agent.Deploy.{
  Request, Response, Store, DeployIo, check_skew, check_deploy, backup_current, check_checksum,
  downloaded, fetched, temp_path_of, mode_of, finish, install, handle_deploy,
}

-- The content at a path.
abbrev pub installed : List ℕ → Store → Option (List ℕ)
installed path s = content (find path s.disk)

pub backup_current_frame :
    (digest : List ℕ → List ℕ) (io : CreateIo) (app_name remote_path q : List ℕ) (d : Disk)
    → is_archive q ≡ false
    → find q (backup_current digest io app_name remote_path d).0 ≡ find q d
unfolding backup_current
backup_current_frame digest io app_name remote_path q d outside =
    elim (Option-cases (find remote_path d)) [
      | inl e ↦ rw (e, backup_current) refl
      | inr (f, e) ↦
          rw (e, backup_current) (backup_create_frame digest io app_name remote_path q d outside)
    ]

pub installed-finish :
    (digest : List ℕ → List ℕ) (io : CreateIo) (time : List ℕ) (mode : ℕ)
    (app_name path sum : List ℕ) (q : List ℕ) (s : Store)
    → is_archive q ≡ false
    → installed q (finish digest io time mode app_name path sum s) ≡ installed q s
unfolding finish
installed-finish digest io time mode app_name path sum q s outside =
    rw
      (
        finish,
        backup_create_frame digest io app_name path q (chmod path (mode_of mode) s.disk) outside,
      )
      (content-chmod path (mode_of mode) q s.disk)

-- Where the digest's test refuses nothing, the file has the expected digest.
pub check_checksum_cases :
    (digest : List ℕ → List ℕ) (expected path : List ℕ) (d : Disk)
    → 0 < length expected
    → check_checksum digest expected path d ≡ none
    → (f : File) × (find path d ≡ some f) × (digest f.bytes ≡ expected)
unfolding check_checksum compute_file_checksum
check_checksum_cases digest expected path d pos e =
    let some_digest = ne→== (length expected) 0 (omega arith) in
    elim (Option-cases (find path d)) [
      | inl missing ↦
          absurd (
            ground (arith, (rw (missing, check_checksum, compute_file_checksum, some_digest) at e)))
      | inr (f, found) ↦
          let r = rw (found, check_checksum, compute_file_checksum, some_digest) at e in
          (f, found, ground (arith, r, streq_iff (digest f.bytes) expected))
    ]

find-fetched :
    (io : DeployIo) (temp : List ℕ) (got : Option (List ℕ)) (q : List ℕ) (d : Disk)
    → streq temp q ≡ false
    → find q (fetched io temp got d).0 ≡ find q d
unfolding fetched
find-fetched io temp none q d other = elim (Option-cases io.left) [
  | inl e ↦ rw e refl
  | inr (f, e) ↦ rw (e, find-store temp f q d, other) refl
]
find-fetched io temp (some payload) q d other =
    rw (find-store temp (record { bytes = payload; mtime = io.now; mode = io.mode }) q d, other)
      refl

apart_temp : (path : List ℕ) → length path < 508 → streq (temp_path_of path) path ≡ false
apart_temp path small = elim (Bool-cases (streq (temp_path_of path) path)) [
  | inr other ↦ other
  | inl same ↦ absurd (
      omega (
        arith,
        ap length ((streq_iff (temp_path_of path) path).0 same),
        length-take 511 (path ++ codes ".tmp"),
        length-append path (codes ".tmp"),
      ))
]

find-rename :
    (from to : List ℕ) (d d' : Disk) (f : File)
    → find from d ≡ some f
    → rename from to d ≡ some d'
    → find to d' ≡ some f
unfolding rename
find-rename from to d d' f e r =
    let same = some-injective _ _ (rw (e, rename) at r) in
    rw (← same, find-store to f to (unlink from d), streq_refl to) refl

if_some-eq {ℓ} :
    {A : Type ℓ} {a : A} (b : Bool) (o : Option A) → (if b then o else none) ≡ some a → o ≡ some a
if_some-eq true o e = e
if_some-eq false o e = absurd (none≢some e)

-- An error, and what is installed stays.
abbrev pub IsKept : List ℕ → Store → Store × Response → Type 0
IsKept path s r = (r.1.success ≡ false) × (installed path r.0 ≡ installed path s)

-- A success, and some bytes with the digest are installed.
abbrev pub IsInstalled : (List ℕ → List ℕ) → List ℕ → List ℕ → List ℕ → Store × Response → Type 0
IsInstalled digest sum path bytes r =
    (r.1.success ≡ true) × ((digest bytes ≡ sum) × (installed path r.0 ≡ some bytes))

-- What the part behind the download does, where the temporary path is another one.
install_cases :
    (digest : List ℕ → List ℕ) (io : DeployIo) (req : Request) (temp backup : List ℕ) (s : Store)
    → streq temp req.remote_path ≡ false
    → is_archive req.remote_path ≡ false
    → 0 < length req.expected_checksum
    → let r = install digest io req temp backup s in
      IsKept req.remote_path s r
      ⊎ ((f : File) × (find temp s.disk ≡ some f)
          × IsInstalled digest req.expected_checksum req.remote_path f.bytes r)
unfolding install
install_cases digest io req temp backup s other outside pos =
    let dropped : installed req.remote_path (record s { disk = unlink temp s.disk })
        ≡ installed req.remote_path s =
      rw (find-unlink temp req.remote_path s.disk, other) refl in
    elim (Option-cases (check_checksum digest req.expected_checksum temp s.disk)) [
      | inr (refusal, e) ↦ rw (e, install) (inl (refl, dropped))
      | inl e ↦
          (elim (Option-cases (if io.renames then rename temp req.remote_path s.disk else none)) [
            | inl failed ↦ rw (e, install, failed) (inl (refl, dropped))
            | inr (d', renamed) ↦
                let (f, found, sum) =
                  check_checksum_cases digest req.expected_checksum temp s.disk pos e in
                rw (e, install, renamed)
                  (inr (
                    f,
                    found,
                    (
                      refl,
                      (
                        sum,
                        installed-finish digest io.after io.time req.file_mode req.app_name
                              req.remote_path req.expected_checksum req.remote_path
                              (record s { disk = d' }) outside
                            ∙ ap content (
                                find-rename temp req.remote_path s.disk d' f found (
                                  if_some-eq io.renames (rename temp req.remote_path s.disk)
                                    renamed)),
                      ),
                    ),
                  ))
          ])
    ]

pub check_skew_lem : (sum : List ℕ) → check_skew sum ≡ none → length sum ≡ 64
unfolding check_skew
check_skew_lem sum e = ground (arith, e)

check_deploy_lem : (req : Request) → check_deploy req ≡ none → length req.expected_checksum ≡ 64
unfolding check_deploy
check_deploy_lem req e = ground (arith, e, check_skew_lem req.expected_checksum)

find-stored :
    (io : DeployIo) (temp bytes : List ℕ) (d : Disk)
    → find temp (fetched io temp (some bytes) d).0
      ≡ some (record { bytes = bytes; mtime = io.now; mode = io.mode })
unfolding fetched
find-stored io temp bytes d =
    rw
      (
        find-store temp (record { bytes = bytes; mtime = io.now; mode = io.mode }) temp d,
        streq_refl temp,
      )
      refl

-- `handle_deploy` either answers with an error and leaves the file at the path as it was, or it
-- answers with success and installs what the download wrote, which has the expected digest. The path
-- has less than 508 bytes, for the name of the temporary file, and is not one of a backup.
pub handle_deploy_cases :
    (digest : List ℕ → List ℕ) (io : DeployIo) (req : Request) (s : Store)
    → length req.remote_path < 508
    → is_archive req.remote_path ≡ false
    → let r = handle_deploy digest io req s in
      IsKept req.remote_path s r
      ⊎ ((bytes : List ℕ) × (downloaded io req (temp_path_of req.remote_path) ≡ some bytes)
          × IsInstalled digest req.expected_checksum req.remote_path bytes r)
unfolding handle_deploy fetched
handle_deploy_cases digest io req s small outside =
    let path = req.remote_path in
    let temp = temp_path_of path in
    let other = apart_temp path small in
    let saved = backup_current digest io.before req.app_name path s.disk in
    let kept =
      ap content (backup_current_frame digest io.before req.app_name path path s.disk outside) in
    elim (Option-cases (check_deploy req)) [
      | inr (refusal, e) ↦ rw (e, handle_deploy) (inl (refl, refl))
      | inl fine ↦ elim (Option-cases saved.1) [
        | inl failed ↦ rw (fine, handle_deploy, failed) (inl (refl, kept))
        | inr (backup, e) ↦ elim (Option-cases (downloaded io req temp)) [
          | inl lost ↦
              rw (fine, handle_deploy, e, lost)
                (inl (refl, ap content (find-fetched io temp none path saved.0 other) ∙ kept))
          | inr (bytes, got) ↦
              rw (fine, handle_deploy, e, got)
                (elim (install_cases digest io req temp backup
                  (record s { disk = (fetched io temp (some bytes) saved.0).0 }) other outside
                  (omega (arith, check_deploy_lem req fine))) [
                    | inl (failed, same) ↦ inl (
                      failed,
                      same
                          ∙ ap content (find-fetched io temp (some bytes) path saved.0 other)
                          ∙ kept,
                    )
                    | inr (f, found, done) ↦ inr (
                      bytes,
                      refl,
                      subst
                          (λ b. IsInstalled digest req.expected_checksum path b (
                            install digest io req temp backup
                              (record s { disk = (fetched io temp (some bytes) saved.0).0 })))
                          (some-injective _ _ (
                            sym (ap content found)
                            ∙ ap content (find-stored io temp bytes saved.0)))
                          done,
                    )
                  ])
        ]
      ]
    ]

-- A deploy that answers with success over a link whose control answers describe a file has
-- installed that file, with the expected digest, or shows a block with two contents of one digest.
-- The path has less than 508 bytes and is not one of a backup; and the unchecked `fwrite` has room
-- for the file, or the request states its size.
pub handle_deploy-IsFile :
    (src : List ℕ) (digest : List ℕ → List ℕ) (io : DeployIo) (req : Request) (s : Store)
    → length req.remote_path < 508
    → is_archive req.remote_path ≡ false
    → All (HonestLink src) io.links
    → CutIsSeen src io.outfile req.expected_size
    → (handle_deploy digest io req s).1.success ≡ true
    → (bytes : List ℕ) × IsFile src bytes
      × (digest bytes ≡ req.expected_checksum)
      × (installed req.remote_path (handle_deploy digest io req s).0 ≡ some bytes)
unfolding downloaded
handle_deploy-IsFile src digest io req s small outside honest seen ok =
    elim (handle_deploy_cases digest io req s small outside) [
      | inl (failed, same) ↦ absurd (ground (arith, failed, ok))
      | inr (bytes, got, done) ↦
          let temp = temp_path_of req.remote_path in
          let file =
            svu_download_file-IsFile src (not (length temp == 0)) req.dtp_server_node
              req.expected_size req.dtp_mtu io.usable io.sidecar io.outfile io.stats io.links bytes
              honest seen got in
          (bytes, file.0, done.1.0, done.1.1)
    ]
