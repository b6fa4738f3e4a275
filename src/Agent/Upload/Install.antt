-- ===== src/Agent/Upload/Install.antt =====
-- What `handle_upload_end` installs.
use sat_build.Prelude.{
  clip, streq, ℕ, ◌<◌, ◌≡◌, refl, sym, ap, ◌∙◌, ◌⊎◌, inl, inr, Bool, true, false, none, some, List,
  arith, Bool-cases, Option-cases, length, take_all, u32_mod, All,
}
use mathlib.Core.Option.{some-injective}
use mathlib.Core.Path.{subst}
use sat_build.Agent.Disk.{File, Disk, find, unlink, content, find-unlink}
use sat_build.Agent.Backups.{max_path_len, copy_file}
use sat_build.Agent.Backups.Laws.{is_archive, copy_file_content}
use sat_build.Agent.Deploy.{check_checksum, Request, Store, backup_current}
use sat_build.Agent.Deploy.Install.{
  installed, backup_current_frame, installed-finish, check_checksum_cases, check_skew_lem,
}
use sat_build.Agent.Upload.{
  Session, State, EndIo, check_start, upload_path, check_received, install_upload,
  handle_upload_start, handle_upload_end,
}
use sat_build.Agent.Upload.Assembly.{
  start-IsAssembled, deliver-IsAssembled, deliver-SameTarget, prefix_of, deliver,
}

install_upload_lem :
    (digest : List ℕ → List ℕ) (io : EndIo) (backup : List ℕ) (s : State) (f : File)
    → streq s.session.temp_path s.session.remote_path ≡ false
    → is_archive s.session.remote_path ≡ false
    → find s.session.temp_path s.store.disk ≡ some f
    → io.copy.lost ≡ 0
    → (install_upload digest io backup s).1.success ≡ true
    → installed s.session.remote_path (install_upload digest io backup s).0.store ≡ some f.bytes
unfolding install_upload
install_upload_lem digest io backup s f other outside found whole ok = elim (Bool-cases io.parent) [
  | inr unmade ↦ absurd (ground (arith, (simp (unmade, install_upload) at ok)))
  | inl made ↦
      (elim (Bool-cases
        (copy_file io.copy s.session.temp_path s.session.remote_path s.store.disk).1) [
          | inr failed ↦ absurd (ground (arith, (simp (made, failed, install_upload) at ok)))
          | inl copied ↦
              (let path = s.session.remote_path in
                let temp = s.session.temp_path in
                let c = copy_file io.copy temp path s.store.disk in
                let (g, at_temp, at_path) =
                  copy_file_content io.copy temp path s.store.disk whole copied in
                let same : g.bytes ≡ f.bytes =
                  ap (λ (x : File). x.bytes) (some-injective _ _ (sym at_temp ∙ found)) in
                let cleaned : Store = record s.store { disk = unlink temp c.0 } in
                let left : installed path cleaned ≡ some f.bytes =
                  rw (find-unlink temp path c.0, other, at_path, same) refl in
                simp (made, copied, install_upload)
                  (installed-finish digest io.after io.time s.session.file_mode s.session.app_name
                      path s.session.expected_checksum path cleaned outside
                    ∙ left))
        ])
]

-- What the size test lets through.
abbrev pub SizeMatches : ℕ → ℕ → Type 0
SizeMatches expected received = (expected ≡ 0) ⊎ (received ≡ expected)

check_received_lem :
    (digest : List ℕ → List ℕ) (session : Session) (d : Disk)
    → check_received digest session d ≡ none
    → SizeMatches session.expected_size session.received_size
      × (check_checksum digest session.expected_checksum session.temp_path d ≡ none)
unfolding check_received
check_received_lem digest session d e = ground (arith, e)

abbrev closed : State → State
closed s = record s { session = record s.session { temp_file = false } }

-- The state behind the first backup.
abbrev kept : (List ℕ → List ℕ) → EndIo → State → State
kept digest io s = record (closed s) {
  store = record s.store {
    disk =
        (backup_current digest io.before s.session.app_name s.session.remote_path s.store.disk).0;
  };
}

-- An end that succeeds passes the tests and the first backup.
passed :
    (digest : List ℕ → List ℕ) (io : EndIo) (s : State)
    → (handle_upload_end digest io s).1.success ≡ true
    → (check_received digest (closed s).session s.store.disk ≡ none)
      × (backup : List ℕ) × (handle_upload_end digest io s
          ≡ install_upload digest io backup (kept digest io s))
unfolding handle_upload_end install_upload check_received
passed digest io s ok =
    let saved =
      backup_current digest io.before s.session.app_name s.session.remote_path s.store.disk in
    elim (Bool-cases s.session.active) [
      | inr idle ↦ absurd (ground (arith, (simp (idle, handle_upload_end) at ok)))
      | inl busy ↦ elim (Option-cases (check_received digest (closed s).session s.store.disk)) [
        | inr (refusal, e) ↦ absurd (ground (arith, (simp (busy, e, handle_upload_end) at ok)))
        | inl fine ↦ elim (Option-cases saved.1) [
          | inl failed ↦
              absurd (ground (arith, (simp (busy, fine, failed, handle_upload_end) at ok)))
          | inr (backup, e) ↦ (fine, backup, simp (busy, fine, e, handle_upload_end) refl)
        ]
      ]
    ]

-- An end of an upload that answers with success has compared the sizes, where one is expected, and
-- has installed the bytes of the temporary file, which have the expected digest. The digest has 64
-- bytes, neither path is one of a backup, and they differ; and `fclose` of the copy loses nothing.
pub handle_upload_end_installs :
    (digest : List ℕ → List ℕ) (io : EndIo) (s : State)
    → length s.session.expected_checksum ≡ 64
    → streq s.session.temp_path s.session.remote_path ≡ false
    → is_archive s.session.remote_path ≡ false
    → is_archive s.session.temp_path ≡ false
    → io.copy.lost ≡ 0
    → (handle_upload_end digest io s).1.success ≡ true
    → (f : File) × (find s.session.temp_path s.store.disk ≡ some f)
      × (digest f.bytes ≡ s.session.expected_checksum)
      × SizeMatches s.session.expected_size s.session.received_size
      × (installed s.session.remote_path (handle_upload_end digest io s).0.store ≡ some f.bytes)
handle_upload_end_installs digest io s long other outside temp_outside whole ok =
    let (fine, backup, e) = passed digest io s ok in
    let sound = check_received_lem digest (closed s).session s.store.disk fine in
    let (f, found, sum) =
      check_checksum_cases digest s.session.expected_checksum s.session.temp_path s.store.disk
        (omega arith) sound.1 in
    let still =
      backup_current_frame digest io.before s.session.app_name s.session.remote_path
        s.session.temp_path s.store.disk temp_outside in
    let placed =
      install_upload_lem digest io backup (kept digest io s) f other outside (still ∙ found) whole
        (subst (λ r. r.1.success ≡ true) e ok) in
    (f, found, sum, sound.0, rw e placed)

start_checked :
    (opens : Bool) (now mode : ℕ) (req : Request) (s : State)
    → (handle_upload_start opens now mode req s).1.success ≡ true
    → check_start req ≡ none
unfolding handle_upload_start
start_checked opens now mode req s ok = elim (Option-cases (check_start req)) [
  | inl fine ↦ fine
  | inr (refusal, e) ↦ absurd (ground (arith, (simp (e, handle_upload_start) at ok)))
]

start_checksum : (req : Request) → check_start req ≡ none → length req.expected_checksum ≡ 64
unfolding check_start
start_checksum req e = ground (arith, e, check_skew_lem req.expected_checksum)

upload_path_outside : (app_name : List ℕ) → is_archive (upload_path app_name) ≡ false
unfolding streq
upload_path_outside app_name = refl

-- The state behind a start and chunk requests, and that with the answer of an end.
abbrev pub uploading : Bool → ℕ → ℕ → Request → List Request → State → State
uploading opens now mode req reqs s = deliver reqs (handle_upload_start opens now mode req s).0

-- A whole upload, from a start that succeeds over chunk requests in any order and any number to an
-- end that succeeds: what is installed at the path, cut to 511 bytes, are the first chunks one after
-- the other, as many as the session counts, and they have the digest that the start named. Each
-- request has the bytes of its chunk and is stored in full, there are fewer than 2^32 of them, and
-- the path is not one of a backup and not the temporary one; and `fclose` of the copy loses nothing.
pub upload_installs :
    (digest : List ℕ → List ℕ) (chunks : ℕ → List ℕ) (opens : Bool) (now mode : ℕ) (req : Request)
    (reqs : List Request) (io : EndIo) (s : State)
    → All (λ r. r.chunk_data ≡ chunks r.chunk_seq) reqs
    → length reqs < u32_mod
    → streq (upload_path req.app_name) (clip max_path_len req.remote_path) ≡ false
    → is_archive (clip max_path_len req.remote_path) ≡ false
    → io.copy.lost ≡ 0
    → (handle_upload_start opens now mode req s).1.success ≡ true
    → let t = uploading opens now mode req reqs s in
      let r = handle_upload_end digest io t in
      r.1.success ≡ true
      → let bytes = prefix_of chunks t.session.next_chunk in
        (digest bytes ≡ req.expected_checksum)
        × (installed (clip max_path_len req.remote_path) r.0.store ≡ some bytes)
upload_installs digest chunks opens now mode req reqs io s honest few other outside unlost started
      ended =
    let first = start-IsAssembled chunks opens now mode req s started in
    let s1 = (handle_upload_start opens now mode req s).0 in
    let t = uploading opens now mode req reqs s in
    let held =
      deliver-IsAssembled chunks reqs s1 honest
        (omega (arith, ap (λ (x : Session). x.next_chunk) first.1)) first.0 in
    let same = deliver-SameTarget reqs s1 in
    let long = start_checksum req (start_checked opens now mode req s started) in
    let sum : t.session.expected_checksum ≡ req.expected_checksum =
      same.expected_checksum
      ∙ ap (λ (x : Session). x.expected_checksum) first.1
      ∙ take_all 64 req.expected_checksum (omega arith) in
    let path : t.session.remote_path ≡ clip max_path_len req.remote_path =
      same.remote_path ∙ ap (λ (x : Session). x.remote_path) first.1 in
    let temp : t.session.temp_path ≡ upload_path req.app_name =
      same.temp_path ∙ ap (λ (x : Session). x.temp_path) first.1 in
    let (f, found, digested, sized, placed) =
      handle_upload_end_installs digest io t (rw sum long) (rw (temp, path) other) (rw path outside)
        (rw temp (upload_path_outside req.app_name)) unlost ended in
    let whole : f.bytes ≡ prefix_of chunks t.session.next_chunk =
      some-injective _ _ (sym (ap content found) ∙ held.held) in
    (ap digest (sym whole) ∙ digested ∙ sum, rw⁻¹ (path, whole) placed)
