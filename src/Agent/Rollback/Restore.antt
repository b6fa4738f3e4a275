-- ===== src/Agent/Rollback/Restore.antt =====
-- What `handle_rollback` restores.
use sat_build.Prelude.{
  ℕ, ◌≡◌, refl, inl, inr, true, Option, some, List, [], arith, ◌==◌, Bool-cases, Option-cases,
  length,
}
use mathlib.Core.Path.{subst}
use sat_build.Agent.Disk.{File, find}
use sat_build.Agent.Backups.{compute_file_checksum, backup_restore}
use sat_build.Agent.Backups.Laws.{backup_restore_content}
use sat_build.Agent.Backups.Names.{backup_list}
use sat_build.Agent.Deploy.{Request, Store}
use sat_build.Agent.Deploy.Install.{installed}
use sat_build.Agent.Rollback.{
  DialEntry, rollback_collect, select_backup, rollback_path, or_empty, RollbackIo, keep_current,
  restore_selected, handle_rollback,
}

-- The entries, the digest of the installed file, the selection, and the files behind the backup of
-- the installed version.
abbrev pub chosen : (List ℕ → List ℕ) → Request → Store → List DialEntry × Option DialEntry
chosen digest req s =
    select_backup req.rollback_hash
      (or_empty (compute_file_checksum digest (rollback_path req s.apps) s.disk))
      (rollback_collect s.disk [] (backup_list req.app_name s.disk))

abbrev pub kept : (List ℕ → List ℕ) → RollbackIo → Request → Store → Store
kept digest io req s = record s {
  disk =
      keep_current digest io.before req (rollback_path req s.apps)
        (or_empty (compute_file_checksum digest (rollback_path req s.apps) s.disk))
        (chosen digest req s).0 s.disk;
}

rolled :
    (digest : List ℕ → List ℕ) (io : RollbackIo) (req : Request) (s : Store)
    → (handle_rollback digest io req s).1.success ≡ true
    → (e : DialEntry) × ((chosen digest req s).1 ≡ some e)
      × (handle_rollback digest io req s
          ≡ restore_selected io req (rollback_path req s.apps) e (kept digest io req s))
unfolding handle_rollback
rolled digest io req s ok =
    let entries = rollback_collect s.disk [] (backup_list req.app_name s.disk) in
    elim (Bool-cases (length req.app_name == 0)) [
      | inl unnamed ↦ absurd (ground (arith, (simp (unnamed, handle_rollback) at ok)))
      | inr named ↦ elim (Bool-cases (length (rollback_path req s.apps) == 0)) [
        | inl nowhere ↦ absurd (ground (arith, (simp (named, nowhere, handle_rollback) at ok)))
        | inr known ↦ elim (Bool-cases (length entries == 0)) [
          | inl empty ↦ absurd (ground (arith, (simp (named, known, empty, handle_rollback) at ok)))
          | inr full ↦ elim (Option-cases (chosen digest req s).1) [
            | inl unlisted ↦
                absurd
                  (ground (arith, (simp (named, known, full, unlisted, handle_rollback) at ok)))
            | inr (e, listed) ↦ (e, listed, simp (named, known, full, listed, handle_rollback) refl)
          ]
        ]
      ]
    ]

restore_selected_lem :
    (io : RollbackIo) (req : Request) (path : List ℕ) (e : DialEntry) (s : Store)
    → io.copy.lost ≡ 0
    → (restore_selected io req path e s).1.success ≡ true
    → (f : File) × (find e.path s.disk ≡ some f)
      × (installed path (restore_selected io req path e s).0 ≡ some f.bytes)
unfolding restore_selected
restore_selected_lem io req path e s whole ok =
    elim (Bool-cases (backup_restore io.copy e.path path s.disk).1) [
      | inr failed ↦ absurd (ground (arith, (simp (failed, restore_selected) at ok)))
      | inl done ↦
          let (f, found, placed) = backup_restore_content io.copy e.path path s.disk whole done in
          (f, found, simp (done, restore_selected) placed)
    ]

-- A rollback that answers with success has selected a backup, whose file was there once the
-- installed version was kept, and the path has its bytes, if `fclose` of the copy loses nothing.
pub handle_rollback_installs :
    (digest : List ℕ → List ℕ) (io : RollbackIo) (req : Request) (s : Store)
    → io.copy.lost ≡ 0
    → (handle_rollback digest io req s).1.success ≡ true
    → (e : DialEntry) × ((chosen digest req s).1 ≡ some e)
      × (f : File) × (find e.path (kept digest io req s).disk ≡ some f)
      × (installed (rollback_path req s.apps) (handle_rollback digest io req s).0 ≡ some f.bytes)
handle_rollback_installs digest io req s whole ok =
    let (e, listed, same) = rolled digest io req s ok in
    let (f, found, placed) =
      restore_selected_lem io req (rollback_path req s.apps) e (kept digest io req s) whole
        (subst (λ r. r.1.success ≡ true) same ok) in
    (e, listed, f, found, rw same placed)
