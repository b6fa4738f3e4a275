-- ===== src/Agent/Query/Safety.antt =====
-- The shell command of `handle_logs`, and the array of `handle_list_versions`.
use sat_build.Prelude.{
  ℕ, ◌≤◌, ◌<◌, ◌≡◌, refl, ◌↔◌, inl, inr, false, Option, none, some, List, [], ◌∷◌, ◌++◌, arith, leb,
  ◌==◌, le→leb, leb→lt, ne→==, Bool-cases, Option-cases, length, length-append,
}
use sat_build.Agent.Disk.{Disk}
use sat_build.Agent.Backups.Names.{Timestamp, Listed, backup_list}
use sat_build.Agent.Metadata.{app_metadata_get}
use sat_build.Agent.Deploy.{Request, BackupEntry, Store}
use sat_build.Agent.Query.{
  is_name_byte, is_sane, handle_logs, has_hash, backup_collect_callback, backup_collect,
  add_current, current_entry, versions, handle_list_versions,
}

is_sane_refuses :
    (before after : List ℕ) (c : ℕ)
    → is_name_byte c ≡ false
    → is_sane (before ++ (c ∷ after)) ≡ false
unfolding is_sane
is_sane_refuses [] after c bad = rw bad refl
is_sane_refuses (b ∷ before) after c bad = rw (is_sane_refuses before after c bad) (ground arith)

-- Where a name has a byte that is no letter, digit, '_', '-' or '.', no command runs: the answer is
-- the same whatever the shell does.
pub handle_logs_refuses :
    (req : Request) (before after : List ℕ) (c : ℕ)
    → req.app_name ≡ before ++ (c ∷ after)
    → is_name_byte c ≡ false
    → (run run' : List ℕ → Option (List ℕ × Option ℕ)) → handle_logs run req ≡ handle_logs run' req
unfolding handle_logs
handle_logs_refuses req before after c e bad run run' =
    let insane : is_sane req.app_name ≡ false = rw e (is_sane_refuses before after c bad) in
    elim (Bool-cases (length req.app_name == 0)) [
      | inl unnamed ↦ rw (unnamed, handle_logs) refl
      | inr named ↦ rw (named, insane, handle_logs) refl
    ]

length-callback :
    (show : Timestamp → List ℕ) (d : Disk) (es : List BackupEntry) (l : Listed)
    → length es ≤ 64
    → length (backup_collect_callback show d es l) ≤ 64
unfolding backup_collect_callback
length-callback show d es l few = elim (Bool-cases (leb 64 (length es))) [
  | inl full ↦ rw (full, backup_collect_callback) few
  | inr room ↦ elim (Bool-cases (has_hash l.parsed.hash es)) [
    | inl known ↦ rw (room, known, backup_collect_callback) few
    | inr new ↦
        rw (room, new, backup_collect_callback)
          (omega (arith, leb→lt 64 (length es) room, length-append es (_ ∷ [])))
  ]
]

length-collect :
    (show : Timestamp → List ℕ) (d : Disk) (es : List BackupEntry) (ls : List Listed)
    → length es ≤ 64
    → length (backup_collect show d es ls) ≤ 64
unfolding backup_collect
length-collect show d es [] few = few
length-collect show d es (l ∷ ls) few =
    length-collect show d (backup_collect_callback show d es l) ls (length-callback show d es l few)

add_current_overruns :
    (current : BackupEntry) (es : List BackupEntry)
    → add_current current es ≡ none
    → (has_hash current.hash es ≡ false) × (64 ≤ length es)
unfolding add_current
add_current_overruns current es e = ground (arith, e)

current_full :
    (current : BackupEntry) (es : List BackupEntry)
    → has_hash current.hash es ≡ false
    → 64 ≤ length es
    → add_current current es ≡ none
unfolding add_current
current_full current es fresh full = rw (fresh, le→leb 64 (length es) full, add_current) refl

-- `handle_list_versions` writes behind its array of 64 entries exactly where 64 backups are
-- collected, and the app's installed file is there with a digest that none of them has.
pub handle_list_versions_overruns :
    (digest : List ℕ → List ℕ) (show : Timestamp → List ℕ) (req : Request) (s : Store)
    → let entries = backup_collect show s.disk [] (backup_list req.app_name s.disk) in
      (handle_list_versions digest show req s ≡ none) ↔ (
        (0 < length req.app_name)
        × (current : BackupEntry) × (current_entry digest s.disk
              (app_metadata_get req.app_name s.apps)
            ≡ some current)
        × (has_hash current.hash entries ≡ false)
        × (length entries ≡ 64))
unfolding handle_list_versions versions
handle_list_versions_overruns digest show req s =
    let entries = backup_collect show s.disk [] (backup_list req.app_name s.disk) in
    let few = length-collect show s.disk [] (backup_list req.app_name s.disk) (omega arith) in
    (
      λ over. elim (Bool-cases (length req.app_name == 0)) [
        | inl unnamed ↦ absurd (ground (arith, (simp (unnamed, handle_list_versions) at over)))
        | inr named ↦
            elim (Option-cases
              (current_entry digest s.disk (app_metadata_get req.app_name s.apps))) [
                | inl gone ↦
                    absurd
                      (ground (arith, (simp (named, gone, versions, handle_list_versions) at over)))
                | inr (current, here) ↦ elim (Option-cases (add_current current entries)) [
                  | inr (es, fits) ↦ absurd (
                      ground
                        (arith, (simp (named, here, fits, versions, handle_list_versions) at over)))
                  | inl full ↦
                      let r = add_current_overruns current entries full in
                      (ground (arith, named), current, here, r.0, omega (arith, r.1))
                ]
              ]
      ],
      λ h.
          let (pos, current, here, fresh, full) = h in
          simp
            (
              ne→== (length req.app_name) 0 (omega arith),
              here,
              current_full current entries fresh (omega arith),
              versions,
              handle_list_versions,
            )
            refl,
    )
