-- ===== src/Ground/Tests.antt =====
-- The ground station's theorems at concrete inputs: a push of the file "f" of three bytes to "/a".
use mathlib.Core.List.{Perm}
use mathlib.Core.Path.{subst}
use sat_build.Prelude.{
  codes, streq_iff, streq, ℕ, ◌≤◌, ◌<◌, ◌≡◌, refl, sym, ◌⊎◌, inl, inr, Bool, true, false, Option,
  none, some, List, [], ◌∷◌, ◌++◌, arith, if◌then◌else◌, Bool-cases, length, replicate, All,
  All-replicate,
}
use sat_build.Svu.Session.Client.Keeps.{HonestLink}
use sat_build.Svu.Runs.{small, served, served-Honest}
use sat_build.SessionState.{app_name_is_safe}
use sat_build.Agent.Disk.{find, unlink, add, store, chmod, rename}
use sat_build.Agent.Backups.{
  compute_file_checksum, chmod_as, written, stored_bytes, copy_file, no_slash, child_of, read_dir,
  with_suffix, backup_create, join, backup_name,
}
use sat_build.Agent.Backups.Names.{Timestamp}
use sat_build.Agent.Deploy.{
  check_skew, check_deploy, backup_current, check_checksum, fetched, install, handle_deploy,
}
use sat_build.Agent.Upload.{no_session}
use sat_build.Agent.Handler.{dispatch}
use sat_build.Agent.Runs.{hash_of, before, copy_io, create_io, deploy_io, outside, got_small}
use sat_build.Ground.Args.{place, place_all, is_one_of, is_option, satdeploy_reorder_argv}
use sat_build.Ground.Args.Order.{options, positionals, satdeploy_reorder_argv_lem}
use sat_build.Ground.Args.Overrun.{IsFlag, satdeploy_reorder_argv_overruns}
use sat_build.Ground.AppName.{strrchr, base_of, satdeploy_derive_app_name}
use sat_build.Ground.AppName.Laws.{Lacks, derived-IsSafe}
use sat_build.Ground.Push.{
  ServeSession, svu_serve_session_start, slash_success, World, LocalFile, PushIo, expand_tilde,
  conclude_push, transfer, check_and_transfer, deploy_single_app,
}
use sat_build.Svu.Session.Client.{Link}
use sat_build.Ground.Push.Cases.{
  before as sent_from, succeeded, IsUnsent, IsThere, IsSent, deploy_single_app_cases,
}
use sat_build.Ground.Pass.{
  arrives, Contact, Sky, IsHonest, carry, reach, ask_agent, Elsewhere, Delivered, push_delivers,
}
use sat_build.Ground.Commands.{Parsed, restored_hash, satdeploy_deploy_cmd, satdeploy_rollback_cmd}
use sat_build.Ground.Commands.Laws.{
  satdeploy_deploy_cmd_cases, arguments, parsed, IsTarget, IsRolledBack, IsRefused,
  satdeploy_rollback_cmd_cases,
}
use sat_build.Ground.Commands.Restored.{restored_hash-join}

abbrev line : List (List ℕ)
line = codes "/opt/a" ∷ codes "-n" ∷ codes "5" ∷ []

line_sorted : (satdeploy_reorder_argv 32 line).0 ≡ codes "-n" ∷ codes "5" ∷ codes "/opt/a" ∷ []
unfolding satdeploy_reorder_argv place_all place is_one_of streq
line_sorted = refl

few : length (positionals false line) ≤ 8
unfolding is_one_of streq
few = omega arith

satdeploy_reorder_argv_lem_example :
    let r = satdeploy_reorder_argv 32 line in
    (r.0 ≡ options false line ++ positionals false line)
    × Perm r.0 line
    × All (λ arg. is_option arg ≡ false) (positionals false line)
    × (r.1 ≡ length r.0)
satdeploy_reorder_argv_lem_example = satdeploy_reorder_argv_lem 32 line (omega arith) few

IsFlag-force : IsFlag (codes "-F")
unfolding is_one_of streq
IsFlag-force = (refl, refl)

satdeploy_reorder_argv_overruns_example :
    let r = satdeploy_reorder_argv 32 (codes "/opt/a" ∷ replicate 32 (codes "-F")) in
    (length r.0 ≡ 32) × (r.1 ≡ 33)
satdeploy_reorder_argv_overruns_example =
    satdeploy_reorder_argv_overruns 32 (codes "/opt/a" ∷ []) (replicate 32 (codes "-F"))
      (omega arith) (refl, tt) (All-replicate IsFlag 32 (codes "-F") IsFlag-force) (omega arith)
      (omega arith)

based : 0 < length (base_of (codes "/opt/foo.bin"))
unfolding base_of strrchr
based = omega arith

derived-IsSafe_example :
    let name = satdeploy_derive_app_name (codes "/opt/foo.bin") 128 in
    (app_name_is_safe name ≡ true) × Lacks 46 name × (length name < 128)
derived-IsSafe_example = derived-IsSafe (codes "/opt/foo.bin") 128 based (omega arith) (omega arith)

abbrev stamp : List ℕ
stamp = codes "20250101-000000"

restored_hash-join_example :
    restored_hash (join (codes "/b/a") (backup_name stamp (codes "0af3"))) ≡ codes "0af3"
restored_hash-join_example =
    restored_hash-join (codes "/b/a") stamp (codes "0af3") (omega arith) (omega arith) (omega arith)
      (omega arith) (omega arith)

-- The ground station with that file, and the agent whose link answers from what is served.
abbrev ground : PushIo
ground = record {
  home = none;
  local =
      λ path. if streq path (codes "f") then some (record { bytes = small; mode = 0 }) else none;
  readable = true;
  thread = true;
  ground_node = 5;
}

abbrev links_of : Option ServeSession → List Link
links_of none = []
links_of (some server) = if streq server.src small then served ∷ [] else []

abbrev contact : Contact
contact = record {
  fate = arrives;
  io = λ server. record {
    deploy = record deploy_io { links = links_of server };
    rollback = record { before = create_io; copy = copy_io; time = [] };
    end_io = record {
      before = create_io;
      parent = true;
      copy = copy_io;
      after = create_io;
      time = [];
    };
    opens = true;
    now = 0;
    mode = 0;
    written = 0;
    pgrep = λ path. false;
    journal = λ command. none;
  };
}

contact-IsHonest : IsHonest contact
contact-IsHonest server = elim (Bool-cases (streq server.src small)) [
  | inl e ↦
      rw e (
        subst (λ b. HonestLink b served) (sym ((streq_iff server.src small).0 e)) served-Honest,
        tt,
      )
  | inr e ↦ rw e tt
]

abbrev sky : World Sky
sky = record {
  agent = record {
    state = record { session = no_session; store = before };
    contacts = contact ∷ [];
  };
  history = [];
}

abbrev no_text : Timestamp → List ℕ
no_text t = []

push_succeeds :
    (deploy_single_app
      (ask_agent hash_of no_text)
      hash_of
      ground
      5
      (codes "a")
      (some (codes "f"))
      (some (codes "/a"))
      true
      0
      sky).1
    ≡ slash_success
unfolding deploy_single_app check_and_transfer transfer svu_serve_session_start conclude_push
    expand_tilde reach carry dispatch handle_deploy check_deploy check_skew backup_current
    backup_create find streq with_suffix read_dir child_of no_slash copy_file written stored_bytes
    chmod_as store unlink add chmod fetched install check_checksum compute_file_checksum rename
push_succeeds = rw got_small refl

push_delivers_example :
    (file : LocalFile) × (ground.local (expand_tilde none (codes "f")) ≡ some file)
    × (((true ≡ false) × Elsewhere hash_of no_text file.bytes before)
        ⊎ Delivered hash_of no_text file.bytes
            (codes "/a")
            (deploy_single_app
              (ask_agent hash_of no_text)
              hash_of
              ground
              5
              (codes "a")
              (some (codes "f"))
              (some (codes "/a"))
              true
              0
              sky).0.agent.state.store)
push_delivers_example =
    push_delivers hash_of no_text ground 5 (codes "a") (codes "f") (codes "/a") true 0 sky
      (omega arith) outside (contact-IsHonest, tt) push_succeeds

deploy_single_app_cases_example :
    let ask = ask_agent hash_of no_text in
    let r =
      deploy_single_app ask hash_of ground 5
        (codes "a")
        (some (codes "f"))
        (some (codes "/a"))
        false
        0
        sky in
    IsUnsent ask 5 sky r
    ⊎ ((file : LocalFile) × (ground.local (expand_tilde none (codes "f")) ≡ some file)
        × (((false ≡ false) × IsThere ask (codes "a") (hash_of file.bytes) 5 sky r)
            ⊎ IsSent ask hash_of ground 5
                (codes "a")
                (codes "/a")
                0
                file
                (sent_from ask false 5 sky.agent)
                sky
                r))
deploy_single_app_cases_example =
    deploy_single_app_cases (ask_agent hash_of no_text) hash_of ground 5 (codes "a") (codes "f")
      (codes "/a") false 0 sky

-- A parser that finds no option.
abbrev no_options : ℕ → List (List ℕ) → Option Parsed
no_options n args = some (record {
  argi = 0;
  node = 0;
  local = none;
  remote = none;
  force = false;
  mtu = 0;
  hash = none;
  lines = 100;
})

abbrev push_line : List (List ℕ)
push_line = codes "f" ∷ codes "/a" ∷ []

satdeploy_deploy_cmd_cases_example :
    let ask = ask_agent hash_of no_text in
    let r = satdeploy_deploy_cmd ask no_options 5 [] hash_of ground push_line sky in
    ((r.0 ≡ sky) × (succeeded r.1 ≡ false))
    ⊎ ((node : ℕ) × (local : List ℕ) × (remote : List ℕ) × (force : Bool) × (mtu : ℕ) × (64 ≤ mtu)
        × (mtu ≤ 1024)
        × (r
            ≡ deploy_single_app ask hash_of ground node
                (satdeploy_derive_app_name remote 128)
                (some local)
                (some remote)
                force
                mtu
                sky))
satdeploy_deploy_cmd_cases_example =
    satdeploy_deploy_cmd_cases (ask_agent hash_of no_text) no_options 5 [] hash_of ground push_line
      sky

-- "-H aaaaaaaa /a"
abbrev with_hash : ℕ → List (List ℕ) → Option Parsed
with_hash n args = some (record {
  argi = 2;
  node = 7;
  local = none;
  remote = none;
  force = false;
  mtu = 0;
  hash = some (codes "aaaaaaaa");
  lines = 100;
})

abbrev back_line : List (List ℕ)
back_line = codes "/a" ∷ codes "-H" ∷ codes "aaaaaaaa" ∷ []

satdeploy_rollback_cmd_cases_example :
    let ask = ask_agent hash_of no_text in
    let r = satdeploy_rollback_cmd ask with_hash 5 [] back_line sky in
    (IsRefused ask with_hash 5 [] back_line × (r.0 ≡ sky) × (succeeded r.1 ≡ false))
    ⊎ ((p : Parsed) × (target : List ℕ) × (parsed ask with_hash 5 [] back_line ≡ some p)
        × IsTarget ask with_hash 5 [] (arguments ask with_hash 5 [] back_line) p target
        × (0 < length target)
        × IsRolledBack ask with_hash 5 [] p target sky r)
satdeploy_rollback_cmd_cases_example =
    satdeploy_rollback_cmd_cases (ask_agent hash_of no_text) with_hash 5 [] back_line sky
