-- ===== src/Ground/Commands/Laws.antt =====
-- What the commands send, and what they write in the history.
use sat_build.Prelude.{
  ℕ, ◌≤◌, ◌<◌, ◌≡◌, refl, sym, ap, ◌⊎◌, inl, inr, Bool, true, false, Option, none, some, List, [],
  ◌∷◌, ◌++◌, arith, ◌==◌, if◌then◌else◌, Bool-cases, Option-cases, none≢some, length, drop,
}
use mathlib.Core.Option.{some-injective}
use sat_build.Agent.Deploy.{cmd_rollback, Request, Response}
use sat_build.Ground.Args.{satdeploy_reorder_argv}
use sat_build.Ground.AppName.{satdeploy_derive_app_name}
use sat_build.Ground.Push.{
  ServeSession, SlashCode, slash_success, HistoryWrite, World, PushIo, request_init, probe_timeout,
  deploy_single_app,
}
use sat_build.Ground.Push.Cases.{succeeded}
use sat_build.Ground.Commands.{
  entries, Parsed, node_or, fill_paths, mtu_ok, mtu_or, target_of, restored_hash, conclude_rollback,
  deploy_parsed, satdeploy_deploy_cmd, rollback_target, satdeploy_rollback_cmd,
}

mtu_bounds : (mtu : ℕ) → mtu_ok mtu ≡ true → (64 ≤ mtu_or mtu) × (mtu_or mtu ≤ 1024)
mtu_bounds mtu e = ground (arith, e)

module _ {W : Type 0} (ask : Option ServeSession → ℕ → ℕ → Request → W → W × Option Response)
    (optparse : ℕ → List (List ℕ) → Option Parsed) (slash_dfl_node : ℕ)
    (behind : List (List ℕ)) where
  -- Every deployment that `satdeploy_deploy_cmd` starts has a packet size from 64 to 1024 bytes and
  -- the name of the app that its remote path gives; any other command line is refused, with nothing
  -- sent and nothing in the history.
  pub satdeploy_deploy_cmd_cases :
      (digest : List ℕ → List ℕ) (io : PushIo) (argv : List (List ℕ)) (w : World W)
      → let r = satdeploy_deploy_cmd ask optparse slash_dfl_node behind digest io argv w in
        ((r.0 ≡ w) × (succeeded r.1 ≡ false))
        ⊎ ((node : ℕ) × (local : List ℕ) × (remote : List ℕ) × (force : Bool) × (mtu : ℕ) × (64
              ≤ mtu)
            × (mtu ≤ 1024)
            × (r
                ≡ deploy_single_app ask digest io node
                    (satdeploy_derive_app_name remote 128)
                    (some local)
                    (some remote)
                    force
                    mtu
                    w))
  unfolding satdeploy_deploy_cmd deploy_parsed
  satdeploy_deploy_cmd_cases digest io argv w =
      let reordered = satdeploy_reorder_argv 32 argv in
      let args = entries behind reordered in
      elim (Option-cases (optparse reordered.1 args)) [
        | inl e ↦ rw (satdeploy_deploy_cmd, e) (inl (refl, refl))
        | inr (p, e) ↦
            let paths = fill_paths (drop p.argi args) p.local p.remote in
            elim (Bool-cases (mtu_ok p.mtu)) [
              | inr bad ↦ simp (satdeploy_deploy_cmd, deploy_parsed, e, bad) (inl (refl, refl))
              | inl good ↦ elim (Option-cases paths.0) [
                | inl l ↦ simp (satdeploy_deploy_cmd, deploy_parsed, e, good, l) (inl (refl, refl))
                | inr (local, l) ↦ elim (Option-cases paths.1) [
                  | inl m ↦
                      simp (satdeploy_deploy_cmd, deploy_parsed, e, good, l, m) (inl (refl, refl))
                  | inr (remote, m) ↦
                      let b = mtu_bounds p.mtu good in
                      simp (satdeploy_deploy_cmd, deploy_parsed, e, good, l, m)
                        (inr (
                          node_or slash_dfl_node p.node,
                          local,
                          remote,
                          p.force,
                          mtu_or p.mtu,
                          b.0,
                          b.1,
                          refl,
                        ))
                ]
              ]
            ]
      ]

  conclude_rollback_lem :
      (app_name target : List ℕ) (answer : Option Response)
      → let end = conclude_rollback app_name target answer in
        (end.1.app ≡ app_name)
        × (end.1.remote_path ≡ target)
        × (end.1.success ≡ succeeded end.0)
        × (end.0 ≡ slash_success
            → (resp : Response) × (answer ≡ some resp)
              × (resp.success ≡ true)
              × (end.1.file_hash ≡ restored_hash resp.backup_path))
  unfolding conclude_rollback
  conclude_rollback_lem app_name target none = (refl, refl, refl, λ e. cc)
  conclude_rollback_lem app_name target (some resp) = elim (Bool-cases resp.success) [
    | inl e ↦ simp e (refl, refl, refl, λ _. (resp, refl, e, refl))
    | inr e ↦ simp e (refl, refl, refl, λ h. cc)
  ]

  -- The arguments that a command line is parsed from.
  abbrev pub arguments : List (List ℕ) → List (List ℕ)
  arguments argv = entries behind (satdeploy_reorder_argv 32 argv)

  abbrev pub parsed : List (List ℕ) → Option Parsed
  parsed argv = optparse (satdeploy_reorder_argv 32 argv).1 (arguments argv)

  -- The hash that a request names: that of `-H`, or none.
  pub data NamesHash : Option (List ℕ) → List ℕ → Type 0 where
    any_backup : NamesHash none []
    that_backup : (hash : List ℕ) → NamesHash (some hash) hash

  NamesHash_of : (hash : Option (List ℕ)) → NamesHash hash (elim hash [ none ↦ [] | some h ↦ h ])
  NamesHash_of none = any_backup
  NamesHash_of (some h) = that_backup h

  -- The target of a parsed command line: the first argument behind the options, or that of `-r`.
  abbrev pub IsTarget : List (List ℕ) → Parsed → List ℕ → Type 0
  IsTarget args p target =
      ((rest : List (List ℕ)) × (drop p.argi args ≡ target ∷ rest))
      ⊎ ((drop p.argi args ≡ []) × (p.remote ≡ some target))

  -- One request to go back was sent, with the probe's timeout, to the node of `-n` or else the
  -- current one, for the target, the app of its name and the hash of `-H`. The history has one entry
  -- more, on that app and target, which says what the command returns. Where that is success, the
  -- agent answered with success, and the entry's digest is taken from the backup that it named.
  pub record IsRolledBack (p : Parsed) (target : List ℕ) (w : World W) (r : World W × SlashCode)
      : Type 0 where
    pub req : Request
    pub entry : HistoryWrite
    pub request :
        (req.command ≡ cmd_rollback)
        × (req.app_name ≡ satdeploy_derive_app_name target 128)
        × (req.remote_path ≡ target)
        × NamesHash p.hash req.rollback_hash
    pub agent :
        r.0.agent
        ≡ (ask none (if p.node == 0 then slash_dfl_node else p.node) probe_timeout req w.agent).0
    pub history : r.0.history ≡ w.history ++ (entry ∷ [])
    pub about : (entry.app ≡ satdeploy_derive_app_name target 128) × (entry.remote_path ≡ target)
    pub says : entry.success ≡ succeeded r.1
    pub answered :
        r.1 ≡ slash_success
        → (resp : Response) × ((ask none
              (if p.node == 0 then slash_dfl_node else p.node)
              probe_timeout
              req
              w.agent).1
            ≡ some resp)
          × (resp.success ≡ true)
          × (entry.file_hash ≡ restored_hash resp.backup_path)

  rollback_sends :
      (p : Parsed) (target : List ℕ) (w : World W)
      → (length target == 0) ≡ false
      → IsRolledBack p target w (rollback_target ask optparse slash_dfl_node behind p target w)
  unfolding rollback_target
  rollback_sends p target w e =
      let req : Request = record (request_init cmd_rollback) {
        app_name = satdeploy_derive_app_name target 128;
        remote_path = target;
        rollback_hash = elim p.hash [ none ↦ [] | some h ↦ h ];
      } in
      let c =
        conclude_rollback_lem (satdeploy_derive_app_name target 128) target
          (ask none (node_or slash_dfl_node p.node) probe_timeout req w.agent).1 in
      rw (e, rollback_target)
        (record {
          req = req;
          entry = _;
          request = (refl, refl, refl, NamesHash_of p.hash);
          agent = refl;
          history = refl;
          about = (c.0, c.1);
          says = c.2;
          answered = c.3;
        })

  -- Why a command line to go back is refused: it is not parsed, it has no target, or an empty one.
  pub data IsRefused (argv : List (List ℕ)) : Type 0 where
    unparsed : parsed argv ≡ none → IsRefused argv
    no_target :
        (p : Parsed)
        → parsed argv ≡ some p
        → ((target : List ℕ) → IsTarget (arguments argv) p target → ⊥)
        → IsRefused argv
    empty_target :
        (p : Parsed) (target : List ℕ)
        → parsed argv ≡ some p
        → IsTarget (arguments argv) p target
        → length target ≡ 0
        → IsRefused argv

  target_of-IsTarget :
      (args : List (List ℕ)) (p : Parsed) (target : List ℕ)
      → target_of args p.argi p.remote ≡ some target
      → IsTarget args p target
  unfolding target_of
  target_of-IsTarget args p target e = found (drop p.argi args) e
    where
      found :
          (xs : List (List ℕ))
          → (elim xs [ [] ↦ p.remote | arg ∷ rest ↦ some arg ]) ≡ some target
          → ((rest : List (List ℕ)) × (xs ≡ target ∷ rest)) ⊎ ((xs ≡ []) × (p.remote ≡ some target))
      found [] q = inr (refl, q)
      found (x ∷ xs) q = inl (xs, ap (λ t. t ∷ xs) (some-injective _ _ q))

  no-IsTarget :
      (args : List (List ℕ)) (p : Parsed) (target : List ℕ)
      → target_of args p.argi p.remote ≡ none
      → IsTarget args p target
      → ⊥
  unfolding target_of
  no-IsTarget args p target e (inl (rest, q)) = none≢some (sym (rw (q, target_of) at e))
  no-IsTarget args p target e (inr (q, r)) = none≢some (sym (rw (q, r, target_of) at e))

  -- `satdeploy_rollback_cmd` refuses a command line that is not parsed or has no target or an empty
  -- one, with nothing sent, nothing in the history and no success. For every other it sends one
  -- request, to the node of `-n` or else the current one, that asks to go back for the target, the
  -- app of its name, and the hash of `-H` if there is one; and it writes one entry on them, which
  -- says what the command returns and, on success, has the hash in the name of the backup that the
  -- agent's answer names.
  pub satdeploy_rollback_cmd_cases :
      (argv : List (List ℕ)) (w : World W)
      → let r = satdeploy_rollback_cmd ask optparse slash_dfl_node behind argv w in
        (IsRefused argv × (r.0 ≡ w) × (succeeded r.1 ≡ false))
        ⊎ ((p : Parsed) × (target : List ℕ) × (parsed argv ≡ some p)
            × IsTarget (arguments argv) p target
            × (0 < length target)
            × IsRolledBack p target w r)
  unfolding satdeploy_rollback_cmd rollback_target
  satdeploy_rollback_cmd_cases argv w =
      let args = arguments argv in
      elim (Option-cases (parsed argv)) [
        | inl e ↦ rw (satdeploy_rollback_cmd, e) (inl (unparsed e, refl, refl))
        | inr (p, e) ↦ elim (Option-cases (target_of args p.argi p.remote)) [
          | inl t ↦
              simp (satdeploy_rollback_cmd, e, t)
                (inl (no_target p e (λ target h. no-IsTarget args p target t h), refl, refl))
          | inr (target, t) ↦ elim (Bool-cases (length target == 0)) [
            | inl none_left ↦
                simp (satdeploy_rollback_cmd, e, t, none_left, rollback_target)
                  (inl (
                    empty_target p target e (target_of-IsTarget args p target t) (ground arith),
                    refl,
                    refl,
                  ))
            | inr some_left ↦
                simp (satdeploy_rollback_cmd, e, t)
                  (inr (
                    p,
                    target,
                    refl,
                    target_of-IsTarget args p target t,
                    ground arith,
                    rollback_sends p target w some_left,
                  ))
          ]
        ]
      ]
