-- ===== src/Ground/Push/Cases.antt =====
-- The ways in which `deploy_single_app` ends, and what the history says of them.
use sat_build.Prelude.{
  ℕ, ◌%◌, ◌≡◌, refl, ◌⊎◌, inl, inr, Bool, true, false, ◌&&◌, ◌||◌, not, Option, none, some, List,
  [], ◌∷◌, ◌++◌, arith, ◌==◌, if◌then◌else◌, Bool-cases, Option-cases, length, u32_mod,
}
use sat_build.Agent.Deploy.{cmd_status, Request, Response}
use sat_build.Ground.Push.{
  ServeSession, svu_serve_session_start, svu_serve_default_block, SlashCode, slash_success,
  slash_eio, HistoryWrite, World, LocalFile, PushIo, expand_tilde, request_init, deploy_request,
  already_deployed, preflight, conclude_push, probe_timeout, default_timeout, transfer,
  check_and_transfer, deploy_single_app,
}

abbrev pub succeeded : SlashCode → Bool
succeeded slash_success = true
succeeded _ = false

module _ {W : Type 0} (ask : Option ServeSession → ℕ → ℕ → Request → W → W × Option Response) where
  -- The answer to the status request, and the other side behind it.
  abbrev pub probe_of : ℕ → W → W × Option Response
  probe_of node a = ask none node probe_timeout (request_init cmd_status) a

  -- The request was sent from a state of the other side, and the history has one entry more, on
  -- this app and file, that says what the command returns: success where the agent's answer does.
  pub record IsSent (digest : List ℕ → List ℕ) (io : PushIo) (node : ℕ)
      (app_name remote_path : List ℕ) (dtp_mtu : ℕ) (file : LocalFile) (a : W) (w : World W)
      (r : World W × SlashCode) : Type 0 where
    pub server : ServeSession
    pub entry : HistoryWrite
    pub serves : server.src ≡ file.bytes
    pub sent : r.0 ≡ record {
      agent =
          (ask
            (some server)
            node
            default_timeout
            (deploy_request io.ground_node app_name remote_path file (digest file.bytes) dtp_mtu)
            a).0;
      history = w.history ++ (entry ∷ []);
    }
    pub of_app : (entry.app ≡ app_name) × (entry.remote_path ≡ remote_path)
    pub of_file : entry.file_hash ≡ digest file.bytes
    pub says : entry.success ≡ succeeded r.1
    pub answered :
        r.1 ≡ slash_success
        → (resp : Response) × ((ask
              (some server)
              node
              default_timeout
              (deploy_request io.ground_node app_name remote_path file (digest file.bytes) dtp_mtu)
              a).1
            ≡ some resp)
          × (resp.success ≡ true)

  conclude_push_lem :
      (app_name checksum remote_path : List ℕ) (answer : Option Response)
      → let end = conclude_push app_name checksum remote_path answer in
        (end.1.app ≡ app_name)
        × (end.1.remote_path ≡ remote_path)
        × (end.1.file_hash ≡ checksum)
        × (end.1.success ≡ succeeded end.0)
        × (end.0 ≡ slash_success → (resp : Response) × (answer ≡ some resp) × (resp.success ≡ true))
  unfolding conclude_push
  conclude_push_lem app_name checksum remote_path none = (refl, refl, refl, refl, λ e. cc)
  conclude_push_lem app_name checksum remote_path (some resp) = elim (Bool-cases resp.success) [
    | inl e ↦ simp e (refl, refl, refl, refl, λ _. (resp, refl, e))
    | inr e ↦ simp e (refl, refl, refl, refl, λ h. cc)
  ]

  start_cases :
      (bytes : List ℕ) (block_size : ℕ) (thread : Bool)
      → let started = svu_serve_session_start (some bytes) block_size thread in
        (started ≡ none)
        ⊎ ((server : ServeSession) × (started ≡ some server) × (server.src ≡ bytes))
  unfolding svu_serve_session_start
  start_cases bytes block_size thread =
      elim (Bool-cases ((length bytes % u32_mod == 0) || not thread)) [
        | inl e ↦ inl (rw (e, svu_serve_session_start) refl)
        | inr e ↦ inr (
          record {
            block_size = if block_size == 0 then svu_serve_default_block else block_size;
            src = bytes;
            total = length bytes % u32_mod;
            active = true;
          },
          rw (e, svu_serve_session_start) refl,
          refl,
        )
      ]

  transfer_cases :
      (digest : List ℕ → List ℕ) (io : PushIo) (node : ℕ) (app_name remote_path : List ℕ)
      (dtp_mtu : ℕ) (file : LocalFile) (w : World W)
      → let r = transfer ask io node app_name remote_path file (digest file.bytes) dtp_mtu w in
        (r ≡ (w, slash_eio)) ⊎ IsSent digest io node app_name remote_path dtp_mtu file w.agent w r
  unfolding transfer
  transfer_cases digest io node app_name remote_path dtp_mtu file w =
      elim (start_cases file.bytes svu_serve_default_block io.thread) [
        | inl e ↦ inl (rw (e, transfer) refl)
        | inr (server, e, serves) ↦
            let c =
              conclude_push_lem app_name (digest file.bytes) remote_path
                (ask (some server) node default_timeout
                  (deploy_request io.ground_node app_name remote_path file (digest file.bytes)
                    dtp_mtu)
                  w.agent).1 in
            inr (
              rw (e, transfer)
                (record {
                  server = server;
                  entry = _;
                  serves = serves;
                  sent = refl;
                  of_app = (c.0, c.1);
                  of_file = c.2;
                  says = c.3;
                  answered = c.4;
                }))
      ]

  -- Where the command ends before a request to deploy.
  abbrev pub IsUnsent : ℕ → World W → World W × SlashCode → Type 0
  IsUnsent node w r =
      (succeeded r.1 ≡ false)
      × (r.0.history ≡ w.history)
      × ((r.0.agent ≡ w.agent) ⊎ (r.0.agent ≡ (probe_of node w.agent).0))

  -- Where the answer to the status request has an app of this name with the digest of the file.
  abbrev pub IsThere : List ℕ → List ℕ → ℕ → World W → World W × SlashCode → Type 0
  IsThere app_name checksum node w r =
      (r ≡ (record w { agent = (probe_of node w.agent).0 }, slash_success))
      × ((resp : Response) × ((probe_of node w.agent).1 ≡ some resp)
          × (resp.success ≡ true)
          × (already_deployed app_name checksum resp.apps ≡ true))

  -- The other side before a request to deploy.
  abbrev pub before : Bool → ℕ → W → W
  before force node a = if force then a else (probe_of node a).0

  preflight_cases :
      (app_name checksum : List ℕ) (answer : Option Response)
      → (preflight app_name checksum answer ≡ none)
        ⊎ ((preflight app_name checksum answer ≡ some slash_eio)
            ⊎ ((preflight app_name checksum answer ≡ some slash_success)
                × ((resp : Response) × (answer ≡ some resp)
                    × (resp.success ≡ true)
                    × (already_deployed app_name checksum resp.apps ≡ true))))
  unfolding preflight
  preflight_cases app_name checksum none = inr (inl refl)
  preflight_cases app_name checksum (some resp) =
      elim (Bool-cases (resp.success && already_deployed app_name checksum resp.apps)) [
        | inl e ↦
            inr (inr (rw (e, preflight) refl, (resp, refl, ground (arith, e), ground (arith, e))))
        | inr e ↦ inl (rw (e, preflight) refl)
      ]

  check_cases :
      (digest : List ℕ → List ℕ) (io : PushIo) (node : ℕ) (app_name remote_path : List ℕ)
      (force : Bool) (dtp_mtu : ℕ) (file : LocalFile) (w : World W)
      → let r =
          check_and_transfer ask io node app_name remote_path file
            (digest file.bytes)
            force
            dtp_mtu
            w in
        IsUnsent node w r
        ⊎ (((force ≡ false) × IsThere app_name (digest file.bytes) node w r)
            ⊎ IsSent digest io node app_name remote_path dtp_mtu file
                (before force node w.agent)
                w
                r)
  unfolding check_and_transfer
  check_cases digest io node app_name remote_path true dtp_mtu file w =
      elim (transfer_cases digest io node app_name remote_path dtp_mtu file w) [
        | inl e ↦ inl (rw e (refl, refl, inl refl))
        | inr sent ↦ inr (inr sent)
      ]
  check_cases digest io node app_name remote_path false dtp_mtu file w =
      let probed : World W = record w { agent = (probe_of node w.agent).0 } in
      elim (preflight_cases app_name (digest file.bytes) (probe_of node w.agent).1) [
        | inr (inl e) ↦ rw (e, check_and_transfer) (inl (refl, refl, inr refl))
        | inr (inr (e, there)) ↦ rw (e, check_and_transfer) (inr (inl (refl, (refl, there))))
        | inl e ↦
            rw (e, check_and_transfer)
              (elim (transfer_cases digest io node app_name remote_path dtp_mtu file probed) [
                | inl f ↦ inl (rw f (refl, refl, inr refl))
                | inr sent ↦ inr (
                    inr (record {
                      server = sent.server;
                      entry = sent.entry;
                      serves = sent.serves;
                      sent = sent.sent;
                      of_app = sent.of_app;
                      of_file = sent.of_file;
                      says = sent.says;
                      answered = sent.answered;
                    }))
              ])
      ]

  -- The command ends in one of three ways. It fails with no request to deploy sent and no entry in
  -- the history, where the other side has seen the status request at most. Or it was not forced, and
  -- the answer to the status request has an app of this name with the digest of the local file:
  -- then it returns success, with nothing sent and no entry. Or the request for the local file is
  -- sent once while the server serves it, and the history has one entry more, on this app, path
  -- and digest, which says success exactly where the command returns it; then the agent did.
  pub deploy_single_app_cases :
      (digest : List ℕ → List ℕ) (io : PushIo) (node : ℕ) (app_name local_path remote_path : List ℕ)
      (force : Bool) (dtp_mtu : ℕ) (w : World W)
      → let r =
          deploy_single_app ask digest io node app_name
            (some local_path)
            (some remote_path)
            force
            dtp_mtu
            w in
        IsUnsent node w r
        ⊎ ((file : LocalFile) × (io.local (expand_tilde io.home local_path) ≡ some file)
            × (((force ≡ false) × IsThere app_name (digest file.bytes) node w r)
                ⊎ IsSent digest io node app_name remote_path dtp_mtu file
                    (before force node w.agent)
                    w
                    r))
  unfolding deploy_single_app
  deploy_single_app_cases digest io node app_name local_path remote_path force dtp_mtu w =
      elim (Option-cases (io.local (expand_tilde io.home local_path))) [
        | inl e ↦ inl (rw (e, deploy_single_app) (refl, refl, inl refl))
        | inr (file, e) ↦ elim (Bool-cases io.readable) [
          | inr no_digest ↦ inl (rw (e, deploy_single_app, no_digest) (refl, refl, inl refl))
          | inl readable ↦
              simp (e, readable, deploy_single_app)
                (elim (check_cases digest io node app_name remote_path force dtp_mtu file w) [
                  | inl unsent ↦ inl unsent
                  | inr sent ↦ inr (file, refl, sent)
                ])
        ]
      ]
