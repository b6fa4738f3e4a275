-- ===== src/Ground/Pass.antt =====
-- A push from the ground station to the agent: `deploy_single_app`, answered by the dispatch of
-- `handle_connection`. One connection after the other reaches the agent or not, and its answer the
-- ground station or not; what happens while the agent works may depend on what the server holds.
use mathlib.Core.Option.{some-injective}
use mathlib.Core.Path.{subst}
use sat_build.Prelude.{
  streq_iff, streq, ℕ, ◌<◌, ◌≡◌, refl, sym, ap, ◌∙◌, ◌⊎◌, inl, inr, Bool, true, false, Option, none,
  some, List, [], ◌∷◌, leb, Bool-cases, Option-cases, length, All, All-append,
}
use sat_build.Svu.Session.Client.Keeps.{HonestLink}
use sat_build.Svu.Session.Client.Sound.{IsFile}
use sat_build.Agent.Disk.{File, Disk, find}
use sat_build.Agent.Backups.{compute_file_checksum}
use sat_build.Agent.Backups.Names.{Timestamp}
use sat_build.Agent.Backups.Laws.{is_archive}
use sat_build.Agent.Metadata.{Entry}
use sat_build.Agent.Deploy.{cmd_status, Request, Response, AppStatusEntry, Store, handle_deploy}
use sat_build.Agent.Deploy.Install.{installed, handle_deploy-IsFile}
use sat_build.Svu.Transfer.Result.{size-CutIsSeen}
use sat_build.Agent.Upload.{State}
use sat_build.Agent.Query.{status_metadata_callback, status_entries, handle_status}
use sat_build.Agent.Handler.{Io, dispatch}
use sat_build.Ground.Push.{
  ServeSession, slash_success, World, LocalFile, PushIo, expand_tilde, request_init, deploy_request,
  already_deployed, deploy_single_app,
}
use sat_build.Ground.Push.Cases.{before, deploy_single_app_cases}

pub data Fate : Type 0 where
  arrives : Fate
  reply_lost : Fate
  request_lost : Fate

pub record Contact : Type 0 where
  pub fate : Fate
  pub io : Option ServeSession → Io

-- The agent, and the connections that are left.
pub record Sky : Type 0 where
  pub state : State
  pub contacts : List Contact

-- The links answer from what the server holds.
abbrev pub IsHonest : Contact → Type 0
IsHonest c = (server : ServeSession) → All (HonestLink server.src) (c.io (some server)).deploy.links

module _ (digest : List ℕ → List ℕ) (show : Timestamp → List ℕ) where
  unfoldable pub carry : Fate → Io → Request → State → List Contact → Sky × Option Response
  carry request_lost io req s rest = (record { state = s; contacts = rest }, none)
  carry reply_lost io req s rest = elim (dispatch digest show io req req.command s) [
    | none ↦ (record { state = s; contacts = rest }, none)
    | some (s', resp) ↦ (record { state = s'; contacts = rest }, none)
  ]
  carry arrives io req s rest = elim (dispatch digest show io req req.command s) [
    | none ↦ (record { state = s; contacts = rest }, none)
    | some (s', resp) ↦ (record { state = s'; contacts = rest }, some resp)
  ]

  unfoldable pub reach :
      Option ServeSession → Request → State → List Contact → Sky × Option Response
  reach server req s [] = (record { state = s; contacts = [] }, none)
  reach server req s (c ∷ rest) = carry c.fate (c.io server) req s rest

  -- The exchange of `deploy_single_app`, with the one agent.
  abbrev pub ask_agent : Option ServeSession → ℕ → ℕ → Request → Sky → Sky × Option Response
  ask_agent server node timeout req sky = reach server req sky.state sky.contacts

  -- A request to deploy that is answered was handled.
  carry_deploy :
      (fate : Fate) (io : Io) (ground : ℕ) (app path : List ℕ) (file : LocalFile) (sum : List ℕ)
      (mtu : ℕ) (s : State) (rest : List Contact) (resp : Response)
      → let req = deploy_request ground app path file sum mtu in
        (carry fate io req s rest).1 ≡ some resp
        → (resp ≡ (handle_deploy digest io.deploy req s.store).1)
          × ((carry fate io req s rest).0.state.store
              ≡ (handle_deploy digest io.deploy req s.store).0)
  unfolding carry dispatch
  carry_deploy request_lost io ground app path file sum mtu s rest resp e = cc
  carry_deploy reply_lost io ground app path file sum mtu s rest resp e = cc
  carry_deploy arrives io ground app path file sum mtu s rest resp e =
      (sym (some-injective _ _ e), refl)

  carry_status :
      (fate : Fate) (io : Io) (s : State) (rest : List Contact)
      → let r = carry fate io (request_init cmd_status) s rest in
        (r.0 ≡ record { state = s; contacts = rest })
        × ((resp : Response) → r.1 ≡ some resp → resp ≡ handle_status digest io.pgrep s.store)
  unfolding carry dispatch
  carry_status request_lost io s rest = (refl, λ resp e. cc)
  carry_status reply_lost io s rest = (refl, λ resp e. cc)
  carry_status arrives io s rest = (refl, λ resp e. sym (some-injective _ _ e))

  -- The status of an app is that of a file.
  abbrev IsOfFile : Disk → AppStatusEntry → Type 0
  IsOfFile d e = (f : File) × (find e.remote_path d ≡ some f) × (digest f.bytes ≡ e.file_hash)

  callback-All :
      (pgrep : List ℕ → Bool) (d : Disk) (entries : List AppStatusEntry) (e : Entry)
      → All (IsOfFile d) entries
      → All (IsOfFile d) (status_metadata_callback digest pgrep d entries e)
  unfolding status_metadata_callback compute_file_checksum
  callback-All pgrep d entries e h = elim (Bool-cases (leb 32 (length entries))) [
    | inl full ↦ rw (full, status_metadata_callback) h
    | inr room ↦ elim (Option-cases (find e.remote_path d)) [
      | inl lost ↦ rw (room, status_metadata_callback, compute_file_checksum, lost) h
      | inr (f, found) ↦
          rw (room, status_metadata_callback, compute_file_checksum, found)
            (All-append (IsOfFile d) entries _ h ((f, found, refl), tt))
    ]
  ]

  entries-All :
      (pgrep : List ℕ → Bool) (d : Disk) (entries : List AppStatusEntry) (es : List Entry)
      → All (IsOfFile d) entries
      → All (IsOfFile d) (status_entries digest pgrep d entries es)
  unfolding status_entries
  entries-All pgrep d entries [] h = h
  entries-All pgrep d entries (e ∷ es) h =
      entries-All pgrep d (status_metadata_callback digest pgrep d entries e) es
        (callback-All pgrep d entries e h)

  status-All :
      (pgrep : List ℕ → Bool) (s : Store)
      → All (IsOfFile s.disk) (handle_status digest pgrep s).apps
  unfolding handle_status
  status-All pgrep s = entries-All pgrep s.disk [] s.apps tt

  -- An app that is listed with a digest has a file of that digest.
  already_deployed-IsOfFile :
      (app sum : List ℕ) (d : Disk) (apps : List AppStatusEntry)
      → All (IsOfFile d) apps
      → already_deployed app sum apps ≡ true
      → (path : List ℕ) × (f : File) × (find path d ≡ some f) × (digest f.bytes ≡ sum)
  unfolding already_deployed
  already_deployed-IsOfFile app sum d [] h e = cc
  already_deployed-IsOfFile app sum d (a ∷ apps) (h, hs) e =
      elim (Bool-cases (streq a.app_name app)) [
        | inl same ↦ (a.remote_path, h.0, h.1, h.2 ∙ (streq_iff a.file_hash sum).0 (rw same at e))
        | inr other ↦ already_deployed-IsOfFile app sum d apps hs (rw other at e)
      ]

  reach_status :
      (s : State) (contacts : List Contact)
      → All IsHonest contacts
      → let r = reach none (request_init cmd_status) s contacts in
        (r.0.state ≡ s)
        × All IsHonest r.0.contacts
        × ((resp : Response) → r.1 ≡ some resp → All (IsOfFile s.store.disk) resp.apps)
  unfolding reach
  reach_status s [] honest = (refl, tt, λ resp e. cc)
  reach_status s (c ∷ rest) (h, honest) =
      let answer = carry_status c.fate (c.io none) s rest in
      rw answer.0 (
        refl,
        honest,
        λ resp e.
            subst (λ (r : Response). All (IsOfFile s.store.disk) r.apps) (sym (answer.1 resp e))
              (status-All (c.io none).pgrep s.store),
      )

  reach_deploy :
      (server : ServeSession) (io : PushIo) (app path : List ℕ) (file : LocalFile) (mtu : ℕ)
      (s : State) (contacts : List Contact) (resp : Response)
      → All IsHonest contacts
      → server.src ≡ file.bytes
      → length path < 508
      → is_archive path ≡ false
      → let r =
          reach
            (some server)
            (deploy_request io.ground_node app path file (digest file.bytes) mtu)
            s
            contacts in
        r.1 ≡ some resp
        → resp.success ≡ true
        → (bytes : List ℕ) × IsFile file.bytes bytes
          × (digest bytes ≡ digest file.bytes)
          × (installed path r.0.state.store ≡ some bytes)
  unfolding reach
  reach_deploy server io app path file mtu s [] resp honest same small outside e ok = cc
  reach_deploy server io app path file mtu s (c ∷ rest) resp (h, honest) same small outside e ok =
      let dio = (c.io (some server)).deploy in
      let req = deploy_request io.ground_node app path file (digest file.bytes) mtu in
      let done =
        carry_deploy c.fate (c.io (some server)) io.ground_node app path file (digest file.bytes)
          mtu s rest resp e in
      let got =
        handle_deploy-IsFile file.bytes digest dio req s.store small outside
          (subst (λ b. All (HonestLink b) dio.links) same (h server))
          (size-CutIsSeen file.bytes dio.outfile req.expected_size refl)
          (ap (λ (r : Response). r.success) (sym done.0) ∙ ok) in
      (got.0, got.1, got.2, ap (installed path) done.1 ∙ got.3)

  -- A file of this content was there before.
  abbrev pub Elsewhere : List ℕ → Store → Type 0
  Elsewhere bytes s =
      (path : List ℕ) × (f : File) × (find path s.disk ≡ some f) × (digest f.bytes ≡ digest bytes)

  -- The agent has the file at the path, or a block has two contents of one digest.
  abbrev pub Delivered : List ℕ → List ℕ → Store → Type 0
  Delivered src path s =
      (bytes : List ℕ) × IsFile src bytes
      × (digest bytes ≡ digest src)
      × (installed path s ≡ some bytes)

  before-IsHonest :
      (force : Bool) (node : ℕ) (sky : Sky)
      → All IsHonest sky.contacts
      → let a = before ask_agent force node sky in (a.state ≡ sky.state) × All IsHonest a.contacts
  before-IsHonest true node sky honest = (refl, honest)
  before-IsHonest false node sky honest =
      let r = reach_status sky.state sky.contacts honest in (r.0, r.1)

  -- A push that returns success has delivered the local file: the agent has it at the path, with its
  -- digest, or a block with two contents of one digest shows. Only a push that is not forced may
  -- have sent nothing, where the agent has some file with the digest of the local one, at whatever
  -- path. Connections and answers may be lost; the links answer from what the server holds; the
  -- path has less than 508 bytes and is not one of a backup.
  pub push_delivers :
      (io : PushIo) (node : ℕ) (app local_path remote_path : List ℕ) (force : Bool) (mtu : ℕ)
      (w : World Sky)
      → length remote_path < 508
      → is_archive remote_path ≡ false
      → All IsHonest w.agent.contacts
      → let r =
          deploy_single_app ask_agent digest io node app
            (some local_path)
            (some remote_path)
            force
            mtu
            w in
        r.1 ≡ slash_success
        → (file : LocalFile) × (io.local (expand_tilde io.home local_path) ≡ some file)
          × (((force ≡ false) × Elsewhere file.bytes w.agent.state.store)
              ⊎ Delivered file.bytes remote_path r.0.agent.state.store)
  push_delivers io node app local_path remote_path force mtu w small outside honest ok =
      elim (deploy_single_app_cases ask_agent digest io node app local_path remote_path force mtu
        w) [
          | inl unsent ↦ absurd (cc (rw ok at unsent.0))
          | inr (file, found, inl (lazy, there)) ↦
              let (resp, e, good, listed) = there.1 in
              let statuses = (reach_status w.agent.state w.agent.contacts honest).2 resp e in
              (
                file,
                found,
                inl (
                  lazy,
                  already_deployed-IsOfFile app (digest file.bytes) w.agent.state.store.disk
                      resp.apps statuses listed,
                ),
              )
          | inr (file, found, inr sent) ↦
              let (resp, e, good) = sent.answered ok in
              let a = before ask_agent force node w.agent in
              let got =
                reach_deploy sent.server io app remote_path file mtu a.state a.contacts resp
                  (before-IsHonest force node w.agent honest).1 sent.serves small outside e good in
              (
                file,
                found,
                inr (
                    subst (λ (v : World Sky). Delivered file.bytes remote_path v.agent.state.store)
                      (sym sent.sent) got),
              )
        ]
