-- ===== src/Agent/Handler.antt =====
-- `handle_connection` and `deploy_handler_loop` of deploy_handler.c: one request after the other.
-- The protobuf code is the pair of parameters `unpack` and `pack`.
use sat_build.Prelude.{ℕ, Bool, Option, none, some, List, [], ◌∷◌, if◌then◌else◌}
use sat_build.Agent.Backups.Names.{Timestamp}
use sat_build.Agent.Deploy.{
  Command, cmd_status, cmd_deploy, cmd_rollback, cmd_list_versions, cmd_logs, cmd_upload_start,
  cmd_upload_chunk, cmd_upload_end, cmd_unknown, err_unknown_command, Request, Response, fail,
  Store, DeployIo, handle_deploy,
}
use sat_build.Agent.Upload.{
  State, EndIo, handle_upload_start, handle_upload_chunk, handle_upload_end,
}
use sat_build.Agent.Rollback.{RollbackIo, handle_rollback}
use sat_build.Agent.Query.{handle_status, handle_logs, handle_list_versions}

-- What the system does in one request: for an upload's start whether its file can be opened, its
-- time and permissions, and for a chunk how many bytes are stored.
pub record Io : Type 0 where
  pub deploy : DeployIo
  pub rollback : RollbackIo
  pub end_io : EndIo
  pub opens : Bool
  pub now : ℕ
  pub mode : ℕ
  pub written : ℕ
  pub pgrep : List ℕ → Bool
  pub journal : List ℕ → Option (List ℕ × Option ℕ)

abbrev pub on_store : State → Store × Response → State × Response
on_store s r = (record s { store = r.0 }, r.1)

-- The dispatch of `handle_connection`; `none` is a write behind the array of the versions.
unfoldable pub dispatch :
    (List ℕ → List ℕ)
    → (Timestamp → List ℕ)
    → Io
    → Request
    → Command
    → State
    → Option (State × Response)
dispatch digest show io req cmd_status s = some (s, handle_status digest io.pgrep s.store)
dispatch digest show io req cmd_logs s = some (s, handle_logs io.journal req)
dispatch digest show io req cmd_list_versions s =
    elim (handle_list_versions digest show req s.store) [ none ↦ none | some resp ↦ some (s, resp) ]
dispatch digest show io req cmd_rollback s =
    some (on_store s (handle_rollback digest io.rollback req s.store))
dispatch digest show io req cmd_deploy s =
    some (on_store s (handle_deploy digest io.deploy req s.store))
dispatch digest show io req cmd_upload_start s =
    some (handle_upload_start io.opens io.now io.mode req s)
dispatch digest show io req cmd_upload_chunk s = some (handle_upload_chunk io.written req s)
dispatch digest show io req cmd_upload_end s = some (handle_upload_end digest io.end_io s)
dispatch digest show io req cmd_unknown s = some (s, fail err_unknown_command "Unknown command")

-- One connection: the packet that `csp_read` gives, and whether there is a buffer for the answer.
pub record Connection : Type 0 where
  pub packet : Option (List ℕ)
  pub buffer : Bool
  pub io : Io

unfoldable pub handle_request :
    (List ℕ → List ℕ)
    → (Timestamp → List ℕ)
    → (Response → List ℕ)
    → Connection
    → Request
    → State
    → Option (State × Option (List ℕ))
handle_request digest show pack conn req s = elim (dispatch digest show conn.io req req.command s) [
  | none ↦ none
  | some (s', resp) ↦ some (s', if conn.buffer then some (pack resp) else none)
]

-- `handle_connection`: the new state, and the packet that is sent.
unfoldable pub handle_connection :
    (List ℕ → List ℕ)
    → (Timestamp → List ℕ)
    → (List ℕ → Option Request)
    → (Response → List ℕ)
    → Connection
    → State
    → Option (State × Option (List ℕ))
handle_connection digest show unpack pack conn s = elim conn.packet [
  | none ↦ some (s, none)
  | some bytes ↦ (elim (unpack bytes) [
    | none ↦ some (s, none)
    | some req ↦ handle_request digest show pack conn req s
  ])
]

-- `deploy_handler_loop`, while the connections come in.
unfoldable pub deploy_handler_loop :
    (List ℕ → List ℕ)
    → (Timestamp → List ℕ)
    → (List ℕ → Option Request)
    → (Response → List ℕ)
    → List Connection
    → State
    → Option State
deploy_handler_loop digest show unpack pack [] s = some s
deploy_handler_loop digest show unpack pack (conn ∷ conns) s =
    elim (handle_connection digest show unpack pack conn s) [
      | none ↦ none
      | some (s', sent) ↦ deploy_handler_loop digest show unpack pack conns s'
    ]
