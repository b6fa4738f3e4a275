-- ===== src/Lib.antt =====
-- The agent of satDeploy on the satellite (satdeploy-agent), and the self-verifying uploader: the
-- layer that carries a file from the ground station (satdeploy-apm) to it over a lossy CSP link.
--
-- The agent asks for a file over a control connection, and is answered with a manifest, the SHA-256
-- digest of each block; the ground end then sends the bytes as unacknowledged packets to a data
-- port. The agent notes which bytes arrived, compares every block with the manifest, and asks again
-- for the ranges that are missing or damaged, until every block agrees or its rounds are used up.
--
-- Around the uploader, the agent answers one request after the other: to deploy a file that it
-- downloads, to take a file chunk by chunk, to go back to a backup, and to tell what is there. It
-- keeps the installed files, their backups, a table of apps, and the session of a direct upload.
--
-- Files, and the code that each one models:
--   Sha256.antt             satdeploy-agent/svu/ci_sha256.c: `sha256` is ci_sha256_init, _update
--                           and _final; File.antt in Sha256 is ci_sha256_file
--   Svu/Wire.antt           satdeploy-agent/svu/svu_proto.h: the request (svu_req_encode,
--                           svu_req_decode); Svu/Wire/Announce.antt: svu_announce_encode, _decode
--   Svu/Tracker.antt        satdeploy-agent/svu/ci_svu.c: `new`, `accept` and `verify` are
--                           ci_svu_new, ci_svu_accept and ci_svu_verify on the record `Tracker`
--   Svu/Serve.antt          satdeploy-apm/svu/svu_serve.c: `serve_request` is the body of
--                           svu_serve_loop for one packet, with send_manifest and blast_interval
--   Svu/Session.antt        satdeploy-agent/svu/svu_session.c: drain_data;
--     Session/Control.antt  ctrl_exchange, which puts the manifest together from its chunks;
--     Session/Client.antt   `client_run` is svu_client_run_hooked
--   Svu/Exchange.antt       the reply on the control connection, as ctrl_exchange reads it
--   Svu/Recovery.antt       the client's request, the server's answer and the next verdict together;
--     Recovery/Complete     a whole transfer in one round; Recovery/Rounds in two, the first with
--                           losses
--   Svu/Sidecar.antt        satdeploy-agent/src/svu_transfer.c: the file that keeps a pass's data
--                           over a restart, sidecar_restore, _meta, _data and _complete
--   Svu/Transfer.antt       the same file: svu_download_file, one pass of the receiving end with
--                           the sidecar as its hooks
--   SessionState.antt       satdeploy-agent/src/session_state.c: the path guard, and the file that
--                           session_state_save writes and session_state_load reads
--   Agent/Disk.antt         the files that the agent sees, by path
--   Agent/Backups.antt      satdeploy-agent/src/backup_manager.c: copy_file, backup_create and
--     Backups/Names.antt    backup_restore; parse_backup_filename and backup_list
--   Agent/Metadata.antt     satdeploy-agent/src/app_metadata.c: load_metadata, the text that
--                           save_metadata prints, app_metadata_save and app_metadata_get
--   Agent/Deploy.antt       satdeploy-agent/src/deploy_handler.c: handle_deploy, which installs
--                           what svu_download_file of Svu/Transfer.antt has written;
--   Agent/Upload.antt       handle_upload_start, _chunk and _end on the session;
--   Agent/Rollback.antt     handle_rollback, with the sort and the dial;
--   Agent/Query.antt        handle_status, handle_logs and handle_list_versions;
--   Agent/Handler.antt      handle_connection and deploy_handler_loop
--   Agent/Dtp.antt          satdeploy-agent/src/dtp_client.c: the older download over libdtp
--   Ground/Args.antt        satdeploy-apm/src/satdeploy_apm.c: satdeploy_reorder_argv;
--   Ground/AppName.antt     satdeploy_derive_app_name;
--   Ground/Push.antt        deploy_single_app, and svu_serve_session_start of svu_serve_session.c;
--   Ground/Commands.antt    the commands status, upload, rollback, list and logs
--   Ground/Pass.antt        a push of the ground station that the agent answers
--   LossFilter.antt         satdeploy-agent/src/loss_filter.c, and the hook of
--     LossFilter/Pattern    loss_filter_iface_hook.c; the pattern file and loss_filter_init;
--     LossFilter/Schedule   what the packets leave alone
--   Agent/Tests.antt, Agent/Runs.antt, Svu/Tests.antt, Svu/Runs.antt and the other files
--     Tests.antt: the theorems at concrete inputs
--   Prelude.antt            names, lists and 32-bit words that the other files share
-- The directories satdeploy-agent/svu and satdeploy-apm/svu hold the same ci_svu.c, ci_sha256.c and
-- svu_proto.h.
--
-- A byte is a natural number, a buffer or a packet a list of bytes. A 32-bit sum keeps its
-- wrap-around, written `% u32_mod`; where the code counts in 64 bits nothing can wrap, and nothing
-- is written. What the CSP library returns is a parameter: a `Link` lists, for each round, what the
-- control connection yields to each attempt and which packets each drain reads. A theorem for every
-- `Link` holds for each loss, repetition, reordering or damage of packets. The outcomes of the
-- sidecar's system calls are arguments too, as are those of the agent's: how many bytes the
-- unchecked `fwrite` of svu_session.c stores, whether `stat` finds the file, and
-- how many bytes the unchecked `fclose` of a copy loses. A string is the list of its
-- bytes before the NUL, a fixed buffer of n bytes keeps n - 1 of them (`clip`); a null pointer in a
-- request is the empty string, as the handlers take them alike. The handlers take the digest of a
-- file, which is the vendored sha256.c, as the parameter `digest`.
--
-- Fuel: the loop of `blast_interval` goes forward by at least a byte a round, so `end - start`
-- rounds are enough; `send_manifest` has a round for each byte of the manifest; the search for
-- holes in `verify` has one more than the bytes of the payload. The theorems on `blast_interval`
-- and `verify` show that nothing is cut off. The parsers of the table have the bytes of the text, of
-- which each round takes one; the sort has as many rounds as entries, and its theorem shows that
-- they are enough. The search for the gaps has a round for each packet that is left, and its
-- theorem shows that none is overlooked; the retries are as many as in the code. `rounds` has the
-- fuel that the code has, `max_rounds`.
--
-- Not modelled: allocation failures, times, pacing and prints, the file input of svu_load_file, the
-- set-up of sockets and the buffers of CSP; files that are no regular files and directories; the
-- set-up of the agent (main.c); the database of the history (history.c) and the layout of what is
-- printed (output.c); generated and vendored code (deploy.pb-c.c, sha256.c), of which the ground
-- station's exchange of a request is one parameter.
pub mod Prelude
pub mod Agent
pub mod Ground
pub mod LossFilter
pub mod SessionState
pub mod Sha256
pub mod Svu
