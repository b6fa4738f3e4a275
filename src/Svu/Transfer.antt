-- ===== src/Svu/Transfer.antt =====
-- `svu_download_file` of satdeploy-agent/src/svu_transfer.c: one pass of the receiving end with the
-- sidecar as its hooks, in the flight build.
pub mod Keeps
pub mod Result
use sat_build.Prelude.{
  ℕ, ◌%◌, Bool, true, ◌&&◌, ◌||◌, not, Option, none, some, List, [], ◌∷◌, ltb, ◌==◌, if◌then◌else◌,
  length, u32_mod,
}
use sat_build.Svu.Session.Client.{
  HookCall, meta, fragment, complete, Link, Client, Outcome, verified, failed, client_run,
}
use sat_build.Svu.Sidecar.{
  Sidecar, sidecar_hdr, start_pass, sidecar_restore, sidecar_meta, sidecar_data, sidecar_complete,
}

abbrev pub svu_block_size : ℕ
svu_block_size = 4096

abbrev pub svu_max_rounds : ℕ
svu_max_rounds = 24

-- One call of a hook, where no system call fails.
unfoldable pub call_hook : Sidecar → HookCall → Sidecar
call_hook sc (meta total block) = sidecar_meta true true sidecar_hdr sc total block
call_hook sc (fragment offset buf) = sidecar_data (length buf) sc offset buf
call_hook sc complete = sidecar_complete sc

unfoldable pub call_hooks : Sidecar → List HookCall → Sidecar
call_hooks sc [] = sc
call_hooks sc (call ∷ calls) = call_hooks (call_hook sc call) calls

-- How a download ends: the bytes that are at `dest_path`, if the result is 0, and the sidecar's
-- file.
pub record Download : Type 0 where
  pub result : Option (List ℕ)
  pub sidecar_file : Option (List ℕ)

-- The check of the size of the file on the disk; an expected size of 0 is any. `stats` says that
-- `stat` succeeds.
unfoldable pub check_size : ℕ → Bool → Outcome → Option (List ℕ)
check_size expected_size stats failed = none
check_size expected_size stats (verified payload file) =
    if not (expected_size == 0) && (not stats || not (length file % u32_mod == expected_size))
    then none
    else some file

-- `svu_download_file`: `named` says that `dest_path` is not empty, `usable` that there is a path for
-- the sidecar, `disk` what is at it, `outfile` how many bytes `dest_path` takes if it can be opened,
-- and `stats` that `stat` of it succeeds.
unfoldable pub svu_download_file :
    Bool → ℕ → ℕ → ℕ → Bool → Option (List ℕ) → Option ℕ → Bool → List Link → Download
svu_download_file named server_node expected_size mtu usable disk outfile stats links =
    let use_mtu = if mtu == 0 then 1024 else mtu in
    let start = sidecar_restore true true (start_pass disk) in
    let resumed = client_run outfile svu_block_size use_mtu svu_max_rounds start.1 links in
    let alone = client_run outfile svu_block_size use_mtu svu_max_rounds none links in
    if not named || ltb 65535 server_node
    then record { result = none; sidecar_file = disk }
    else if usable
    then record {
      result = check_size expected_size stats resumed.0;
      sidecar_file = (call_hooks start.0 resumed.1.hooked).disk;
    }
    else record { result = check_size expected_size stats alone.0; sidecar_file = disk }
