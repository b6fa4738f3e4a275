-- ===== src/Agent/Dtp.antt =====
-- satdeploy-agent/src/dtp_client.c in the flight build: the older download, which asks libdtp again
-- for the packets that its bitmap lacks. What libdtp passes to the callback, and what a transfer
-- returns, are arguments.
pub mod Bits
pub mod Gaps
pub mod Content
pub mod Result
mod Tests
use sat_build.Prelude.{
  zeros, pwrite, ℕ, zero, suc, ◌+◌, ◌-◌, ◌/◌, ◌%◌, ◌^◌, Bool, true, false, ◌&&◌, ◌||◌, not, Option,
  none, some, List, [], ◌∷◌, ◌++◌, ltb, leb, ◌==◌, if◌then◌else◌, length, get_or, set, u32_mod,
}
use sat_build.SessionState.{session_state_load, session_state_save}

abbrev pub dtp_default_mtu : ℕ
dtp_default_mtu = 1024

abbrev pub dtp_max_retry_rounds : ℕ
dtp_max_retry_rounds = 8

-- The bit of a sequence number in the bitmap.
abbrev pub bit : List ℕ → ℕ → Bool
bit bitmap seq = get_or bitmap (seq / 8) 0 / 2 ^ (seq % 8) % 2 == 1

-- `seq_is_received`
unfoldable pub seq_is_received : ℕ → List ℕ → ℕ → Bool
seq_is_received nof_packets bitmap seq = if leb nof_packets seq then true else bit bitmap seq

-- `mark_seq_received`: the byte with one bit set.
unfoldable pub mark_seq_received : ℕ → List ℕ → ℕ → List ℕ
mark_seq_received nof_packets bitmap seq =
    if leb nof_packets seq
    then bitmap
    else if bit bitmap seq
    then bitmap
    else set bitmap (seq / 8) (get_or bitmap (seq / 8) 0 + 2 ^ (seq % 8))

-- `interval_t`, with both ends in it.
pub record Gap : Type 0 where
  pub start : ℕ
  pub end : ℕ

-- The loops over a stretch of packets that are received, or that are not, on fuel.
unfoldable pub skip_while : ℕ → (ℕ → Bool) → ℕ → ℕ
skip_while zero test i = i
skip_while (suc fuel) test i = let rest = skip_while fuel test (i + 1) in if test i then rest else i

-- The loop of `compute_missing_intervals`, where `received` is `seq_is_received`: `room` is what is
-- left of the 8 intervals.
unfoldable pub gaps_from : ℕ → ℕ → (ℕ → Bool) → ℕ → List Gap
gaps_from zero nof_packets received i = []
gaps_from (suc room) nof_packets received i =
    let gap_start = skip_while (nof_packets - i) received i in
    let behind = skip_while (nof_packets - gap_start) (λ k. not (received k)) gap_start in
    let more = gaps_from room nof_packets received behind in
    if leb nof_packets gap_start then [] else record { start = gap_start; end = behind - 1 } ∷ more

unfoldable pub compute_missing_intervals : ℕ → List ℕ → List Gap
compute_missing_intervals nof_packets bitmap =
    gaps_from 8 nof_packets (seq_is_received nof_packets bitmap) 0

-- `count_received_packets`
unfoldable pub count_to : (ℕ → Bool) → ℕ → ℕ
count_to received zero = 0
count_to received (suc n) =
    let before = count_to received n in if received n then before + 1 else before

unfoldable pub count_received_packets : ℕ → List ℕ → ℕ
count_received_packets nof_packets bitmap =
    count_to (seq_is_received nof_packets bitmap) nof_packets

-- A packet that libdtp passes on: its length, what `dtp_get_data_info` finds in it, and whether its
-- bytes can be stored.
pub record Packet : Type 0 where
  pub size : ℕ
  pub seq : ℕ
  pub offset : ℕ
  pub bytes : List ℕ
  pub stores : Bool

-- `download_ctx_t`
pub record DownloadCtx : Type 0 where
  pub file : List ℕ
  pub bytes_written : ℕ
  pub error : Bool
  pub recv_bitmap : List ℕ
  pub nof_packets : ℕ

-- `on_download_data`, and whether the transfer goes on.
unfoldable pub on_download_data : DownloadCtx → Packet → DownloadCtx × Bool
on_download_data ctx p =
    if ltb p.size 8
    then (ctx, true)
    else if not p.stores
    then (record ctx { error = true }, false)
    else (
      record ctx {
        file = pwrite ctx.file p.offset p.bytes;
        bytes_written = (ctx.bytes_written + length p.bytes) % u32_mod;
        recv_bitmap = mark_seq_received ctx.nof_packets ctx.recv_bitmap p.seq;
      },
      true,
    )

-- The packets of a transfer, until the callback stops it.
unfoldable pub receive_all : DownloadCtx → List Packet → DownloadCtx
receive_all ctx [] = ctx
receive_all ctx (p ∷ ps) =
    let r = on_download_data ctx p in let rest = receive_all r.0 ps in if r.1 then rest else r.0

-- One `dtp_start_transfer`: its packets, and whether it returns DTP_OK or DTP_CANCELLED.
pub record Transfer : Type 0 where
  pub packets : List Packet
  pub fine : Bool

abbrev pub next_transfer : List Transfer → Transfer
next_transfer [] = record { packets = []; fine = false }
next_transfer (t ∷ ts) = t

abbrev pub later_transfers : List Transfer → List Transfer
later_transfers [] = []
later_transfers (t ∷ ts) = ts

-- How the transfers end: the context, whether one failed, and the gaps that were asked for again.
pub record Ended : Type 0 where
  pub ctx : DownloadCtx
  pub hard_error : Bool
  pub asked : List (List Gap)

-- The loop over the rounds, with those that are left and how the last transfer ended.
unfoldable pub retry : ℕ → DownloadCtx → Bool → List Transfer → Ended
retry zero ctx fine ts = record { ctx = ctx; hard_error = false; asked = [] }
retry (suc rounds) ctx fine ts =
    let gaps = compute_missing_intervals ctx.nof_packets ctx.recv_bitmap in
    let t = next_transfer ts in
    let rest = retry rounds (receive_all ctx t.packets) t.fine (later_transfers ts) in
    if ctx.error
    then record { ctx = ctx; hard_error = false; asked = [] }
    else if not fine
    then record { ctx = ctx; hard_error = true; asked = [] }
    else if leb ctx.nof_packets (count_received_packets ctx.nof_packets ctx.recv_bitmap)
    then record { ctx = ctx; hard_error = false; asked = [] }
    else if length gaps == 0
    then record { ctx = ctx; hard_error = false; asked = [] }
    else record rest { asked = gaps ∷ rest.asked }

unfoldable pub is_covered : DownloadCtx → Bool
is_covered ctx =
    (ctx.nof_packets == 0)
    || leb ctx.nof_packets (count_received_packets ctx.nof_packets ctx.recv_bitmap)

-- A resumed download asks for the gaps at once.
unfoldable pub first_asked : Bool → DownloadCtx → List (List Gap)
first_asked resumed ctx =
    let gaps = compute_missing_intervals ctx.nof_packets ctx.recv_bitmap in
    if resumed && ltb 0 (length gaps) then gaps ∷ [] else []

-- The first transfer and the retries, where something is missing.
unfoldable pub transfer_all : Bool → DownloadCtx → List Transfer → Ended
transfer_all resumed ctx ts =
    let t = next_transfer ts in
    let ended =
      retry dtp_max_retry_rounds (receive_all ctx t.packets) t.fine (later_transfers ts) in
    if is_covered ctx
    then record { ctx = ctx; hard_error = false; asked = [] }
    else record ended { asked = first_asked resumed ctx ++ ended.asked }

abbrev pub eff_mtu_of : ℕ → ℕ
eff_mtu_of mtu =
    let used = if mtu == 0 then dtp_default_mtu else mtu in if ltb 8 used then used - 8 else 1

abbrev pub nof_packets_of : ℕ → ℕ → ℕ
nof_packets_of expected_size eff_mtu =
    if expected_size == 0 then 0 else (expected_size + eff_mtu - 1) % u32_mod / eff_mtu

-- The system: whether the state has a path, its file and the length of its path, the bytes at
-- `dest_path`, whether that can be opened again or anew, whether there is a session, the transfers,
-- and the outcomes of saving the state.
pub record DtpIo : Type 0 where
  pub usable : Bool
  pub state : Option (List ℕ)
  pub path_len : ℕ
  pub dest : Option (List ℕ)
  pub opens : Bool
  pub session : Bool
  pub transfers : List Transfer
  pub saves : Bool

-- The bitmap to begin with, and the file, where an earlier pass is resumed.
unfoldable pub begin_with : DtpIo → ℕ → Option (List ℕ) → List ℕ × List ℕ
begin_with io bitmap_bytes none = (zeros bitmap_bytes, [])
begin_with io bitmap_bytes (some bitmap) = elim io.dest [
  | none ↦ (zeros bitmap_bytes, [])
  | some bytes ↦ (bitmap, bytes)
]

-- The state of an earlier pass, where it has a path.
unfoldable pub load :
    Bool → Option (List ℕ) → ℕ → List ℕ → ℕ → ℕ → ℕ → Option (List ℕ) × Option (List ℕ)
load usable state expected_size expected_hash nof_packets eff_mtu bitmap_bytes =
    if usable
    then session_state_load state expected_size expected_hash nof_packets eff_mtu bitmap_bytes
    else (state, none)

unfoldable pub resumes : Option (List ℕ) → Option (List ℕ) → Bool
resumes dest none = false
resumes none (some _) = false
resumes (some _) (some _) = true

-- A state whose file is gone is removed.
unfoldable pub kept_state : Option (List ℕ) → Option (List ℕ) × Option (List ℕ) → Option (List ℕ)
kept_state dest (state, none) = state
kept_state none (state, some _) = none
kept_state (some _) (state, some _) = state

-- What a download leaves: whether it returns 0, the context, and the file of the state.
pub record DtpDone : Type 0 where
  pub result : Bool
  pub ctx : DownloadCtx
  pub state : Option (List ℕ)

-- The part behind the transfers: the state is removed, or saved for the next pass.
unfoldable pub conclude : DtpIo → ℕ → List ℕ → ℕ → Option (List ℕ) → Ended → DtpDone
conclude io expected_size expected_hash eff_mtu state ended =
    let ctx = ended.ctx in
    let got = count_received_packets ctx.nof_packets ctx.recv_bitmap in
    let saved =
      (session_state_save io.saves io.saves io.saves io.path_len state expected_size expected_hash
        ctx.nof_packets eff_mtu ctx.recv_bitmap).0 in
    record {
      result = not ctx.error && (not ended.hard_error && is_covered ctx);
      ctx = ctx;
      state =
          if not io.usable || ctx.error
          then state
          else if is_covered ctx
          then none
          else if ltb 0 got
          then saved
          else state;
    }

-- `dtp_download_file`; `io.usable` has the tests on the name and the digest too.
unfoldable pub dtp_download_file : DtpIo → ℕ → List ℕ → ℕ → DtpDone
dtp_download_file io expected_size expected_hash mtu =
    let eff_mtu = eff_mtu_of mtu in
    let nof_packets = nof_packets_of expected_size eff_mtu in
    let bitmap_bytes = (nof_packets + 7) % u32_mod / 8 in
    let usable = io.usable && (ltb 0 expected_size && ltb 0 bitmap_bytes) in
    let loaded =
      load usable io.state expected_size expected_hash nof_packets eff_mtu bitmap_bytes in
    let begun = begin_with io bitmap_bytes loaded.1 in
    let ctx : DownloadCtx = record {
      file = begun.1;
      bytes_written = 0;
      error = false;
      recv_bitmap = begun.0;
      nof_packets = nof_packets;
    } in
    let state = kept_state io.dest loaded in
    if not io.opens || not io.session
    then record { result = false; ctx = ctx; state = state }
    else conclude (record io { usable = usable }) expected_size expected_hash eff_mtu state
        (transfer_all (resumes io.dest loaded.1) ctx io.transfers)
