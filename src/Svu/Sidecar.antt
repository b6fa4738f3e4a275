-- ===== src/Svu/Sidecar.antt =====
-- satdeploy-agent/src/svu_transfer.c: the sidecar that keeps a pass's data over a restart. The file
-- at the sidecar's path is its list of bytes; what the system calls report is an argument.
pub mod Mirror
pub mod Resume
mod Tests
use sat_build.Prelude.{
  zeros, pwrite, ℕ, ◌+◌, ◌-◌, ◌*◌, ◌/◌, ◌%◌, ◌^◌, Bool, true, false, ◌&&◌, ◌||◌, not, Option, none,
  some, List, [], ◌∷◌, ◌++◌, ltb, leb, ◌==◌, if◌then◌else◌, length, get_or, take, drop, write_at,
}

abbrev pub sidecar_magic : ℕ
sidecar_magic = 0x53565550

abbrev pub sidecar_version : ℕ
sidecar_version = 1

abbrev pub sidecar_hdr : ℕ
sidecar_hdr = 16

-- `svu_sidecar_t`, and the file at its path: `fd` says that the descriptor is open, `path` that the
-- path is not empty.
pub record Sidecar : Type 0 where
  pub disk : Option (List ℕ)
  pub fd : Bool
  pub total : ℕ
  pub path : Bool

-- The sidecar that `svu_download_file` starts a pass with, in whatever state the disk is.
abbrev pub start_pass : Option (List ℕ) → Sidecar
start_pass disk = record { disk = disk; fd = false; total = 0; path = true }

-- `sidecar_put32`: big-endian.
abbrev pub sidecar_put32 : ℕ → List ℕ
sidecar_put32 v = v / 2 ^ 24 % 256 ∷ v / 2 ^ 16 % 256 ∷ v / 2 ^ 8 % 256 ∷ v % 256 ∷ []

-- `sidecar_get32`. The four shifted bytes have no bit in common, so `|` is a sum.
abbrev pub sidecar_get32 : List ℕ → ℕ
sidecar_get32 p =
    get_or p 0 0 * 2 ^ 24 + get_or p 1 0 * 2 ^ 16 + get_or p 2 0 * 2 ^ 8 + get_or p 3 0

-- The header that `sidecar_write_header` fills in.
abbrev pub header : ℕ → ℕ → List ℕ
header total block =
    sidecar_put32 sidecar_magic
    ++ (sidecar_put32 sidecar_version ++ (sidecar_put32 total ++ sidecar_put32 block))

-- `sidecar_write_header`, where `pwrite` stores `stored` bytes: the file, and success.
unfoldable pub sidecar_write_header : ℕ → List ℕ → ℕ → ℕ → List ℕ × Bool
sidecar_write_header stored file total block =
    (pwrite file 0 (take stored (header total block)), stored == sidecar_hdr)

-- The checks on a header.
unfoldable pub header_ok : List ℕ → Bool
header_ok file =
    leb sidecar_hdr (length file)
    && ((sidecar_get32 file == sidecar_magic)
        && ((sidecar_get32 (drop 4 file) == sidecar_version)
            && not (sidecar_get32 (drop 8 file) == 0)))

-- What `calloc` and the second `pread` leave in the buffer.
unfoldable pub restored : ℕ → List ℕ → List ℕ
restored total file = write_at (zeros total) 0 (take total (drop sidecar_hdr file))

-- `sidecar_restore`: `opens` is the outcome of `open`, `reads` that of the second `pread`.
unfoldable pub sidecar_restore : Bool → Bool → Sidecar → Sidecar × Option (List ℕ)
sidecar_restore opens reads sc = elim sc.disk [
  | none ↦ (sc, none)
  | some file ↦
      let total = sidecar_get32 (drop 8 file) in
      if not (sc.path && opens)
      then (sc, none)
      else if not (header_ok file && reads)
      then (record sc { disk = none }, none)
      else (record sc { fd = true; total = total }, some (restored total file))
]

-- The end of `sidecar_meta`, behind the opening or the reset of the file.
unfoldable pub put_header : ℕ → Sidecar → ℕ → ℕ → Sidecar
put_header stored sc total block = elim sc.disk [
  | none ↦ record sc { total = total }
  | some file ↦
      let written = sidecar_write_header stored file total block in
      record sc { disk = some written.0; fd = written.1; total = total }
]

-- `sidecar_meta`: `opens` and `cuts` are the outcomes of `open` and `ftruncate`.
unfoldable pub sidecar_meta : Bool → Bool → ℕ → Sidecar → ℕ → ℕ → Sidecar
sidecar_meta opens cuts stored sc total block =
    if sc.fd
    then put_header stored
        (if not (sc.total == total) && cuts then record sc { disk = some [] } else sc) total block
    else if sc.path && opens
    then put_header stored (record sc { disk = some []; fd = true }) total block
    else sc

-- `sidecar_data`, where `pwrite` stores `stored` bytes of `buf`.
unfoldable pub sidecar_data : ℕ → Sidecar → ℕ → List ℕ → Sidecar
sidecar_data stored sc offset buf =
    if not sc.fd || (ltb sc.total offset || ltb (sc.total - offset) (length buf))
    then sc
    else if stored == length buf
    then record sc {
      disk = elim sc.disk [
        | none ↦ none
        | some file ↦ some (pwrite file (sidecar_hdr + offset) buf)
      ];
    }
    else record sc { disk = none; fd = false }

-- `sidecar_complete`
unfoldable pub sidecar_complete : Sidecar → Sidecar
sidecar_complete sc = record sc { disk = if sc.path then none else sc.disk; fd = false }

-- The sidecar behind a list of fragments, each stored in full.
unfoldable pub save_all : Sidecar → List (ℕ × List ℕ) → Sidecar
save_all sc [] = sc
save_all sc ((offset, buf) ∷ l) = save_all (sidecar_data (length buf) sc offset buf) l
