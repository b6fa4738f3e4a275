-- ===== src/Svu/Tracker.antt =====
-- satdeploy-agent/svu/ci_svu.c: reassembly and block integrity. The pointers that a call passes are
-- not NULL and its allocations succeed; `none` is NULL, or -1. A 32-bit sum keeps its wrap-around.
pub mod Blocks
pub mod Invariant
pub mod Reachable
pub mod Ranges
pub mod Holes
pub mod Damage
pub mod Verdict
pub mod Content
pub mod Delivery
use sat_build.Prelude.{
  ℕ, zero, suc, ◌+◌, ◌-◌, ◌*◌, ◌/◌, ◌%◌, Bool, true, false, ◌&&◌, ◌||◌, not, Option, none, some,
  List, [], ◌∷◌, ◌++◌, ltb, ◌==◌, if◌then◌else◌, length, get_or, set, take, replicate, write_at,
  slice, u32_mod,
}
use sat_build.Sha256.{sha256}
use sat_build.Svu.Wire.{Interval}

abbrev pub hash_len : ℕ
hash_len = 32

-- `ci_svu_status_t`
pub data Status : Type 0 where
  incomplete complete_verified corrupt : Status

-- `struct ci_svu`; `payload` is its `data`.
pub record Tracker : Type 0 where
  pub total : ℕ
  pub block : ℕ
  pub nblocks : ℕ
  pub covered_count : ℕ
  pub payload : List ℕ
  pub covered : List ℕ
  pub expected : List ℕ

-- `ci_svu_nblocks`
unfoldable pub nblocks : ℕ → ℕ → ℕ
nblocks total_size block_size =
    if (total_size == 0) || (block_size == 0)
    then 0
    else (total_size + block_size - 1) % u32_mod / block_size

-- The end of block `b`: `min (b * block + block, total)`, in 64 bits.
abbrev pub block_end : ℕ → ℕ → ℕ → ℕ
block_end total block b = if ltb total (b * block + block) then total else b * block + block

-- `hash_block`
unfoldable pub hash_block : List ℕ → ℕ → ℕ → ℕ → List ℕ
hash_block src total block b = sha256 (slice (b * block) (block_end total block b - b * block) src)

-- The loop of `ci_svu_manifest`, for `n` blocks from `b` on.
unfoldable pub manifest_from : ℕ → ℕ → List ℕ → ℕ → ℕ → List ℕ
manifest_from zero b src total block = []
manifest_from (suc n) b src total block =
    hash_block src total block b ++ manifest_from n (b + 1) src total block

-- `ci_svu_manifest`: the digests that it writes. It returns the number of blocks.
unfoldable pub manifest : List ℕ → ℕ → ℕ → List ℕ
manifest src total_size block_size =
    manifest_from (nblocks total_size block_size) 0 src total_size block_size

-- The tracker that `ci_svu_new` sets up behind its guard.
abbrev pub initial : ℕ → ℕ → List ℕ → Tracker
initial total_size block_size expected = record {
  total = total_size;
  block = block_size;
  nblocks = nblocks total_size block_size;
  covered_count = 0;
  payload = replicate total_size 0;
  covered = replicate total_size 0;
  expected = take (nblocks total_size block_size * hash_len) expected;
}

-- `ci_svu_new`
unfoldable pub new : ℕ → ℕ → List ℕ → ℕ → Option Tracker
new total_size block_size expected nblocks' =
    let nblk = nblocks total_size block_size in
    if (nblk == 0) || not (nblk == nblocks')
    then none
    else some (initial total_size block_size expected)

-- The coverage bytes and their count.
pub record Coverage : Type 0 where
  pub bytes : List ℕ
  pub count : ℕ

-- The body of the loop of `ci_svu_accept`.
unfoldable pub cover_byte : ℕ → Coverage → Coverage
cover_byte i c =
    if get_or c.bytes i 1 == 0
    then record { bytes = set c.bytes i 1; count = (c.count + 1) % u32_mod }
    else c

-- The loop, for `n` bytes from `i` on.
unfoldable pub cover : ℕ → ℕ → Coverage → Coverage
cover zero i c = c
cover (suc n) i c = cover n (i + 1) (cover_byte i c)

-- The tracker behind the guard of `ci_svu_accept`.
abbrev pub accepted : Tracker → ℕ → List ℕ → Tracker
accepted s offset buf =
    let c = cover (length buf) offset (record { bytes = s.covered; count = s.covered_count }) in
    record s { covered_count = c.count; payload = write_at s.payload offset buf; covered = c.bytes }

-- `ci_svu_accept`
unfoldable pub accept : Tracker → ℕ → List ℕ → Option Tracker
accept s offset buf =
    if ltb s.total (offset + length buf) then none else some (accepted s offset buf)

-- The intervals written to `out`, at most `max`, and the count of all.
pub record Output : Type 0 where
  pub out : List Interval
  pub count : ℕ

abbrev pub no_output : Output
no_output = record { out = []; count = 0 }

-- `push_interval`
unfoldable pub push_interval : ℕ → Output → ℕ → ℕ → Output
push_interval max o start end = record {
  out = if ltb o.count max then o.out ++ record { start = start; end = end } ∷ [] else o.out;
  count = (o.count + 1) % u32_mod;
}

-- `while (run < total && covered[run] == 0) run++`, where `n` bytes are left before `total`.
unfoldable pub run_end : ℕ → List ℕ → ℕ → ℕ
run_end zero covered run = run
run_end (suc n) covered run =
    let rest = run_end n covered (run + 1) in if get_or covered run 1 == 0 then rest else run

-- The loop over the bytes of a payload with holes, on fuel.
unfoldable pub holes : ℕ → ℕ → ℕ → List ℕ → ℕ → Output → Output
holes zero max total covered i o = o
holes (suc fuel) max total covered i o =
    let run = run_end (total - i) covered i in
    let hole = holes fuel max total covered run (push_interval max o i run) in
    let rest = holes fuel max total covered (i + 1) o in
    if ltb i total then (if get_or covered i 1 == 0 then hole else rest) else o

-- `memcmp (xs, ys, n) == 0`
unfoldable pub same_bytes : List ℕ → List ℕ → Bool
same_bytes [] [] = true
same_bytes [] (y ∷ ys) = false
same_bytes (x ∷ xs) [] = false
same_bytes (x ∷ xs) (y ∷ ys) = (x == y) && same_bytes xs ys

-- The comparison of block `b`'s digest with the expected one.
unfoldable pub block_matches : Tracker → ℕ → Bool
block_matches s b =
    same_bytes (hash_block s.payload s.total s.block b) (slice (b * hash_len) hash_len s.expected)

-- The variables of the loop over the blocks; `out` and `count` are in `pushed`.
pub record Scan : Type 0 where
  pub status : Status
  pub run_start : ℕ
  pub run_end : ℕ
  pub pushed : Output

-- The push of the open run, if there is one.
pub push_run : ℕ → Scan → Output
push_run max c =
    if c.run_end == c.run_start then c.pushed else push_interval max c.pushed c.run_start c.run_end

-- The body of the loop over the blocks.
unfoldable pub scan_block : Tracker → ℕ → ℕ → Scan → Scan
unfolding push_run
scan_block s max b c =
    let start = b * s.block % u32_mod in
    let end = block_end s.total s.block b % u32_mod in
    if block_matches s b
    then c
    else if not (c.run_end == c.run_start) && (start == c.run_end)
    then record c { status = corrupt; run_end = end }
    else record { status = corrupt; run_start = start; run_end = end; pushed = push_run max c }

-- The loop, for `n` blocks from `b` on.
unfoldable pub scan : ℕ → ℕ → Tracker → ℕ → Scan → Scan
scan zero b s max c = c
scan (suc n) b s max c = scan n (b + 1) s max (scan_block s max b c)

abbrev pub no_run : Scan
no_run = record { status = complete_verified; run_start = 0; run_end = 0; pushed = no_output }

-- `ci_svu_verify` with room for `max` intervals. The loop over the bytes makes at most `total`
-- rounds.
unfoldable pub verify : Tracker → ℕ → Status × Output
verify s max =
    let found = scan s.nblocks 0 s max no_run in
    if ltb s.covered_count s.total
    then (incomplete, holes (s.total + 1) max s.total s.covered 0 no_output)
    else (found.status, push_run max found)
