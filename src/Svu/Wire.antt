-- ===== src/Svu/Wire.antt =====
-- satdeploy-agent/svu/svu_proto.h: the wire format. A buffer is the list of its bytes; an encoder
-- returns the bytes that it wrote, a decoder is given the `len` bytes of the packet.
pub mod RoundTrip
pub mod Announce
use sat_build.Prelude.{
  ℕ, zero, suc, ◌+◌, ◌-◌, ◌*◌, ◌/◌, ◌%◌, ◌^◌, ◌||◌, not, Option, none, some, List, [], ◌∷◌, ◌++◌,
  ltb, ◌==◌, if◌then◌else◌, length, drop, replicate,
}

abbrev pub ctrl_port : ℕ
ctrl_port = 11

abbrev pub data_port : ℕ
data_port = 9

abbrev pub data_hdr : ℕ
data_hdr = 8

abbrev pub magic_req : ℕ
magic_req = 0x51555653

abbrev pub magic_resp : ℕ
magic_resp = 0x52555653

abbrev pub max_intervals : ℕ
max_intervals = 32

abbrev pub req_hdr : ℕ
req_hdr = 24

abbrev pub resp_hdr : ℕ
resp_hdr = 20

-- `svu_put32`: `v & 0xFF`, `(v >> 8) & 0xFF`, ...
abbrev pub put32 : ℕ → List ℕ
put32 v = v % 256 ∷ v / 2 ^ 8 % 256 ∷ v / 2 ^ 16 % 256 ∷ v / 2 ^ 24 % 256 ∷ []

-- `svu_get32`. The four shifted bytes have no bit in common, so `|` is a sum. (The reads are
-- guarded by a length; a shorter buffer reads as 0 here.)
unfoldable pub get32 : List ℕ → ℕ
get32 (a ∷ b ∷ c ∷ d ∷ _) = a + b * 2 ^ 8 + c * 2 ^ 16 + d * 2 ^ 24
get32 _ = 0

-- `svu_wire_interval_t` and `ci_svu_interval_t`
pub record Interval : Type 0 where
  pub start : ℕ
  pub end : ℕ

abbrev pub zero_interval : Interval
zero_interval = record { start = 0; end = 0 }

-- `svu_req_t`; `intervals` is the array of `max_intervals` entries.
pub record Req : Type 0 where
  pub magic : ℕ
  pub session_id : ℕ
  pub mtu : ℕ
  pub block_size : ℕ
  pub nof_intervals : ℕ
  pub client_addr : ℕ
  pub intervals : List Interval

-- The loop of `svu_req_encode` over the first `n` entries of the array.
pub encode_intervals : ℕ → List Interval → List ℕ
encode_intervals zero ivs = []
encode_intervals (suc n) [] = []
encode_intervals (suc n) (iv ∷ ivs) = put32 iv.start ++ (put32 iv.end ++ encode_intervals n ivs)

-- `svu_req_encode`
unfoldable pub req_encode : Req → List ℕ
req_encode r =
    let n = if ltb max_intervals r.nof_intervals then max_intervals else r.nof_intervals in
    put32 r.magic
    ++ (put32 r.session_id
        ++ (put32 r.mtu
            ++ (put32 r.block_size
                ++ (put32 n ++ (put32 r.client_addr ++ encode_intervals n r.intervals)))))

-- The loop of `svu_req_decode`: `n` intervals of eight bytes.
pub decode_intervals : ℕ → List ℕ → List Interval
decode_intervals zero buf = []
decode_intervals (suc n) buf =
    record { start = get32 buf; end = get32 (drop 4 buf) } ∷ decode_intervals n (drop 8 buf)

-- `svu_req_decode`; `none` is -1. The array behind the decoded entries stays as `memset` left it.
unfoldable pub req_decode : List ℕ → Option Req
req_decode buf =
    let magic = get32 buf in
    let nof = get32 (drop 16 buf) in
    if ltb (length buf) req_hdr
    then none
    else if not (magic == magic_req) || ltb max_intervals nof
    then none
    else if ltb (length buf) (req_hdr + nof * 8)
    then none
    else some (record {
      magic = magic;
      session_id = get32 (drop 4 buf);
      mtu = get32 (drop 8 buf);
      block_size = get32 (drop 12 buf);
      nof_intervals = nof;
      client_addr = get32 (drop 20 buf);
      intervals =
          decode_intervals nof (drop 24 buf) ++ replicate (max_intervals - nof) zero_interval;
    })
