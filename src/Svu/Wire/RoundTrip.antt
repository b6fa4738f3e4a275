-- ===== src/Svu/Wire/RoundTrip.antt =====
-- What `svu_req_encode` writes, `svu_req_decode` reads back.
use sat_build.Prelude.{
  ℕ, zero, suc, ◌-◌, ◌*◌, ◌≤◌, ◌<◌, ◌≡◌, refl, some, List, [], ◌∷◌, ◌++◌, arith, le→ltb, length,
  take, replicate, u32_mod, All,
}
use sat_build.Svu.Wire.{
  Interval, Req, zero_interval, max_intervals, magic_req, put32, get32, encode_intervals,
  decode_intervals, req_encode, req_decode,
}

pub get32-put32 : (v : ℕ) (rest : List ℕ) → v < u32_mod → get32 (put32 v ++ rest) ≡ v
unfolding get32
get32-put32 v rest h = omega arith

-- A 32-bit interval.
pub record IsWord (iv : Interval) : Type 0 where
  pub start_lt : iv.start < u32_mod
  pub end_lt : iv.end < u32_mod

-- A request whose fields are 32-bit words, with the magic and at most `max_intervals` intervals.
pub record IsRequest (r : Req) : Type 0 where
  pub magic_eq : r.magic ≡ magic_req
  pub session_lt : r.session_id < u32_mod
  pub mtu_lt : r.mtu < u32_mod
  pub block_lt : r.block_size < u32_mod
  pub addr_lt : r.client_addr < u32_mod
  pub nof_le : r.nof_intervals ≤ max_intervals
  pub array : length r.intervals ≡ max_intervals
  pub words : All IsWord r.intervals

length-encode_intervals :
    (n : ℕ) (ivs : List Interval) → n ≤ length ivs → length (encode_intervals n ivs) ≡ n * 8
unfolding encode_intervals
length-encode_intervals zero ivs h = omega arith
length-encode_intervals (suc n) [] h = absurd (omega arith)
length-encode_intervals (suc n) (iv ∷ ivs) h =
    omega (arith, length-encode_intervals n ivs (omega arith))

decode-encode_intervals :
    (n : ℕ) (ivs : List Interval)
    → n ≤ length ivs
    → All IsWord ivs
    → decode_intervals n (encode_intervals n ivs) ≡ take n ivs
unfolding encode_intervals decode_intervals
decode-encode_intervals zero ivs h w = refl
decode-encode_intervals (suc n) [] h w = absurd (omega arith)
decode-encode_intervals (suc n) (iv ∷ ivs) h w = rw (
  get32-put32 iv.start _ w.0.start_lt,
  get32-put32 iv.end _ w.0.end_lt,
  decode-encode_intervals n ivs (omega arith) w.1,
)

-- Decoding an encoded request of 32-bit fields, at most 32 intervals and the right magic gives
-- back its fields and its first `nof_intervals` intervals; the rest of the array is zero.
pub req_decode-req_encode :
    (r : Req)
    → IsRequest r
    → req_decode (req_encode r)
      ≡ some (record r {
        intervals =
            take r.nof_intervals r.intervals
            ++ replicate (max_intervals - r.nof_intervals) zero_interval;
      })
unfolding req_encode req_decode
req_decode-req_encode r v =
    rw
      (
        le→ltb _ _ v.nof_le,
        get32-put32 r.magic _ magic_lt,
        get32-put32 r.session_id _ v.session_lt,
        get32-put32 r.mtu _ v.mtu_lt,
        get32-put32 r.block_size _ v.block_lt,
        get32-put32 r.nof_intervals _ nof_lt,
        get32-put32 r.client_addr _ v.addr_lt,
        decode-encode_intervals r.nof_intervals r.intervals fits v.words,
        length-encode_intervals r.nof_intervals r.intervals fits,
        le→ltb _ _ v.nof_le,
      )
      (ground arith)
  where
    magic_lt : r.magic < u32_mod
    magic_lt = omega arith

    nof_lt : r.nof_intervals < u32_mod
    nof_lt = omega arith

    fits : r.nof_intervals ≤ length r.intervals
    fits = omega arith
