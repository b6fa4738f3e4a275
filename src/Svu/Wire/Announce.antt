-- ===== src/Svu/Wire/Announce.antt =====
-- The announce framing of svu_proto.h.
use sat_build.Prelude.{
  ℕ, zero, suc, ◌+◌, ◌-◌, ◌≤◌, ◌<◌, ◌≡◌, refl, ◌≢◌, ◌⊎◌, inl, inr, Bool, false, ◌&&◌, Option, none,
  some, List, ◌++◌, arith, ltb, leb, ◌==◌, if◌then◌else◌, le→ltb, lt→leb, ne→==, length, take, drop,
  take_all, u32_mod,
}
use sat_build.Svu.Wire.{put32, get32}
use sat_build.Svu.Wire.RoundTrip.{get32-put32}

abbrev pub push_magic : ℕ
push_magic = 0x53565550

-- `svu_announce_encode`: the bytes that it stores from the buffer's start on. It returns their
-- count. `path` is without its final NUL.
unfoldable pub announce_encode : ℕ → List ℕ → ℕ → List ℕ
announce_encode mode path bufcap =
    let plen = length path in
    if mode == 0
    then take (if ltb bufcap plen then bufcap else plen) path
    else put32 push_magic
      ++ (put32 mode
          ++ take (if ltb bufcap (plen + 8) then (if ltb 8 bufcap then bufcap - 8 else 0) else plen)
              path)

-- The test of `svu_announce_decode` for the framing with a magic.
abbrev pub has_magic : List ℕ → Bool
has_magic buf = leb 8 (length buf) && (get32 buf == push_magic)

-- What is copied to a `path` of `pathcap` bytes, before the NUL; `none` where nothing is stored.
abbrev pub copy_path : List ℕ → ℕ → Option (List ℕ)
copy_path src pathcap =
    if pathcap == 0
    then none
    else some (take (if leb pathcap (length src) then pathcap - 1 else length src) src)

-- `svu_announce_decode`: the mode and the path.
unfoldable pub announce_decode : List ℕ → ℕ → ℕ × Option (List ℕ)
announce_decode buf pathcap =
    if has_magic buf
    then (get32 (drop 4 buf), copy_path (drop 8 buf) pathcap)
    else (0, copy_path buf pathcap)

copy_path_fits :
    (path : List ℕ) (pathcap : ℕ) → length path < pathcap → copy_path path pathcap ≡ some path
copy_path_fits path pathcap h = rw (
  ne→== pathcap 0 (omega arith),
  lt→leb pathcap (length path) h,
  take_all (length path) path (omega arith),
)

-- The encoder's bytes, where the path fits its buffer.
announce_encode_legacy :
    (path : List ℕ) (bufcap : ℕ) → length path + 8 ≤ bufcap → announce_encode 0 path bufcap ≡ path
unfolding announce_encode
announce_encode_legacy path bufcap h =
    rw (le→ltb bufcap (length path) (omega arith), take_all (length path) path (omega arith))

announce_encode_mode :
    (mode : ℕ) (path : List ℕ) (bufcap : ℕ)
    → mode ≢ 0
    → length path + 8 ≤ bufcap
    → announce_encode mode path bufcap ≡ put32 push_magic ++ (put32 mode ++ path)
unfolding announce_encode
announce_encode_mode mode path bufcap m h =
    rw
      (ne→== mode 0 m, le→ltb bufcap (length path + 8) h, take_all (length path) path (omega arith))

decode_magic :
    (mode : ℕ) (path : List ℕ) (pathcap : ℕ)
    → mode < u32_mod
    → announce_decode (put32 push_magic ++ (put32 mode ++ path)) pathcap
      ≡ (mode, copy_path path pathcap)
unfolding announce_decode
decode_magic mode path pathcap h =
    rw (get32-put32 push_magic (put32 mode ++ path) (omega arith), get32-put32 mode path h)
      (ground arith)

-- An announce whose path fits both buffers is decoded to its mode and path, if its mode is not 0
-- or its path does not look like the framing with a magic.
pub announce_decode-announce_encode :
    (mode : ℕ) (path : List ℕ) (bufcap pathcap : ℕ)
    → mode < u32_mod
    → length path + 8 ≤ bufcap
    → length path < pathcap
    → (mode ≢ 0) ⊎ (has_magic path ≡ false)
    → announce_decode (announce_encode mode path bufcap) pathcap ≡ (mode, some path)
announce_decode-announce_encode zero path bufcap pathcap hm hb hp (inl h) = absurd (h refl)
announce_decode-announce_encode zero path bufcap pathcap hm hb hp (inr h) =
    rw (announce_encode_legacy path bufcap hb)
      (unfold announce_decode in rw (h, copy_path_fits path pathcap hp))
announce_decode-announce_encode (suc mode) path bufcap pathcap hm hb hp h = rw (
  announce_encode_mode (suc mode) path bufcap (omega arith) hb,
  decode_magic (suc mode) path pathcap hm,
  copy_path_fits path pathcap hp,
)

-- With a mode other than 0 and a buffer of fewer than 8 bytes more is written than the buffer
-- holds.
pub announce_encode_overruns :
    (mode : ℕ) (path : List ℕ) (bufcap : ℕ)
    → mode ≢ 0
    → bufcap < 8
    → bufcap < length (announce_encode mode path bufcap)
unfolding announce_encode
announce_encode_overruns mode path bufcap hm hb = ground arith
