-- ===== src/SessionState/Saved.antt =====
-- What `session_state_save` stores, `session_state_load` gives back, and nothing else.
use mathlib.Core.Path.{subst}
use sat_build.Prelude.{
  zeros, ℕ, zero, suc, ◌+◌, ◌-◌, ◌≤◌, ◌<◌, ◌≡◌, refl, sym, ap, ◌∙◌, ◌≢◌, inl, inr, true, Option,
  some, List, [], ◌∷◌, ◌++◌, arith, leb, le→leb, ne→==, ==_refl, Bool-cases, none≢some, length,
  take, drop, length-append, length-take, length-replicate, take_all, drop-append_of_length,
  u16_mod, u32_mod, All,
}
use sat_build.Svu.Wire.{put32, get32}
use sat_build.Svu.Wire.RoundTrip.{get32-put32}
use sat_build.Svu.Tracker.Content.{same_bytes_iff}
use sat_build.SessionState.{
  hash_buf, put16, get16, state_bytes, session_state_save, string_in, header_fits,
  session_state_load,
}

length-hash_buf : (hash : List ℕ) → length (hash_buf hash) ≡ 65
length-hash_buf hash = omega (
  arith,
  length-append (take 64 hash) (zeros (65 - length (take 64 hash))),
  length-take 64 hash,
  length-replicate {A = ℕ} (65 - length (take 64 hash)) 0,
)

-- A string without NUL, read back from its buffer.
string_in-zeros :
    (n k : ℕ) (hash rest : List ℕ)
    → length hash ≤ n
    → All (λ c. c ≢ 0) hash
    → string_in n (hash ++ (zeros (suc k) ++ rest)) ≡ hash
unfolding string_in
string_in-zeros zero k [] rest h nz = refl
string_in-zeros (suc n) k [] rest h nz = refl
string_in-zeros zero k (c ∷ hash) rest h nz = absurd (omega arith)
string_in-zeros (suc n) k (c ∷ hash) rest h nz =
    rw (ne→== c 0 nz.0) (ap (λ l. c ∷ l) (string_in-zeros n k hash rest (omega arith) nz.1))

assoc : (xs ys zs : List ℕ) → (xs ++ ys) ++ zs ≡ xs ++ (ys ++ zs)
assoc [] ys zs = refl
assoc (x ∷ xs) ys zs = ap (λ l. x ∷ l) (assoc xs ys zs)

string_in-hash_buf :
    (hash rest : List ℕ)
    → length hash ≤ 64
    → All (λ c. c ≢ 0) hash
    → string_in 64 (hash_buf hash ++ rest) ≡ hash
string_in-hash_buf hash rest h nz =
    ap (string_in 64) (
      ap (λ l. (l ++ zeros (65 - length l)) ++ rest) (take_all 64 hash h)
      ∙ assoc hash (zeros (65 - length hash)) rest
      ∙ ap (λ n. hash ++ (zeros n ++ rest))
          (let e : 65 - length hash ≡ suc (64 - length hash) = omega arith in e))
    ∙ string_in-zeros 64 (64 - length hash) hash rest h nz

get16-put16 : (v : ℕ) (rest : List ℕ) → v < u16_mod → get16 (put16 v ++ rest) ≡ v
unfolding get16
get16-put16 v rest h = omega arith

-- What can be saved: 32-bit sizes, a 16-bit packet size, a digest of at most 64 bytes without NUL.
pub record IsState (size : ℕ) (hash : List ℕ) (packets mtu : ℕ) : Type 0 where
  pub size_lt : size < u32_mod
  pub packets_lt : packets < u32_mod
  pub mtu_lt : mtu < u16_mod
  pub hash_le : length hash ≤ 64
  pub hash_text : All (λ c. c ≢ 0) hash

module _ (size : ℕ) (hash : List ℕ) (packets mtu : ℕ) (bitmap : List ℕ) where
  abbrev behind_hash : List ℕ
  behind_hash = put32 packets ++ (put16 mtu ++ (put16 0 ++ bitmap))

  drop_buffer : drop 65 (hash_buf hash ++ behind_hash) ≡ behind_hash
  drop_buffer = drop-append_of_length 65 (hash_buf hash) behind_hash (length-hash_buf hash)

  state_bytes-header_fits :
      IsState size hash packets mtu
      → header_fits (state_bytes size hash packets mtu bitmap) size hash packets mtu ≡ true
  unfolding header_fits state_bytes get32
  state_bytes-header_fits v =
      rw
        (
          drop_buffer,
          le→leb 81 (length (state_bytes size hash packets mtu bitmap)) long,
          get32-put32 size (hash_buf hash ++ behind_hash) v.size_lt,
          get32-put32 packets (put16 mtu ++ (put16 0 ++ bitmap)) v.packets_lt,
          get16-put16 mtu (put16 0 ++ bitmap) v.mtu_lt,
          string_in-hash_buf hash behind_hash v.hash_le v.hash_text,
          (same_bytes_iff hash hash).1 refl,
          ==_refl size,
          ==_refl packets,
          ==_refl mtu,
        )
        refl
    where
      long : 81 ≤ length (state_bytes size hash packets mtu bitmap)
      long = omega (arith, length-append (hash_buf hash) behind_hash, length-hash_buf hash)

  -- What `session_state_save` stored for a transfer `session_state_load` gives back for the same
  -- transfer, and keeps: for 32-bit sizes, a 16-bit packet size and a digest of at most 64 bytes
  -- without NUL, whatever was on the disk before.
  pub load-save :
      (path_len : ℕ) (disk : Option (List ℕ)) {disk' : Option (List ℕ)}
      → IsState size hash packets mtu
      → session_state_save true true true path_len disk size hash packets mtu bitmap ≡ (disk', true)
      → session_state_load disk' size hash packets mtu (length bitmap) ≡ (disk', some bitmap)
  unfolding session_state_save session_state_load state_bytes
  load-save path_len disk {disk'} v e = elim (Bool-cases (leb 640 (path_len + 4))) [
    | inl long ↦ absurd (cc (ap (λ r. r.1) (rw (long, session_state_save) at e)))
    | inr fits ↦
        subst (λ d. session_state_load d size hash packets mtu (length bitmap) ≡ (d, some bitmap))
          (ap (λ r. r.0) (rw (fits, session_state_save) at e))
          (rw
            (
              state_bytes-header_fits v,
              drop_buffer,
              take_all (length bitmap) bitmap (omega arith),
              ==_refl (length bitmap),
            )
            refl)
  ]

  module _ (size' : ℕ) (hash' : List ℕ) (packets' mtu' : ℕ) where
    same_of_fits :
        IsState size hash packets mtu
        → header_fits (state_bytes size hash packets mtu bitmap) size' hash' packets' mtu' ≡ true
        → (size ≡ size') × (hash ≡ hash') × (packets ≡ packets') × (mtu ≡ mtu')
    unfolding header_fits state_bytes
    same_of_fits v q =
        let found =
          rw
            (
              drop_buffer,
              get32-put32 size (hash_buf hash ++ behind_hash) v.size_lt,
              get32-put32 packets (put16 mtu ++ (put16 0 ++ bitmap)) v.packets_lt,
              get16-put16 mtu (put16 0 ++ bitmap) v.mtu_lt,
              string_in-hash_buf hash behind_hash v.hash_le v.hash_text,
            )
            at q in
        ground (arith, (same_bytes_iff hash hash').0)

    fits_of_loaded :
        (file : List ℕ) (n : ℕ) {r : Option (List ℕ)} {bits : List ℕ}
        → session_state_load (some file) size' hash' packets' mtu' n ≡ (r, some bits)
        → header_fits file size' hash' packets' mtu' ≡ true
    unfolding session_state_load
    fits_of_loaded file n q = elim (Bool-cases (header_fits file size' hash' packets' mtu')) [
      | inl good ↦ good
      | inr bad ↦ absurd (none≢some (ap (λ r. r.1) (rw (bad, session_state_load) at q)))
    ]

    -- A saved state is loaded for no other transfer: where a load of it succeeds, size, digest,
    -- packet count and packet size are those it was saved for, if the sizes are 32-bit, the packet
    -- size is 16-bit, and the digest has at most 64 bytes and no NUL.
    pub load-save_same :
        (path_len : ℕ) (disk : Option (List ℕ)) {disk' : Option (List ℕ)} (n : ℕ)
        {loaded : Option (List ℕ)} {bits : List ℕ}
        → IsState size hash packets mtu
        → session_state_save true true true path_len disk size hash packets mtu bitmap
          ≡ (disk', true)
        → session_state_load disk' size' hash' packets' mtu' n ≡ (loaded, some bits)
        → (size ≡ size') × (hash ≡ hash') × (packets ≡ packets') × (mtu ≡ mtu')
    unfolding session_state_save
    load-save_same path_len disk {disk'} n {loaded} {bits} v e l =
        elim (Bool-cases (leb 640 (path_len + 4))) [
          | inl long ↦ absurd (cc (ap (λ r. r.1) (rw (long, session_state_save) at e)))
          | inr fits ↦ same_of_fits v (
              fits_of_loaded (state_bytes size hash packets mtu bitmap) n (
                subst (λ d. session_state_load d size' hash' packets' mtu' n ≡ (loaded, some bits))
                  (sym (ap (λ r. r.0) (rw (fits, session_state_save) at e))) l))
        ]
