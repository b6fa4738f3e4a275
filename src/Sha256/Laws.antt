-- ===== src/Sha256/Laws.antt =====
-- What the uploader relies on: the digest's size, and hashing in pieces.
use sat_build.Prelude.{ℕ, ◌≡◌, refl, inl, inr, List, [], ◌∷◌, ◌++◌, ltb, Bool-cases, length}
use sat_build.Sha256.{Context, update_byte, init, update, final, sha256}

length-final : (c : Context) → length (final c) ≡ 32
unfolding final
length-final c = elim (Bool-cases (ltb 56 (length (c.buf ++ 0x80 ∷ [])))) [
  | inl e ↦ rw e
  | inr e ↦ rw e
]

-- A digest has 32 bytes.
pub length-sha256 : (p : List ℕ) → length (sha256 p) ≡ 32
unfolding sha256
length-sha256 p = length-final (update init p)

-- Hashing a message in two pieces is hashing it at once.
pub update-append : (c : Context) (xs ys : List ℕ) → update c (xs ++ ys) ≡ update (update c xs) ys
unfolding update
update-append c [] ys = refl
update-append c (x ∷ xs) ys = update-append (update_byte c x) xs ys
