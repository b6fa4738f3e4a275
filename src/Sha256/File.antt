-- ===== src/Sha256/File.antt =====
-- `ci_sha256_file` of ci_sha256.c: the digest of a file that is read in pieces, as hexadecimal text.

use sat_build.Prelude.{
  ℕ, ◌+◌, ◌*◌, ◌/◌, ◌%◌, ◌≡◌, refl, sym, ap₂, ◌∙◌, Bool, false, Option, none, some, List, [], ◌∷◌,
  ◌++◌, arith, ltb, if◌then◌else◌, length, length-append,
}
use sat_build.Sha256.{Context, init, update, final, sha256}
use sat_build.Sha256.Laws.{update-append, length-sha256}

-- `hx[n]`
abbrev pub hex_digit : ℕ → ℕ
hex_digit n = if ltb n 10 then 48 + n else 87 + n

-- The loop over the digest.
unfoldable pub hex : List ℕ → List ℕ
hex [] = []
hex (b ∷ bs) = hex_digit (b / 16) ∷ hex_digit (b % 16) ∷ hex bs

-- The loop over what `fread` returns.
unfoldable pub read_all : List (List ℕ) → Context → ℕ → Context × ℕ
read_all [] c total = (c, total)
read_all (buf ∷ bufs) c total = read_all bufs (update c buf) (total + length buf)

-- `ci_sha256_file` on the pieces of a file that can be opened, and whether `ferror` is set: the text
-- and the number of bytes; `none` is -1.
unfoldable pub ci_sha256_file : Option (List (List ℕ) × Bool) → Option (List ℕ × ℕ)
ci_sha256_file none = none
ci_sha256_file (some (bufs, err)) =
    let r = read_all bufs init 0 in if err then none else some (hex (final r.0), r.1)

-- The bytes of the pieces.
abbrev pub joined : List (List ℕ) → List ℕ
joined [] = []
joined (buf ∷ bufs) = buf ++ joined bufs

read_all_lem :
    (bufs : List (List ℕ)) (c : Context) (total : ℕ)
    → (read_all bufs c total).0 ≡ update c (joined bufs)
      × ((read_all bufs c total).1 ≡ total + length (joined bufs))
unfolding read_all update
read_all_lem [] c total = (refl, omega arith)
read_all_lem (buf ∷ bufs) c total =
    let ih = read_all_lem bufs (update c buf) (total + length buf) in
    (
      ih.0 ∙ sym (update-append c buf (joined bufs)),
      omega (arith, ih.1, length-append buf (joined bufs)),
    )

length-hex : (bs : List ℕ) → length (hex bs) ≡ 2 * length bs
unfolding hex
length-hex [] = refl
length-hex (b ∷ bs) = omega (arith, length-hex bs)

-- However a file is read in pieces, the result is the digest of its bytes in 64 characters, and
-- their number.
pub ci_sha256_file_lem :
    (bufs : List (List ℕ))
    → (ci_sha256_file (some (bufs, false))
        ≡ some (hex (sha256 (joined bufs)), length (joined bufs)))
      × (length (hex (sha256 (joined bufs))) ≡ 64)
unfolding ci_sha256_file sha256
ci_sha256_file_lem bufs =
    let r = read_all_lem bufs init 0 in
    (
      ap₂ (λ c n. some (hex (final c), n)) r.0 (omega (arith, r.1)),
      omega (arith, length-hex (sha256 (joined bufs)), length-sha256 (joined bufs)),
    )
