-- ===== src/Prelude/Files.antt =====
-- A regular file as the list of its bytes, written with POSIX `pwrite`.
use Prim.Native.Nat.{ℕ, zero, suc, ◌+◌, ◌-◌, ◌≤◌, ◌<◌}
use mathlib.Core.Path.{◌≡◌, refl, ◌∙◌}
use mathlib.Core.Logic.{◌⊎◌}
use mathlib.Core.List.{List, [], ◌∷◌, ◌++◌}
use native.Mathlib.Omega.{arith}
use sat_build.Prelude.Lists.{
  length, get_or, replicate, write_at, length-append, length-replicate, length-write_at,
  get_or-write_at_in, get_or-write_at_out,
}

abbrev pub zeros : ℕ → List ℕ
zeros n = replicate n 0

-- `pwrite (fd, bs, length bs, off)` that stores everything: a gap before `off` reads as zeros.
unfoldable pub pwrite : List ℕ → ℕ → List ℕ → List ℕ
pwrite file off bs = write_at (file ++ zeros (off + length bs - length file)) off bs

pub get_or-zeros : (n i : ℕ) → get_or (zeros n) i 0 ≡ zero
get_or-zeros zero i = refl
get_or-zeros (suc n) zero = refl
get_or-zeros (suc n) (suc i) = get_or-zeros n i

pub get_or_beyond : (xs : List ℕ) (i : ℕ) → length xs ≤ i → get_or xs i 0 ≡ 0
get_or_beyond [] i h = refl
get_or_beyond (x ∷ xs) zero h = absurd (omega arith)
get_or_beyond (x ∷ xs) (suc i) h = get_or_beyond xs i (omega arith)

get_or-append_zeros : (xs : List ℕ) (n i : ℕ) → get_or (xs ++ zeros n) i 0 ≡ get_or xs i 0
get_or-append_zeros [] n i = get_or-zeros n i
get_or-append_zeros (x ∷ xs) n zero = refl
get_or-append_zeros (x ∷ xs) n (suc i) = get_or-append_zeros xs n i

length-extended :
    (file : List ℕ) (n : ℕ)
    → length (file ++ zeros (n - length file)) ≡ length file + (n - length file)
length-extended file n = omega (
  arith,
  length-append file (zeros (n - length file)),
  length-replicate {A = ℕ} (n - length file) 0,
)

pub length-pwrite :
    (file : List ℕ) (off : ℕ) (bs : List ℕ)
    → length (pwrite file off bs) ≡ length file + (off + length bs - length file)
unfolding pwrite
length-pwrite file off bs = length-write_at _ off bs ∙ length-extended file (off + length bs)

pub get_or-pwrite_in :
    (file : List ℕ) (off : ℕ) (bs : List ℕ) (i : ℕ)
    → off ≤ i
    → i < off + length bs
    → get_or (pwrite file off bs) i 0 ≡ get_or bs (i - off) 0
unfolding pwrite
get_or-pwrite_in file off bs i p q =
    get_or-write_at_in _ off bs i 0 (omega (arith, length-extended file (off + length bs))) p q

pub get_or-pwrite_out :
    (file : List ℕ) (off : ℕ) (bs : List ℕ) (i : ℕ)
    → (i < off) ⊎ (off + length bs ≤ i)
    → get_or (pwrite file off bs) i 0 ≡ get_or file i 0
unfolding pwrite
get_or-pwrite_out file off bs i o =
    get_or-write_at_out _ off bs i 0 o ∙ get_or-append_zeros file (off + length bs - length file) i
