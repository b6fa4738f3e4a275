-- ===== src/Prelude/Strings.antt =====
-- C strings as the lists of their bytes before the NUL.
use Prim.Native.Nat.{ℕ, ◌-◌}
use Prim.Native.Char.{code}
use Prim.Native.String.{String}
use mathlib.Core.Path.{◌≡◌, refl}
use mathlib.Core.Logic.{◌↔◌}
use mathlib.Core.Bool.{Bool, true, false, ◌&&◌}
use mathlib.Core.List.{List, [], ◌∷◌, ◌++◌}
use native.Mathlib.Omega.{arith}
use sat_build.Prelude.Tests.{◌==◌, leb, le→leb}
use sat_build.Prelude.Lists.{length, take, drop, length-append, drop-append_of_length}

-- The bytes of an ASCII text.
abbrev pub codes : String → List ℕ
codes String.[] = []
codes (String.◌∷◌ c s) = code c ∷ codes s

-- `strcmp (xs, ys) == 0`
unfoldable pub streq : List ℕ → List ℕ → Bool
streq [] [] = true
streq [] (y ∷ ys) = false
streq (x ∷ xs) [] = false
streq (x ∷ xs) (y ∷ ys) = (x == y) && streq xs ys

pub streq_iff : (xs ys : List ℕ) → (streq xs ys ≡ true) ↔ (xs ≡ ys)
unfolding streq
streq_iff [] [] = (λ _. refl, λ _. refl)
streq_iff [] (y ∷ ys) = (λ e. cc, λ e. cc)
streq_iff (x ∷ xs) [] = (λ e. cc, λ e. cc)
streq_iff (x ∷ xs) (y ∷ ys) =
    (λ e. ground (arith, (streq_iff xs ys).0), λ e. ground (arith, (streq_iff xs ys).1))

pub streq_refl : (xs : List ℕ) → streq xs xs ≡ true
streq_refl xs = (streq_iff xs xs).1 refl

-- What `snprintf` and a terminated `strncpy` leave of a string in a buffer of `n` bytes.
abbrev pub clip : ℕ → List ℕ → List ℕ
clip n s = take (n - 1) s

-- The test on the end of a name: long enough, and `strcmp (s + len - suffix_len, suffix) == 0`.
unfoldable pub has_suffix : List ℕ → List ℕ → Bool
has_suffix s suffix =
    leb (length suffix) (length s) && streq (drop (length s - length suffix) s) suffix

pub has_suffix-append : (s suffix : List ℕ) → has_suffix (s ++ suffix) suffix ≡ true
unfolding has_suffix
has_suffix-append s suffix =
    let n = length-append s suffix in
    rw
      (
        le→leb (length suffix) (length (s ++ suffix)) (omega (arith, n)),
        drop-append_of_length (length (s ++ suffix) - length suffix) s suffix (omega (arith, n)),
      )
      (streq_refl suffix)
