-- ===== src/Prelude/Lists.antt =====
-- Byte arrays as lists with native indices: reads, writes, copies and slices.
use Prim.Native.Nat.{ℕ, zero, suc, ◌+◌, ◌-◌, ◌≤◌, ◌<◌, min}
use mathlib.Core.Path.{◌≡◌, refl, sym, ap, ap₂, ◌∙◌}
use mathlib.Core.Logic.{◌⊎◌}
use mathlib.Core.List.{List, [], ◌∷◌, ◌++◌}
use native.Mathlib.Omega.{arith}
use sat_build.Prelude.Tests.{◌==◌, if◌then◌else◌}

module _ {ℓ} {A : Type ℓ} where
  abbrev pub length : List A → ℕ
  length [] = 0
  length (x ∷ xs) = suc (length xs)

  abbrev pub get_or : List A → ℕ → A → A
  get_or [] i d = d
  get_or (x ∷ xs) zero d = x
  get_or (x ∷ xs) (suc i) d = get_or xs i d

  -- A write out of bounds changes nothing.
  abbrev pub set : List A → ℕ → A → List A
  set [] i v = []
  set (x ∷ xs) zero v = v ∷ xs
  set (x ∷ xs) (suc i) v = x ∷ set xs i v

  abbrev pub take : ℕ → List A → List A
  take zero xs = []
  take (suc n) [] = []
  take (suc n) (x ∷ xs) = x ∷ take n xs

  abbrev pub drop : ℕ → List A → List A
  drop zero xs = xs
  drop (suc n) [] = []
  drop (suc n) (x ∷ xs) = drop n xs

  abbrev pub replicate : ℕ → A → List A
  replicate zero a = []
  replicate (suc n) a = a ∷ replicate n a

  -- `memcpy (xs + off, bs, length bs)`; what would fall behind the end is dropped.
  abbrev pub write_at : List A → ℕ → List A → List A
  write_at [] off bs = []
  write_at (x ∷ xs) zero [] = x ∷ xs
  write_at (x ∷ xs) zero (b ∷ bs) = b ∷ write_at xs zero bs
  write_at (x ∷ xs) (suc off) bs = x ∷ write_at xs off bs

  -- The bytes from `off` on, `n` of them.
  abbrev pub slice : ℕ → ℕ → List A → List A
  slice off n xs = take n (drop off xs)

module _ {ℓ} {A : Type ℓ} where
  pub length-append : (xs ys : List A) → length (xs ++ ys) ≡ length xs + length ys
  length-append [] ys = omega arith
  length-append (x ∷ xs) ys = omega (arith, length-append xs ys)

  pub length-set : (xs : List A) (i : ℕ) (v : A) → length (set xs i v) ≡ length xs
  length-set [] i v = refl
  length-set (x ∷ xs) zero v = refl
  length-set (x ∷ xs) (suc i) v = ap suc (length-set xs i v)

  pub length-take : (n : ℕ) (xs : List A) → length (take n xs) ≡ min n (length xs)
  length-take zero xs = omega arith
  length-take (suc n) [] = omega arith
  length-take (suc n) (x ∷ xs) = omega (arith, length-take n xs)

  pub length-drop : (n : ℕ) (xs : List A) → length (drop n xs) ≡ length xs - n
  length-drop zero xs = omega arith
  length-drop (suc n) [] = omega arith
  length-drop (suc n) (x ∷ xs) = omega (arith, length-drop n xs)

  pub length-replicate : (n : ℕ) (a : A) → length (replicate n a) ≡ n
  length-replicate zero a = refl
  length-replicate (suc n) a = ap suc (length-replicate n a)

  pub length-write_at :
      (xs : List A) (off : ℕ) (bs : List A) → length (write_at xs off bs) ≡ length xs
  length-write_at [] off bs = refl
  length-write_at (x ∷ xs) zero [] = refl
  length-write_at (x ∷ xs) zero (b ∷ bs) = ap suc (length-write_at xs zero bs)
  length-write_at (x ∷ xs) (suc off) bs = ap suc (length-write_at xs off bs)

  pub take-append : (xs ys : List A) → take (length xs) (xs ++ ys) ≡ xs
  take-append [] ys = refl
  take-append (x ∷ xs) ys = ap (λ l. x ∷ l) (take-append xs ys)

  pub drop-append : (xs ys : List A) → drop (length xs) (xs ++ ys) ≡ ys
  drop-append [] ys = refl
  drop-append (x ∷ xs) ys = drop-append xs ys

  pub take_all : (n : ℕ) (xs : List A) → length xs ≤ n → take n xs ≡ xs
  take_all zero [] h = refl
  take_all zero (x ∷ xs) h = absurd (omega arith)
  take_all (suc n) [] h = refl
  take_all (suc n) (x ∷ xs) h = ap (λ l. x ∷ l) (take_all n xs (omega arith))

  pub get_or-set :
      (xs : List A) (i j : ℕ) (v d : A)
      → i < length xs
      → get_or (set xs i v) j d ≡ (if i == j then v else get_or xs j d)
  get_or-set [] i j v d h = absurd (omega arith)
  get_or-set (x ∷ xs) zero zero v d h = refl
  get_or-set (x ∷ xs) zero (suc j) v d h = ground arith
  get_or-set (x ∷ xs) (suc i) zero v d h = ground arith
  get_or-set (x ∷ xs) (suc i) (suc j) v d h = ground (arith, get_or-set xs i j v d)

  pub get_or-take :
      (n : ℕ) (xs : List A) (i : ℕ) (d : A) → i < n → get_or (take n xs) i d ≡ get_or xs i d
  get_or-take zero xs i d h = absurd (omega arith)
  get_or-take (suc n) [] i d h = refl
  get_or-take (suc n) (x ∷ xs) zero d h = refl
  get_or-take (suc n) (x ∷ xs) (suc i) d h = get_or-take n xs i d (omega arith)

  pub get_or-drop :
      (n : ℕ) (xs : List A) (i : ℕ) (d : A) → get_or (drop n xs) i d ≡ get_or xs (n + i) d
  get_or-drop zero xs i d = ap (λ k. get_or xs k d) (omega arith)
  get_or-drop (suc n) [] i d = refl
  get_or-drop (suc n) (x ∷ xs) i d =
      rw (get_or-drop n xs i d)
        (ap (λ k. get_or (x ∷ xs) k d) (let e : suc (n + i) ≡ suc n + i = omega arith in e))

  -- Where the copy fits, a byte in its range is the copied one.
  pub get_or-write_at_in :
      (xs : List A) (off : ℕ) (bs : List A) (i : ℕ) (d : A)
      → off + length bs ≤ length xs
      → off ≤ i
      → i < off + length bs
      → get_or (write_at xs off bs) i d ≡ get_or bs (i - off) d
  get_or-write_at_in [] off bs i d h p q = absurd (omega arith)
  get_or-write_at_in (x ∷ xs) zero [] i d h p q = absurd (omega arith)
  get_or-write_at_in (x ∷ xs) zero (b ∷ bs) zero d h p q = refl
  get_or-write_at_in (x ∷ xs) zero (b ∷ bs) (suc i) d h p q =
      get_or-write_at_in xs zero bs i d (omega arith) (omega arith) (omega arith)
      ∙ ap (λ k. get_or (b ∷ bs) k d) (let e : suc (i - 0) ≡ suc i - 0 = omega arith in e)
  get_or-write_at_in (x ∷ xs) (suc off) bs zero d h p q = absurd (omega arith)
  get_or-write_at_in (x ∷ xs) (suc off) bs (suc i) d h p q =
      get_or-write_at_in xs off bs i d (omega arith) (omega arith) (omega arith)
      ∙ ap (λ k. get_or bs k d) (let e : i - off ≡ suc i - suc off = omega arith in e)

  -- Any other is unchanged.
  pub get_or-write_at_out :
      (xs : List A) (off : ℕ) (bs : List A) (i : ℕ) (d : A)
      → (i < off) ⊎ (off + length bs ≤ i)
      → get_or (write_at xs off bs) i d ≡ get_or xs i d
  get_or-write_at_out [] off bs i d h = refl
  get_or-write_at_out (x ∷ xs) zero [] i d h = refl
  get_or-write_at_out (x ∷ xs) zero (b ∷ bs) zero d h = absurd (omega arith)
  get_or-write_at_out (x ∷ xs) zero (b ∷ bs) (suc i) d h =
      get_or-write_at_out xs zero bs i d (omega arith)
  get_or-write_at_out (x ∷ xs) (suc off) bs zero d h = refl
  get_or-write_at_out (x ∷ xs) (suc off) bs (suc i) d h =
      get_or-write_at_out xs off bs i d (omega arith)

  pub take-append_of_length : (n : ℕ) (xs ys : List A) → length xs ≡ n → take n (xs ++ ys) ≡ xs
  take-append_of_length n xs ys e = rw (← e) (take-append xs ys)

  pub drop-append_of_length : (n : ℕ) (xs ys : List A) → length xs ≡ n → drop n (xs ++ ys) ≡ ys
  drop-append_of_length n xs ys e = rw (← e) (drop-append xs ys)

  drop-nil : (n : ℕ) → drop {A = A} n [] ≡ []
  drop-nil zero = refl
  drop-nil (suc n) = refl

  pub drop-drop : (m n : ℕ) (xs : List A) → drop n (drop m xs) ≡ drop (m + n) xs
  drop-drop zero n xs = ap (λ k. drop k xs) (omega arith)
  drop-drop (suc m) n [] = drop-nil n ∙ sym (drop-nil (suc m + n))
  drop-drop (suc m) n (x ∷ xs) =
      drop-drop m n xs
      ∙ ap (λ k. drop k (x ∷ xs)) (let e : suc (m + n) ≡ suc m + n = omega arith in e)

  pub get_or-slice :
      (off n : ℕ) (xs : List A) (i : ℕ) (d : A)
      → i < n
      → get_or (slice off n xs) i d ≡ get_or xs (off + i) d
  get_or-slice off n xs i d h = get_or-take n (drop off xs) i d h ∙ get_or-drop off xs i d

  -- Lists of one length that agree at each index are equal.
  pub eq_of_get_or :
      (xs ys : List A) (d : A)
      → length xs ≡ length ys
      → ((i : ℕ) → i < length xs → get_or xs i d ≡ get_or ys i d)
      → xs ≡ ys
  eq_of_get_or [] [] d e h = refl
  eq_of_get_or [] (y ∷ ys) d e h = absurd (omega arith)
  eq_of_get_or (x ∷ xs) [] d e h = absurd (omega arith)
  eq_of_get_or (x ∷ xs) (y ∷ ys) d e h =
      ap₂ ◌∷◌ (h 0 (omega arith))
        (eq_of_get_or xs ys d (omega arith) (λ i p. h (suc i) (omega arith)))
