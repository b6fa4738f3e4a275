-- ===== src/Agent/Rollback/Order.antt =====
-- The sort by exchanges of `handle_rollback` and `handle_list_versions`.
use sat_build.Prelude.{
  ℕ, zero, suc, ◌≤◌, ◌≡◌, refl, ap, inl, inr, List, [], ◌∷◌, arith, ltb, ltb→lt, ltb→le, Bool-cases,
  length, All,
}
use mathlib.Core.List.{Perm, Permᴰ}
use mathlib.Core.List.Permᴰ
use sat_build.Agent.Rollback.{pass, exchange_sort}

module _ {ℓ} {A : Type ℓ} (key : A → ℕ) where
  length-pass : (x : A) (ys : List A) → length (pass key x ys).1 ≡ length ys
  unfolding pass
  length-pass x [] = refl
  length-pass x (y ∷ ys) = elim (Bool-cases (ltb (key x) (key y))) [
    | inl newer ↦ rw (newer, pass) (ap suc (length-pass y ys))
    | inr older ↦ rw (older, pass) (ap suc (length-pass x ys))
  ]

  Permᴰ-pass : (x : A) (ys : List A) → Permᴰ ((pass key x ys).0 ∷ (pass key x ys).1) (x ∷ ys)
  unfolding pass
  Permᴰ-pass x [] = Permᴰ.refl (x ∷ [])
  Permᴰ-pass x (y ∷ ys) = elim (Bool-cases (ltb (key x) (key y))) [
    | inl newer ↦
        rw (newer, pass) (Permᴰ.trans (Permᴰ.swap refl refl) (Permᴰ.cons refl (Permᴰ-pass y ys)))
    | inr older ↦
        rw (older, pass)
          (Permᴰ.trans (Permᴰ.swap refl refl)
            (Permᴰ.trans (Permᴰ.cons refl (Permᴰ-pass x ys)) (Permᴰ.swap refl refl)))
  ]

  -- No entry of a list is newer than a bound.
  abbrev pub Below : ℕ → List A → Type 0
  Below bound xs = All (λ x. key x ≤ bound) xs

  Below-le : (m n : ℕ) (xs : List A) → m ≤ n → Below m xs → Below n xs
  Below-le m n [] h b = b
  Below-le m n (x ∷ xs) h b = (omega (arith, b.0), Below-le m n xs h b.1)

  Below-pass :
      (bound : ℕ) (x : A) (ys : List A)
      → key x ≤ bound
      → Below bound ys
      → (key (pass key x ys).0 ≤ bound) × Below bound (pass key x ys).1
  unfolding pass
  Below-pass bound x [] h b = (h, b)
  Below-pass bound x (y ∷ ys) h b = elim (Bool-cases (ltb (key x) (key y))) [
    | inl newer ↦ let r = Below-pass bound y ys b.0 b.1 in rw (newer, pass) (r.0, (h, r.1))
    | inr older ↦ let r = Below-pass bound x ys h b.1 in rw (older, pass) (r.0, (b.0, r.1))
  ]

  pass_newest :
      (x : A) (ys : List A)
      → (key x ≤ key (pass key x ys).0) × Below (key (pass key x ys).0) (pass key x ys).1
  unfolding pass
  pass_newest x [] = (omega arith, tt)
  pass_newest x (y ∷ ys) = elim (Bool-cases (ltb (key x) (key y))) [
    | inl newer ↦
        let r = pass_newest y ys in
        let lt = ltb→lt (key x) (key y) newer in
        rw (newer, pass) (omega (arith, r.0), (omega (arith, r.0), r.1))
    | inr older ↦
        let r = pass_newest x ys in
        let le = ltb→le (key x) (key y) older in rw (older, pass) (r.0, (omega (arith, r.0), r.1))
  ]

  pub Permᴰ-exchange_sort : (n : ℕ) (xs : List A) → Permᴰ (exchange_sort key n xs) xs
  unfolding exchange_sort
  Permᴰ-exchange_sort zero xs = Permᴰ.refl xs
  Permᴰ-exchange_sort (suc n) [] = Permᴰ.refl []
  Permᴰ-exchange_sort (suc n) (x ∷ xs) =
      Permᴰ.trans (Permᴰ.cons refl (Permᴰ-exchange_sort n (pass key x xs).1)) (Permᴰ-pass x xs)

  Below-exchange_sort :
      (bound n : ℕ) (xs : List A) → Below bound xs → Below bound (exchange_sort key n xs)
  unfolding exchange_sort
  Below-exchange_sort bound zero xs b = b
  Below-exchange_sort bound (suc n) [] b = b
  Below-exchange_sort bound (suc n) (x ∷ xs) b =
      let r = Below-pass bound x xs b.0 b.1 in
      (r.0, Below-exchange_sort bound n (pass key x xs).1 r.1)

  -- Every entry is at least as new as those behind it.
  abbrev pub IsNewestFirst : List A → Type 0
  IsNewestFirst [] = Unit
  IsNewestFirst (x ∷ xs) = Below (key x) xs × IsNewestFirst xs

  newest_first : (n : ℕ) (xs : List A) → length xs ≤ n → IsNewestFirst (exchange_sort key n xs)
  unfolding exchange_sort
  newest_first zero [] h = tt
  newest_first zero (x ∷ xs) h = absurd (omega arith)
  newest_first (suc n) [] h = tt
  newest_first (suc n) (x ∷ xs) h = (
    Below-exchange_sort (key (pass key x xs).0) n (pass key x xs).1 (pass_newest x xs).1,
    newest_first n (pass key x xs).1 (omega (arith, length-pass x xs)),
  )

  -- The sort has the newest first and is a permutation: as many rounds as entries are enough.
  pub exchange_sort_lem :
      (xs : List A)
      → let sorted = exchange_sort key (length xs) xs in IsNewestFirst sorted × Perm sorted xs
  exchange_sort_lem xs =
      (newest_first (length xs) xs (omega arith), ∣ Permᴰ-exchange_sort (length xs) xs ∣₁)
