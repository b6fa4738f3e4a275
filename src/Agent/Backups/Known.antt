-- ===== src/Agent/Backups/Known.antt =====
-- The backup that `backup_create` of backup_manager.c finds under a digest.
use sat_build.Prelude.{
  streq_iff, streq_refl, streq, has_suffix, ℕ, zero, suc, ◌+◌, ◌≡◌, refl, sym, ap, ap₂, ◌∙◌, inl,
  inr, true, ◌&&◌, some, List, [], ◌∷◌, ◌++◌, arith, Bool-cases, Option-cases, none≢some, length,
  take, drop,
}
use mathlib.Core.Path.{subst}
use mathlib.Core.Option.{some-injective}
use sat_build.Agent.Disk.{File, Disk, find}
use sat_build.Agent.Backups.{no_slash, child_of, read_dir, with_suffix}

take_and_drop : (n : ℕ) (xs : List ℕ) → take n xs ++ drop n xs ≡ xs
take_and_drop zero xs = refl
take_and_drop (suc n) [] = refl
take_and_drop (suc n) (x ∷ xs) = ap (λ l. x ∷ l) (take_and_drop n xs)

append_slash : (dir name : List ℕ) → (dir ++ (47 ∷ [])) ++ name ≡ dir ++ (47 ∷ name)
append_slash [] name = refl
append_slash (c ∷ dir) name = ap (λ l. c ∷ l) (append_slash dir name)

-- A path in a directory is the directory, a slash and the name.
child_of-path : (dir path name : List ℕ) → child_of dir path ≡ some name → path ≡ dir ++ (47 ∷ name)
unfolding child_of
child_of-path dir path name e =
    elim (Bool-cases (streq (take n path) (dir ++ (47 ∷ [])) && no_slash (drop n path))) [
      | inr outside ↦ absurd (none≢some (rw (outside, child_of) at e))
      | inl inside ↦
          let starts : take n path ≡ dir ++ (47 ∷ []) = (streq_iff _ _).0 (ground arith) in
          let same : drop n path ≡ name = some-injective _ _ (rw (inside, child_of) at e) in
          sym (take_and_drop n path) ∙ ap₂ ◌++◌ starts same ∙ append_slash dir name
    ]
  where
    n : ℕ
    n = length dir + 1

find-behind :
    (q p : List ℕ) (f : File) (d : Disk)
    → (g : File) × (find q d ≡ some g)
    → (g : File) × (find q ((p, f) ∷ d) ≡ some g)
unfolding find
find-behind q p f d (g, e) = elim (Bool-cases (streq p q)) [
  | inl here ↦ rw here (f, refl)
  | inr other ↦ rw other (g, e)
]

find_first : (p : List ℕ) (f : File) (d : Disk) → find p ((p, f) ∷ d) ≡ some f
unfolding find
find_first p f d = rw (streq_refl p) refl

-- What `with_suffix` finds among the names of a directory has that end, and is a file in it.
pub with_suffix-read_dir :
    (suffix dir : List ℕ) (d : Disk) (name : List ℕ)
    → with_suffix suffix (read_dir dir d) ≡ some name
    → (has_suffix name suffix ≡ true) × ((g : File) × (find (dir ++ (47 ∷ name)) d ≡ some g))
unfolding read_dir with_suffix
with_suffix-read_dir suffix dir [] name e = absurd (none≢some e)
with_suffix-read_dir suffix dir ((p, f) ∷ d) name e = elim (Option-cases (child_of dir p)) [
  | inl outside ↦
      let (ends, there) = with_suffix-read_dir suffix dir d name (rw (outside, read_dir) at e) in
      (ends, find-behind (dir ++ (47 ∷ name)) p f d there)
  | inr (first, inside) ↦
      let e' = rw (inside, read_dir) at e in
      elim (Bool-cases (has_suffix first suffix)) [
        | inl ends ↦
            let same : first ≡ name = some-injective _ _ (rw (ends, with_suffix) at e') in
            (
              ap (λ l. has_suffix l suffix) (sym same) ∙ ends,
              (
                f,
                let at_p : p ≡ dir ++ (47 ∷ name) =
                      child_of-path dir p first inside ∙ ap (λ l. dir ++ (47 ∷ l)) same in
                    subst (λ q. find q ((p, f) ∷ d) ≡ some f) at_p (find_first p f d),
              ),
            )
        | inr other ↦
            let (ends, there) =
              with_suffix-read_dir suffix dir d name (rw (other, with_suffix) at e') in
            (ends, find-behind (dir ++ (47 ∷ name)) p f d there)
      ]
]
