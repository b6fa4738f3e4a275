-- ===== src/SessionState/Paths.antt =====
-- The paths of `session_state_path` and `session_state_svu_path`.
use mathlib.Core.Path.{subst}
use sat_build.Prelude.{
  ℕ, ◌+◌, ◌≤◌, ◌<◌, ◌≡◌, sym, ap, ◌∙◌, ◌≢◌, inl, inr, true, ◌||◌, not, some, List, [], ◌∷◌, ◌++◌,
  arith, ◌==◌, leb→lt, Bool-cases, none≢some, if_none-some, length, take, drop, length-append,
  take-append, take-append_of_length, All,
}
use sat_build.SessionState.{
  is_unsafe, no_unsafe, app_name_is_safe, session_state_dir, path_with, session_state_svu_path,
  session_svu_ext,
}

-- No byte of a name is a separator or a control character.
no_unsafe-All :
    (name : List ℕ) → no_unsafe name ≡ true → All (λ c. (c ≢ 47) × (c ≢ 92) × (32 ≤ c)) name
unfolding no_unsafe
no_unsafe-All [] e = tt
no_unsafe-All (c ∷ name) e = elim (Bool-cases (is_unsafe c)) [
  | inl bad ↦ absurd (cc (rw bad at e))
  | inr good ↦ ((ground arith, ground arith, ground arith), no_unsafe-All name (rw good at e))
]

safe_no_unsafe : (name : List ℕ) → app_name_is_safe name ≡ true → no_unsafe name ≡ true
unfolding app_name_is_safe
safe_no_unsafe name e = ground arith

append-cancel : (xs ys zs : List ℕ) → ys ++ xs ≡ zs ++ xs → ys ≡ zs
append-cancel xs ys zs e =
    sym (take-append_of_length (length zs) ys xs same) ∙ ap (take (length zs)) e ∙ take-append zs xs
  where
    same : length ys ≡ length zs
    same = omega (arith, length-append ys xs, length-append zs xs, ap length e)

svu_path-eq-some :
    (name : List ℕ) (out_size : ℕ) {path : List ℕ}
    → session_state_svu_path name out_size ≡ some path
    → (app_name_is_safe name ≡ true)
      × (session_state_dir ++ (47 ∷ (name ++ session_svu_ext)) ≡ path)
      × (length path < out_size)
unfolding session_state_svu_path path_with
svu_path-eq-some name out_size e =
    elim (Bool-cases ((out_size == 0) || not (app_name_is_safe name))) [
      | inl bad ↦ absurd (none≢some (rw (bad, session_state_svu_path, path_with) at e))
      | inr good ↦
          let fits = if_none-some _ _ (rw (good, session_state_svu_path, path_with) at e) in
          (ground arith, fits.1, subst (λ p. length p < out_size) fits.1 (leb→lt out_size _ fits.0))
    ]

-- A path of `session_state_svu_path` lies in the state directory: the name in it has no separator,
-- and the path and its NUL fit the buffer.
pub session_state_svu_path_inside :
    (name : List ℕ) (out_size : ℕ) (path : List ℕ)
    → session_state_svu_path name out_size ≡ some path
    → (path ≡ session_state_dir ++ (47 ∷ (name ++ session_svu_ext)))
      × All (λ c. (c ≢ 47) × (c ≢ 92) × (32 ≤ c)) name
      × (length path + 1 ≤ out_size)
session_state_svu_path_inside name out_size path e =
    let p = svu_path-eq-some name out_size e in
    (sym p.1, no_unsafe-All name (safe_no_unsafe name p.0), omega (arith, p.2))

-- Two names with one path are one name.
pub session_state_svu_path_injective :
    (a b : List ℕ) (n n' : ℕ) (path : List ℕ)
    → session_state_svu_path a n ≡ some path
    → session_state_svu_path b n' ≡ some path
    → a ≡ b
session_state_svu_path_injective a b n n' path e e' =
    append-cancel session_svu_ext a b
      (ap (drop 25) ((svu_path-eq-some a n e).1 ∙ sym ((svu_path-eq-some b n' e').1)))
