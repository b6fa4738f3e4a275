-- ===== src/Ground/AppName/Laws.antt =====
-- What the derived names are: those that the agent takes for a part of a path, and what is left of
-- a path without its directory and its extension.
use sat_build.Prelude.{
  clip, ℕ, zero, suc, ◌-◌, ◌≤◌, ◌<◌, ◌≡◌, refl, ap, ◌≢◌, ◌⊎◌, inl, inr, true, false, none, some,
  List, [], ◌∷◌, ◌++◌, arith, ◌==◌, ne→==, ==_refl, Bool-cases, Option-cases, none≢some, length,
  take, drop, length-take, take-append, take_all, All,
}
use mathlib.Core.Option.{some-injective}
use sat_build.SessionState.{has_dots, is_unsafe, no_unsafe, app_name_is_safe}
use sat_build.Ground.AppName.{strrchr, base_of, cut_extension, dash_dots, satdeploy_derive_app_name}

abbrev pub Lacks : ℕ → List ℕ → Type 0
Lacks c s = All (λ x. x ≢ c) s

strrchr-eq-none : (c : ℕ) (s : List ℕ) → Lacks c s → strrchr c s ≡ none
unfolding strrchr
strrchr-eq-none c [] h = refl
strrchr-eq-none c (x ∷ s) (h, hs) = rw (strrchr-eq-none c s hs, ne→== x c h) refl

-- The last byte of its kind.
pub strrchr-append :
    (c : ℕ) (s rest : List ℕ) → Lacks c rest → strrchr c (s ++ (c ∷ rest)) ≡ some (length s)
unfolding strrchr
strrchr-append c [] rest h = rw (strrchr-eq-none c rest h, ==_refl c) refl
strrchr-append c (x ∷ s) rest h = rw (strrchr-append c s rest h) refl

Lacks-of_strrchr : (c : ℕ) (s : List ℕ) → strrchr c s ≡ none → Lacks c s
unfolding strrchr
Lacks-of_strrchr c [] e = tt
Lacks-of_strrchr c (x ∷ s) e = elim (Option-cases (strrchr c s)) [
  | inr (i, found) ↦ absurd (cc (rw found at e))
  | inl missing ↦ (ground (arith, rw missing at e), Lacks-of_strrchr c s missing)
]

-- No byte behind the last one of its kind is of it.
drop-Lacks : (c : ℕ) (s : List ℕ) (i : ℕ) → strrchr c s ≡ some i → Lacks c (drop (suc i) s)
unfolding strrchr
drop-Lacks c [] i e = absurd (none≢some e)
drop-Lacks c (x ∷ s) i e = elim (Option-cases (strrchr c s)) [
  | inr (j, found) ↦
      let same : suc j ≡ i = some-injective _ _ (rw found at e) in
      rw (← same) (drop-Lacks c s j found)
  | inl missing ↦
      let same : 0 ≡ i = ground (arith, rw missing at e) in
      rw (← same) (Lacks-of_strrchr c s missing)
]

base_of-Lacks : (path : List ℕ) → Lacks 47 (base_of path)
unfolding base_of
base_of-Lacks path = elim (Option-cases (strrchr 47 path)) [
  | inl e ↦ rw (e, base_of) (Lacks-of_strrchr 47 path e)
  | inr (i, e) ↦ rw (e, base_of) (drop-Lacks 47 path i e)
]

base_of_cases :
    (path : List ℕ) → (base_of path ≡ path) ⊎ ((i : ℕ) × (base_of path ≡ drop (suc i) path))
unfolding base_of
base_of_cases path = elim (Option-cases (strrchr 47 path)) [
  | inl e ↦ inl (rw (e, base_of) refl)
  | inr (i, e) ↦ inr (i, rw (e, base_of) refl)
]

strrchr-lt : (c : ℕ) (s : List ℕ) (i : ℕ) → strrchr c s ≡ some i → i < length s
unfolding strrchr
strrchr-lt c [] i e = absurd (none≢some e)
strrchr-lt c (x ∷ s) i e = elim (Option-cases (strrchr c s)) [
  | inr (j, found) ↦
      let same : suc j ≡ i = some-injective _ _ (rw found at e) in
      omega (arith, same, strrchr-lt c s j found)
  | inl missing ↦ ground (arith, rw missing at e)
]

-- The cut leaves something of a name.
cut_extension_cases :
    (s : List ℕ)
    → (cut_extension s ≡ s) ⊎ ((i : ℕ) × (cut_extension s ≡ take i s) × (0 < i) × (i < length s))
unfolding cut_extension
cut_extension_cases s = elim (Option-cases (strrchr 46 s)) [
  | inl e ↦ inl (rw (e, cut_extension) refl)
  | inr (i, e) ↦ (elim (Bool-cases (i == 0)) [
    | inl z ↦ inl (rw (e, cut_extension, z) refl)
    | inr z ↦ inr (i, rw (e, cut_extension, z) refl, ground arith, strrchr-lt 46 s i e)
  ])
]

module _ (P : ℕ → Type 0) where
  All-take : (n : ℕ) (s : List ℕ) → All P s → All P (take n s)
  All-take zero s h = tt
  All-take (suc n) [] h = tt
  All-take (suc n) (x ∷ s) (h, hs) = (h, All-take n s hs)

  All-drop : (n : ℕ) (s : List ℕ) → All P s → All P (drop n s)
  All-drop zero s h = h
  All-drop (suc n) [] h = tt
  All-drop (suc n) (x ∷ s) (h, hs) = All-drop n s hs

  All-cut_extension : (s : List ℕ) → All P s → All P (cut_extension s)
  All-cut_extension s h = elim (cut_extension_cases s) [
    | inl e ↦ rw e h
    | inr (i, e, _, _) ↦ rw e (All-take i s h)
  ]

  All-base_of : (path : List ℕ) → All P path → All P (base_of path)
  All-base_of path h = elim (base_of_cases path) [
    | inl e ↦ rw e h
    | inr (i, e) ↦ rw e (All-drop (suc i) path h)
  ]

-- Nothing but dots changes, and none is left.
dash_dots-no_unsafe :
    (s : List ℕ)
    → All (λ c. is_unsafe c ≡ false) s
    → (no_unsafe (dash_dots s) ≡ true) × (has_dots (dash_dots s) ≡ false)
unfolding dash_dots no_unsafe has_dots
dash_dots-no_unsafe [] h = (refl, refl)
dash_dots-no_unsafe (x ∷ s) (h, hs) =
    let (safe, dots) = dash_dots-no_unsafe s hs in
    elim (Bool-cases (x == 46)) [
      | inl e ↦ rw (e, safe, dots) (refl, refl)
      | inr e ↦ ground (arith, e, safe, dots, h)
    ]

length-dash_dots : (s : List ℕ) → length (dash_dots s) ≡ length s
unfolding dash_dots
length-dash_dots [] = refl
length-dash_dots (x ∷ s) = ap suc (length-dash_dots s)

length-cut_extension :
    (s : List ℕ)
    → 0 < length s
    → (0 < length (cut_extension s)) × (length (cut_extension s) ≤ length s)
length-cut_extension s h = elim (cut_extension_cases s) [
  | inl e ↦ rw e (h, omega arith)
  | inr (i, e, pos, small) ↦ let l = length-take i s in rw e (omega (arith, l), omega (arith, l))
]

none_unsafe :
    (s : List ℕ) → Lacks 47 s → All (λ c. (c ≢ 92) × (32 ≤ c)) s → All (λ c. is_unsafe c ≡ false) s
none_unsafe [] h plain = tt
none_unsafe (x ∷ s) (h, hs) (plain, rest) = (ground arith, none_unsafe s hs rest)

dash_dots-Lacks : (s : List ℕ) → Lacks 46 (dash_dots s)
unfolding dash_dots
dash_dots-Lacks [] = tt
dash_dots-Lacks (x ∷ s) = (ground arith, dash_dots-Lacks s)

base_none_unsafe :
    (path : List ℕ)
    → All (λ c. (c ≢ 92) × (32 ≤ c)) path
    → All (λ c. is_unsafe c ≡ false) (base_of path)
base_none_unsafe path plain =
    none_unsafe (base_of path) (base_of-Lacks path) (All-base_of _ path plain)

safe_name :
    (name : List ℕ)
    → 0 < length name
    → has_dots name ≡ false
    → no_unsafe name ≡ true
    → app_name_is_safe name ≡ true
unfolding app_name_is_safe
safe_name name pos dots plain = rw (ne→== (length name) 0 (omega arith), dots) plain

-- The name of a path whose last part is not empty is one that the agent takes for a part of a path
-- of its own, without a dot, where the path has neither a backslash nor a control character; it fits
-- a buffer of at least two bytes.
pub derived-IsSafe :
    (path : List ℕ) (size : ℕ)
    → 0 < length (base_of path)
    → 2 ≤ size
    → All (λ c. (c ≢ 92) × (32 ≤ c)) path
    → let name = satdeploy_derive_app_name path size in
      (app_name_is_safe name ≡ true) × Lacks 46 name × (length name < size)
unfolding satdeploy_derive_app_name
derived-IsSafe path size some_base room plain =
    let base = clip size (base_of path) in
    let l = length-take (size - 1) (base_of path) in
    let n = length-cut_extension base (omega (arith, l)) in
    let d = length-dash_dots (cut_extension base) in
    let ok = dash_dots-no_unsafe (cut_extension base) (
      All-cut_extension _ base
        (All-take _ (size - 1) (base_of path) (base_none_unsafe path plain))) in
    (
      safe_name (dash_dots (cut_extension base)) (omega (arith, n, d)) ok.1 ok.0,
      dash_dots-Lacks (cut_extension base),
      omega (arith, l, n, d),
    )

drop_past : (dir rest : List ℕ) (c : ℕ) → drop (suc (length dir)) (dir ++ (c ∷ rest)) ≡ rest
drop_past [] rest c = refl
drop_past (x ∷ dir) rest c = drop_past dir rest c

pub base_of_path : (dir rest : List ℕ) → Lacks 47 rest → base_of (dir ++ (47 ∷ rest)) ≡ rest
unfolding base_of
base_of_path dir rest h = rw (strrchr-append 47 dir rest h, base_of) (drop_past dir rest 47)

cut_extension_dot :
    (stem ext : List ℕ) → 0 < length stem → Lacks 46 ext → cut_extension (stem ++ (46 ∷ ext)) ≡ stem
unfolding cut_extension
cut_extension_dot stem ext pos h =
    rw (strrchr-append 46 stem ext h, cut_extension, ne→== (length stem) 0 (omega arith))
      (take-append stem (46 ∷ ext))

dash_dots_plain : (s : List ℕ) → Lacks 46 s → dash_dots s ≡ s
unfolding dash_dots
dash_dots_plain [] h = refl
dash_dots_plain (x ∷ s) (h, hs) = rw (ne→== x 46 h, dash_dots_plain s hs) refl

-- The name of "dir/stem.ext" is "stem", where neither the stem nor the extension has a slash or a
-- dot, the stem is not empty, and both fit the buffer.
pub satdeploy_derive_app_name_lem :
    (dir stem ext : List ℕ) (size : ℕ)
    → 0 < length stem
    → Lacks 46 stem
    → Lacks 46 ext
    → Lacks 47 (stem ++ (46 ∷ ext))
    → length (stem ++ (46 ∷ ext)) < size
    → satdeploy_derive_app_name (dir ++ (47 ∷ (stem ++ (46 ∷ ext)))) size ≡ stem
unfolding satdeploy_derive_app_name
satdeploy_derive_app_name_lem dir stem ext size pos s e no_slash room =
    rw
      (
        base_of_path dir (stem ++ (46 ∷ ext)) no_slash,
        take_all (size - 1) (stem ++ (46 ∷ ext)) (omega arith),
        cut_extension_dot stem ext pos e,
      )
      (dash_dots_plain stem s)
