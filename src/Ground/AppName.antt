-- ===== src/Ground/AppName.antt =====
-- `satdeploy_derive_app_name` of satdeploy_apm.c: the name of an app from its path on the target.
pub mod Laws
use sat_build.Prelude.{
  clip, ℕ, suc, Option, none, some, List, [], ◌∷◌, ◌==◌, if◌then◌else◌, take, drop,
}

-- The index that `strrchr (s, c)` finds.
unfoldable pub strrchr : ℕ → List ℕ → Option ℕ
strrchr c [] = none
strrchr c (x ∷ s) = elim (strrchr c s) [
  | some i ↦ some (suc i)
  | none ↦ if x == c then some 0 else none
]

-- `base`: what follows the last slash.
unfoldable pub base_of : List ℕ → List ℕ
base_of path = elim (strrchr 47 path) [ none ↦ path | some i ↦ drop (suc i) path ]

-- The cut at the last dot, where it is not the first byte.
unfoldable pub cut_extension : List ℕ → List ℕ
cut_extension out = elim (strrchr 46 out) [
  | none ↦ out
  | some i ↦ if i == 0 then out else take i out
]

-- The loop that turns the other dots into dashes.
unfoldable pub dash_dots : List ℕ → List ℕ
dash_dots [] = []
dash_dots (q ∷ out) = (if q == 46 then 45 else q) ∷ dash_dots out

-- `satdeploy_derive_app_name`
unfoldable pub satdeploy_derive_app_name : List ℕ → ℕ → List ℕ
satdeploy_derive_app_name remote_path size =
    dash_dots (cut_extension (clip size (base_of remote_path)))
