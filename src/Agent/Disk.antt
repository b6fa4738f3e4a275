-- ===== src/Agent/Disk.antt =====
-- The agent's file system as its deployment shell sees it: the regular files by path, in the order
-- in which a directory is read.
use mathlib.Core.Path.{subst}
use mathlib.Core.Option.{some-injective}
use sat_build.Prelude.{
  streq_iff, streq_refl, streq, ℕ, ◌≡◌, refl, ap, ◌∙◌, inl, inr, Bool, Option, none, some, List, [],
  ◌∷◌, arith, if◌then◌else◌, Bool-cases, none≢some, All,
}

-- A file's content, modification time and permissions.
pub record File : Type 0 where
  pub bytes : List ℕ
  pub mtime : ℕ
  pub mode : ℕ

abbrev pub Disk : Type 0
Disk = List (List ℕ × File)

-- What `fopen`, `stat` and `access` find at a path.
unfoldable pub find : List ℕ → Disk → Option File
find path [] = none
find path ((p, f) ∷ d) = if streq p path then some f else find path d

-- `unlink`
unfoldable pub unlink : List ℕ → Disk → Disk
unlink path [] = []
unlink path ((p, f) ∷ d) = let rest = unlink path d in if streq p path then rest else (p, f) ∷ rest

unfoldable pub add : List ℕ → File → Disk → Disk
add path f [] = (path, f) ∷ []
add path f (e ∷ d) = e ∷ add path f d

-- A new file in place of what was at the path.
unfoldable pub store : List ℕ → File → Disk → Disk
store path f d = add path f (unlink path d)

pub find-unlink :
    (path q : List ℕ) (d : Disk)
    → find q (unlink path d) ≡ (if streq path q then none else find q d)
unfolding find unlink
find-unlink path q [] = ground arith
find-unlink path q ((p, f) ∷ d) =
    ground (arith, find-unlink path q d, streq_iff p path, streq_iff p q, streq_iff path q)

find-add-none :
    (path : List ℕ) (f : File) (q : List ℕ) (d : Disk)
    → find path d ≡ none
    → find q (add path f d) ≡ (if streq path q then some f else find q d)
unfolding find add
find-add-none path f q [] h = refl
find-add-none path f q ((p, g) ∷ d) h =
    ground (arith, find-add-none path f q d, streq_iff p path, streq_iff p q, streq_iff path q)

pub find-store :
    (path : List ℕ) (f : File) (q : List ℕ) (d : Disk)
    → find q (store path f d) ≡ (if streq path q then some f else find q d)
unfolding store
find-store path f q d = ground (
  arith,
  find-add-none path f q (unlink path d) (
      find-unlink path path d
      ∙ ap (λ (b : Bool). if b then none else find path d) (streq_refl path)),
  find-unlink path q d,
)

-- `chmod`
unfoldable pub chmod : List ℕ → ℕ → Disk → Disk
chmod path mode [] = []
chmod path mode ((p, f) ∷ d) =
    if streq p path then (p, record f { mode = mode }) ∷ d else (p, f) ∷ chmod path mode d

abbrev pub with_mode : ℕ → Option File → Option File
with_mode mode none = none
with_mode mode (some f) = some (record f { mode = mode })

pub find-chmod :
    (path : List ℕ) (mode : ℕ) (q : List ℕ) (d : Disk)
    → find q (chmod path mode d) ≡ (if streq path q then with_mode mode (find q d) else find q d)
unfolding find chmod
find-chmod path mode q [] = ground arith
find-chmod path mode q ((p, f) ∷ d) =
    ground (arith, find-chmod path mode q d, streq_iff p path, streq_iff p q, streq_iff path q)

-- `rename`: what was at `to` is replaced; `none` where there is nothing at `from`.
unfoldable pub rename : List ℕ → List ℕ → Disk → Option Disk
rename from to d = elim (find from d) [ none ↦ none | some f ↦ some (store to f (unlink from d)) ]

-- The content at a path.
abbrev pub content : Option File → Option (List ℕ)
content none = none
content (some f) = some f.bytes

-- What holds of all entries holds of what is found.
pub find-All :
    (P : List ℕ × File → Type 0) (d : Disk) (q : List ℕ) (g : File)
    → All P d
    → find q d ≡ some g
    → P (q, g)
unfolding find
find-All P [] q g h e = absurd (none≢some e)
find-All P ((p, f) ∷ d) q g h e = elim (Bool-cases (streq p q)) [
  | inl here ↦
      subst (λ r. P (r, g)) ((streq_iff p q).0 here)
        (subst (λ r. P (p, r)) (some-injective _ _ (rw (here, find) at e)) h.0)
  | inr other ↦ find-All P d q g h.1 (rw (other, find) at e)
]
