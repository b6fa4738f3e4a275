-- ===== src/Ground/Args.antt =====
-- `satdeploy_reorder_argv` of satdeploy_apm.c: the options of a command line before its other
-- arguments. An argument is the list of its bytes.
pub mod Order
pub mod Overrun
use sat_build.Prelude.{
  codes, streq, ℕ, ◌+◌, Bool, false, ◌||◌, List, [], ◌∷◌, ◌++◌, ltb, ◌==◌, if◌then◌else◌, length,
  get_or, take,
}

-- `SATDEPLOY_VALUE_OPTS`
abbrev pub satdeploy_value_opts : List (List ℕ)
satdeploy_value_opts =
    codes "-f"
    ∷ codes "--local"
    ∷ codes "--file"
    ∷ codes "-r"
    ∷ codes "--remote"
    ∷ codes "-n"
    ∷ codes "--node"
    ∷ codes "-m"
    ∷ codes "--mtu"
    ∷ codes "-l"
    ∷ codes "--lines"
    ∷ codes "-H"
    ∷ codes "--hash"
    ∷ []

-- The search in that table.
unfoldable pub is_one_of : List ℕ → List (List ℕ) → Bool
is_one_of arg [] = false
is_one_of arg (opt ∷ opts) = streq arg opt || is_one_of arg opts

abbrev pub takes_value : List ℕ → Bool
takes_value arg = is_one_of arg satdeploy_value_opts

-- `argv[i][0] == '-'`
abbrev pub is_option : List ℕ → Bool
is_option arg = get_or arg 0 0 == 45

-- The entries of `positional`, and those of `out`; the flag is set behind an option that takes a
-- value, which `argv[++i]` is.
pub record Reordering : Type 0 where
  pub out : List (List ℕ)
  pub positional : List (List ℕ)
  pub waits : Bool

-- The body of the first loop.
unfoldable pub place : List ℕ → Reordering → Reordering
place arg r =
    if r.waits
    then record r { out = r.out ++ (arg ∷ []); waits = false }
    else if is_option arg
    then record r { out = r.out ++ (arg ∷ []); waits = takes_value arg }
    else if ltb (length r.positional) 8
    then record r { positional = r.positional ++ (arg ∷ []) }
    else r

-- The first loop, while there is room in `out`.
unfoldable pub place_all : ℕ → List (List ℕ) → Reordering → Reordering
place_all max [] r = r
place_all max (arg ∷ argv) r =
    let rest = place_all max argv (place arg r) in if ltb (length r.out) max then rest else r

abbrev pub nothing_placed : Reordering
nothing_placed = record { out = []; positional = []; waits = false }

-- `satdeploy_reorder_argv`: the entries that are written to `out`, and the returned count.
unfoldable pub satdeploy_reorder_argv : ℕ → List (List ℕ) → List (List ℕ) × ℕ
satdeploy_reorder_argv max argv =
    let r = place_all max argv nothing_placed in
    (take max (r.out ++ r.positional), length r.out + length r.positional)
