-- ===== src/Ground/Args/Order.antt =====
-- The order that `satdeploy_reorder_argv` gives the arguments.
use mathlib.Core.List.{Perm, perm_middle, append_assoc, append-nil}
use mathlib.Core.List.Perm
use sat_build.Prelude.{
  ℕ, ◌+◌, ◌≤◌, ◌≡◌, refl, sym, ◌∙◌, inl, inr, Bool, true, false, ◌&&◌, List, [], ◌∷◌, ◌++◌, arith,
  if◌then◌else◌, lt→ltb, Bool-cases, length, length-append, take_all, All,
}
use sat_build.Ground.Args.{
  takes_value, is_option, Reordering, place, place_all, satdeploy_reorder_argv,
}

-- An independent description: the options with their values, and the other arguments.
abbrev pub options : Bool → List (List ℕ) → List (List ℕ)
options waits [] = []
options true (arg ∷ argv) = arg ∷ options false argv
options false (arg ∷ argv) =
    let rest = options (is_option arg && takes_value arg) argv in
    if is_option arg then arg ∷ rest else rest

abbrev pub positionals : Bool → List (List ℕ) → List (List ℕ)
positionals waits [] = []
positionals true (arg ∷ argv) = positionals false argv
positionals false (arg ∷ argv) =
    let rest = positionals (is_option arg && takes_value arg) argv in
    if is_option arg then rest else arg ∷ rest

-- The two together are the arguments.
split_length :
    (waits : Bool) (argv : List (List ℕ))
    → length (options waits argv) + length (positionals waits argv) ≡ length argv
split_length waits [] = omega arith
split_length true (arg ∷ argv) = omega (arith, split_length false argv)
split_length false (arg ∷ argv) =
    ground (arith, split_length (is_option arg && takes_value arg) argv)

split-perm :
    (waits : Bool) (argv : List (List ℕ)) → Perm (options waits argv ++ positionals waits argv) argv
split-perm waits [] = Perm.refl []
split-perm true (arg ∷ argv) = Perm.cons arg (split-perm false argv)
split-perm false (arg ∷ argv) =
    let waits = is_option arg && takes_value arg in
    elim (Bool-cases (is_option arg)) [
      | inl e ↦ rw e (Perm.cons arg (rw e at (split-perm waits argv)))
      | inr e ↦ rw e (
          Perm.trans (perm_middle (options false argv) (positionals false argv))
            (Perm.cons arg (split-perm false argv)))
    ]

positionals-All :
    (waits : Bool) (argv : List (List ℕ))
    → All (λ arg. is_option arg ≡ false) (positionals waits argv)
positionals-All waits [] = tt
positionals-All true (arg ∷ argv) = positionals-All false argv
positionals-All false (arg ∷ argv) = elim (Bool-cases (is_option arg)) [
  | inl e ↦ rw e (positionals-All (takes_value arg) argv)
  | inr e ↦ rw e (e, positionals-All false argv)
]

module _ (max : ℕ) where
  -- What the loop does where everything fits.
  place_all_lem :
      (argv out positional : List (List ℕ)) (waits : Bool)
      → length out + length argv ≤ max
      → length positional + length (positionals waits argv) ≤ 8
      → let start : Reordering = record { out = out; positional = positional; waits = waits } in
        ((place_all max argv start).out ≡ out ++ options waits argv)
        × ((place_all max argv start).positional ≡ positional ++ positionals waits argv)
  unfolding place_all place
  place_all_lem [] out positional waits room few =
      (sym (append-nil out), sym (append-nil positional))
  place_all_lem (arg ∷ argv) out positional true room few =
      let l = length-append out (arg ∷ []) in
      let ih = place_all_lem argv (out ++ (arg ∷ [])) positional false (omega (arith, l)) few in
      rw (lt→ltb (length out) max (omega arith))
        (ih.0 ∙ append_assoc out (arg ∷ []) (options false argv), ih.1)
  place_all_lem (arg ∷ argv) out positional false room few =
      let l = length-append out (arg ∷ []) in
      elim (Bool-cases (is_option arg)) [
        | inl e ↦
            let few' = rw e at few in
            let ih =
              place_all_lem argv (out ++ (arg ∷ [])) positional (takes_value arg) (omega (arith, l))
                few' in
            rw (lt→ltb (length out) max (omega arith), e)
              (ih.0 ∙ append_assoc out (arg ∷ []) (options (takes_value arg) argv), ih.1)
        | inr e ↦
            let few' = rw e at few in
            let l' = length-append positional (arg ∷ []) in
            let ih =
              place_all_lem argv out (positional ++ (arg ∷ [])) false (omega arith)
                (omega (arith, l', few')) in
            rw
              (
                lt→ltb (length out) max (omega arith),
                e,
                lt→ltb (length positional) 8 (omega (arith, few')),
              )
              (ih.0, ih.1 ∙ append_assoc positional (arg ∷ []) (positionals false argv))
      ]

-- Where the arguments fit `out` and at most eight stand for themselves: the entries are the options
-- with their values and then the other arguments, each in the order of the command line; they are
-- the arguments, none lost or repeated; no option stands among the others; and the count is theirs.
pub satdeploy_reorder_argv_lem :
    (max : ℕ) (argv : List (List ℕ))
    → length argv ≤ max
    → length (positionals false argv) ≤ 8
    → let r = satdeploy_reorder_argv max argv in
      (r.0 ≡ options false argv ++ positionals false argv)
      × Perm r.0 argv
      × All (λ arg. is_option arg ≡ false) (positionals false argv)
      × (r.1 ≡ length r.0)
unfolding satdeploy_reorder_argv
satdeploy_reorder_argv_lem max argv room few =
    let placed = place_all_lem max argv [] [] false (omega arith) (omega arith) in
    let sum = split_length false argv in
    let l = length-append (options false argv) (positionals false argv) in
    let all = take_all max (options false argv ++ positionals false argv) (omega (arith, l, sum)) in
    rw (placed.0, placed.1, all)
      (refl, split-perm false argv, positionals-All false argv, omega (arith, l))
