-- ===== src/Ground/Args/Overrun.antt =====
-- The count that `satdeploy_reorder_argv` returns, where the arguments do not fit.
use mathlib.Core.List.{append_assoc, append-nil}
use sat_build.Prelude.{
  ℕ, ◌+◌, ◌≤◌, ◌<◌, ◌≡◌, refl, ap, ◌∙◌, inl, inr, true, false, List, [], ◌∷◌, ◌++◌, arith, ltb,
  ltb→lt, lt→ltb, ltb→le, Bool-cases, length, length-append, length-take, All,
}
use sat_build.Ground.Args.{
  takes_value, is_option, Reordering, place, place_all, satdeploy_reorder_argv,
}

-- An option that takes no value.
abbrev pub IsFlag : List ℕ → Type 0
IsFlag arg = (is_option arg ≡ true) × (takes_value arg ≡ false)

module _ (max : ℕ) where
  -- Flags fill `out`.
  flags_fill :
      (flags out positional : List (List ℕ))
      → All IsFlag flags
      → length out ≤ max
      → max ≤ length out + length flags
      → let start : Reordering = record { out = out; positional = positional; waits = false } in
        (length (place_all max flags start).out ≡ max)
        × ((place_all max flags start).positional ≡ positional)
  unfolding place_all place
  flags_fill [] out positional plain below above = (omega arith, refl)
  flags_fill (arg ∷ flags) out positional (plain, rest) below above =
      let l = length-append out (arg ∷ []) in
      elim (Bool-cases (ltb (length out) max)) [
        | inl e ↦
            let fits = ltb→lt (length out) max e in
            rw (e, plain.0, plain.1)
              (flags_fill flags (out ++ (arg ∷ [])) positional rest (omega (arith, l))
                (omega (arith, l)))
        | inr e ↦ rw e (omega (arith, ltb→le (length out) max e), refl)
      ]

  -- Up to eight other arguments are set aside.
  positionals_wait :
      (ps flags positional : List (List ℕ))
      → 0 < max
      → All (λ arg. is_option arg ≡ false) ps
      → length positional + length ps ≤ 8
      → place_all max (ps ++ flags) (record { out = []; positional = positional; waits = false })
        ≡ place_all max flags (record { out = []; positional = positional ++ ps; waits = false })
  unfolding place_all place
  positionals_wait [] flags positional pos plain few = rw (append-nil positional) refl
  positionals_wait (arg ∷ ps) flags positional pos (plain, rest) few =
      let l = length-append positional (arg ∷ []) in
      rw (lt→ltb 0 max pos, plain, lt→ltb (length positional) 8 (omega arith))
        (positionals_wait ps flags (positional ++ (arg ∷ [])) pos rest (omega (arith, l))
          ∙ ap (λ p. place_all max flags (record { out = []; positional = p; waits = false }))
              (append_assoc positional (arg ∷ []) ps))

-- Where as many flags as `out` has room for follow some other arguments, at most eight, `out` is
-- full, and the returned count goes behind its end by the number of the others: what a caller reads
-- there was never written.
pub satdeploy_reorder_argv_overruns :
    (max : ℕ) (ps flags : List (List ℕ))
    → 0 < max
    → All (λ arg. is_option arg ≡ false) ps
    → All IsFlag flags
    → length ps ≤ 8
    → max ≤ length flags
    → let r = satdeploy_reorder_argv max (ps ++ flags) in
      (length r.0 ≡ max) × (r.1 ≡ max + length ps)
unfolding satdeploy_reorder_argv
satdeploy_reorder_argv_overruns max ps flags pos others plain few many =
    let full = flags_fill max flags [] ps plain (omega arith) (omega arith) in
    let r : Reordering = record { out = []; positional = ps; waits = false } in
    let l = length-append (place_all max flags r).out (place_all max flags r).positional in
    rw (positionals_wait max ps flags [] pos others (omega arith))
      (length-take max _ ∙ omega (arith, full.0, l), omega (arith, full.0, ap length full.1))
