-- ===== src/LossFilter/Advance.antt =====
-- The events that are applied by a time, however often the filter is asked before.
use sat_build.Prelude.{
  ℕ, suc, ◌+◌, ◌-◌, ◌≤◌, ◌<◌, ◌≡◌, refl, sym, ap, ap₂, ◌∙◌, inl, inr, true, false, Option, none,
  some, List, [], ◌∷◌, arith, if◌then◌else◌, ne→==, Bool-cases, Option-cases, none≢some, length,
  drop, drop-drop, All,
}
use mathlib.Core.Option.{some-injective}
use mathlib.Core.Path.{subst}
use sat_build.LossFilter.Pattern.{
  is_monotonic, is_monotonic_from_first, load_pattern_file, parse_lines, loss_filter_init,
}
use sat_build.LossFilter.{
  Doubles, Action, act_up, act_down, act_prob, act_clear, act_latency, act_gilbert, Event, Filter,
  apply_action, apply_event, advance_from, advance_state_locked,
}

-- What IEEE 754 says of `<=` and `<`. A number is what is `<=` itself: "nan" is not, as every
-- comparison with it is false.
abbrev pub IsNumber : (D : Doubles) → D.Real → Type 0
IsNumber D x = D.le x x ≡ true

pub record IsOrdered (D : Doubles) : Type 0 where
  pub le_trans : (a b c : D.Real) → D.le a b ≡ true → D.le b c ≡ true → D.le a c ≡ true
  pub le_of_not_lt :
      (a b : D.Real) → IsNumber D a → IsNumber D b → D.lt b a ≡ false → D.le a b ≡ true

module _ (D : Doubles) (ordered : IsOrdered D) where
  open D use {Real, lt, le}
  open ordered use {le_trans, le_of_not_lt}

  apply_action-events :
      (a : Action) (ev : Event D) (g : Filter D) → (apply_action D a ev g).events ≡ g.events
  unfolding apply_action
  apply_action-events act_up ev g = refl
  apply_action-events act_down ev g = refl
  apply_action-events act_prob ev g = refl
  apply_action-events act_clear ev g = refl
  apply_action-events act_latency ev g = refl
  apply_action-events act_gilbert ev g = refl

  -- An event leaves the list of events, and is counted.
  apply_event_lem :
      (ev : Event D) (g : Filter D)
      → ((apply_event D ev g).events ≡ g.events)
        × ((apply_event D ev g).current_idx ≡ g.current_idx + 1)
  unfolding apply_event
  apply_event_lem ev g = (apply_action-events ev.action ev g, refl)

  advance_from_grows :
      (events : List (Event D)) (t : Real) (g : Filter D)
      → ((advance_from D events t g).events ≡ g.events)
        × (g.current_idx ≤ (advance_from D events t g).current_idx)
  unfolding advance_from
  advance_from_grows [] t g = (refl, omega arith)
  advance_from_grows (ev ∷ events) t g =
      let ih = advance_from_grows events t (apply_event D ev g) in
      let step = apply_event_lem ev g in
      elim (Bool-cases (le ev.t_offset_s t)) [
        | inl due ↦ rw due (ih.0 ∙ step.0, omega (arith, ih.1, step.1))
        | inr early ↦ rw early (refl, omega arith)
      ]

  -- What is not due yet is due later, and what was due is not applied again.
  advance_from_twice :
      (events : List (Event D)) (t u : Real) (g : Filter D)
      → le t u ≡ true
      → advance_from D
          (drop ((advance_from D events t g).current_idx - g.current_idx) events)
          u
          (advance_from D events t g)
        ≡ advance_from D events u g
  unfolding advance_from
  advance_from_twice [] t u g later =
      ap (λ k. advance_from D (drop k []) u g)
        (let e : g.current_idx - g.current_idx ≡ 0 = omega arith in e)
  advance_from_twice (ev ∷ events) t u g later = elim (Bool-cases (le ev.t_offset_s t)) [
    | inl due ↦
        let g' = apply_event D ev g in
        let first = advance_from D events t g' in
        let ih = advance_from_twice events t u g' later in
        let k : first.current_idx - g.current_idx ≡ suc (first.current_idx - g'.current_idx) =
          omega (arith, (advance_from_grows events t g').1, (apply_event_lem ev g).1) in
        rw (due, le_trans ev.t_offset_s t u due later, k) ih
    | inr early ↦ rw early (
        ap (λ k. advance_from D (drop k (ev ∷ events)) u g)
          (let e : g.current_idx - g.current_idx ≡ 0 = omega arith in e))
  ]

  -- Two calls of `advance_state_locked` with no packet between, of which the second is at a time
  -- that is not before the first's, leave the filter as the second call alone does: no event is
  -- applied twice, and none is skipped.
  pub advance_state_locked_twice :
      (t u : Real) (g : Filter D)
      → le t u ≡ true
      → advance_state_locked D u (advance_state_locked D t g) ≡ advance_state_locked D u g
  unfolding advance_state_locked
  advance_state_locked_twice t u g later =
      let events = drop g.current_idx g.events in
      let first = advance_from D events t g in
      let grows = advance_from_grows events t g in
      let k : first.current_idx ≡ g.current_idx + (first.current_idx - g.current_idx) =
        omega (arith, grows.1) in
      let left : drop first.current_idx first.events
          ≡ drop (first.current_idx - g.current_idx) events =
        ap₂ drop k grows.0
        ∙ sym (drop-drop g.current_idx (first.current_idx - g.current_idx) g.events) in
      ap (λ evs. advance_from D evs u first) left ∙ advance_from_twice events t u g later

  -- How many events are due, wherever they stand.
  abbrev pub count_due : Real → List (Event D) → ℕ
  count_due now_s [] = 0
  count_due now_s (ev ∷ events) =
      if le ev.t_offset_s now_s then suc (count_due now_s events) else count_due now_s events

  none_due :
      (events : List (Event D)) (before now_s : Real)
      → IsNumber D before
      → All (λ ev. IsNumber D ev.t_offset_s) events
      → is_monotonic D before events ≡ true
      → le before now_s ≡ false
      → count_due now_s events ≡ 0
  unfolding is_monotonic
  none_due [] before now_s n ns m early = refl
  none_due (ev ∷ events) before now_s n ns m early = elim (Bool-cases (lt ev.t_offset_s before)) [
    | inl back ↦ absurd (cc (rw back at m))
    | inr on ↦ elim (Bool-cases (le ev.t_offset_s now_s)) [
      | inl due ↦ absurd (
          cc (
            sym early
            ∙ le_trans before ev.t_offset_s now_s (le_of_not_lt before ev.t_offset_s n ns.0 on)
                due))
      | inr not_due ↦
          rw not_due (none_due events ev.t_offset_s now_s ns.0 ns.1 (rw on at m) not_due)
    ]
  ]

  monotonic_tail :
      (before : Real) (events : List (Event D))
      → is_monotonic D before events ≡ true
      → is_monotonic_from_first D events ≡ true
  unfolding is_monotonic
  monotonic_tail before [] m = refl
  monotonic_tail before (ev ∷ events) m = elim (Bool-cases (lt ev.t_offset_s before)) [
    | inl back ↦ absurd (cc (rw back at m))
    | inr on ↦ rw on at m
  ]

  advance_from_count :
      (events : List (Event D)) (now_s : Real) (g : Filter D)
      → All (λ ev. IsNumber D ev.t_offset_s) events
      → is_monotonic_from_first D events ≡ true
      → (advance_from D events now_s g).current_idx ≡ g.current_idx + count_due now_s events
  unfolding advance_from
  advance_from_count [] now_s g ns m = omega arith
  advance_from_count (ev ∷ events) now_s g ns m = elim (Bool-cases (le ev.t_offset_s now_s)) [
    | inl due ↦
        let ih =
          advance_from_count events now_s (apply_event D ev g) ns.1
            (monotonic_tail ev.t_offset_s events m) in
        rw due (omega (arith, ih, (apply_event_lem ev g).1))
    | inr early ↦ rw (early, none_due events ev.t_offset_s now_s ns.0 ns.1 m early) (omega arith)
  ]

  load-monotonic :
      (file : Option (List (List ℕ))) (events : List (Event D))
      → load_pattern_file D file ≡ some events
      → is_monotonic_from_first D events ≡ true
  unfolding load_pattern_file
  load-monotonic none events e = absurd (none≢some e)
  load-monotonic (some lines) events e = elim (Option-cases (parse_lines D lines)) [
    | inl bad ↦ absurd (none≢some (rw (bad, load_pattern_file) at e))
    | inr (parsed, found) ↦ elim (Bool-cases (is_monotonic_from_first D parsed)) [
      | inl sorted ↦
          subst (λ evs. is_monotonic_from_first D evs ≡ true)
            (some-injective _ _ (rw (found, load_pattern_file, sorted) at e)) sorted
      | inr mixed ↦ absurd (none≢some (rw (found, load_pattern_file, mixed) at e))
    ]
  ]

  -- Where the filter starts with a pattern that can be loaded and of which no time is "nan", it has
  -- at each time applied as many events as are due in the whole pattern: none waits behind one that
  -- is not due, since the loader takes only events in the order of their times. As in IEEE 754, `<=`
  -- is transitive, and holds between two numbers of which the second is not `<` the first.
  pub loss_filter_init-advance :
      (path : List ℕ) (file : List ℕ → Option (List (List ℕ))) (seed : Option ℕ) (g : Filter D)
      (events : List (Event D)) (now_s : Real)
      → 0 < length path
      → g.initialized ≡ false
      → load_pattern_file D (file path) ≡ some events
      → All (λ ev. IsNumber D ev.t_offset_s) events
      → let started = loss_filter_init D (some path) file seed g in
        (started.1 ≡ true)
        × ((advance_state_locked D now_s started.0).current_idx ≡ count_due now_s events)
  unfolding loss_filter_init advance_state_locked
  loss_filter_init-advance path file seed g events now_s pos fresh e numbers =
      let some_path = ne→== (length path) 0 (omega arith) in
      let sorted = load-monotonic (file path) events e in
      simp (loss_filter_init, fresh, some_path, e)
        (refl, advance_from_count events now_s _ numbers sorted ∙ omega arith)
