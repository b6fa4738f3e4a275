-- ===== src/LossFilter/Stats.antt =====
-- The counts of the filter over the packets that come to the router.
use sat_build.Prelude.{
  ℕ, ◌+◌, ◌%◌, ◌<◌, ◌≡◌, refl, sym, ap, ◌∙◌, inl, inr, Bool, true, false, ◌&&◌, ◌||◌, not, Option,
  none, some, List, [], ◌∷◌, arith, if◌then◌else◌, Bool-cases, length, drop, u32_mod,
}
use sat_build.LossFilter.{
  Doubles, Action, act_up, act_down, act_prob, act_clear, act_latency, act_gilbert, Event, Filter,
  apply_action, apply_event, advance_from, advance_state_locked, rand_unit, gilbert_draw, decide,
  count_drop, loss_filter_should_drop, loss_filter_apply_latency, wrap_csp_qfifo_write,
}

module _ (D : Doubles) where
  open D use {Real, of_nat, lt, le}

  -- The counts and the switches, which the events and the draws leave alone.
  abbrev SameCounts : Filter D → Filter D → Type 0
  SameCounts g g' =
      (g'.packets_seen ≡ g.packets_seen)
      × (g'.packets_dropped ≡ g.packets_dropped)
      × (g'.initialized ≡ g.initialized)
      × (g'.enabled ≡ g.enabled)

  apply_action-SameCounts :
      (a : Action) (ev : Event D) (g : Filter D) → SameCounts g (apply_action D a ev g)
  unfolding apply_action
  apply_action-SameCounts act_up ev g = (refl, refl, refl, refl)
  apply_action-SameCounts act_down ev g = (refl, refl, refl, refl)
  apply_action-SameCounts act_prob ev g = (refl, refl, refl, refl)
  apply_action-SameCounts act_clear ev g = (refl, refl, refl, refl)
  apply_action-SameCounts act_latency ev g = (refl, refl, refl, refl)
  apply_action-SameCounts act_gilbert ev g = (refl, refl, refl, refl)

  SameCounts-trans : (a b c : Filter D) → SameCounts a b → SameCounts b c → SameCounts a c
  SameCounts-trans a b c p q = (q.0 ∙ p.0, q.1 ∙ p.1, q.2 ∙ p.2, q.3 ∙ p.3)

  advance_from-SameCounts :
      (events : List (Event D)) (t : Real) (g : Filter D) → SameCounts g (advance_from D events t g)
  unfolding advance_from apply_event
  advance_from-SameCounts [] t g = (refl, refl, refl, refl)
  advance_from-SameCounts (ev ∷ events) t g = elim (Bool-cases (le ev.t_offset_s t)) [
    | inl due ↦ rw due (
        SameCounts-trans g (apply_event D ev g) (advance_from D events t (apply_event D ev g))
          (apply_action-SameCounts ev.action ev g)
          (advance_from-SameCounts events t (apply_event D ev g)))
    | inr early ↦ rw early (refl, refl, refl, refl)
  ]

  gilbert_draw-SameCounts : (g : Filter D) → SameCounts g (gilbert_draw D g).0
  unfolding gilbert_draw rand_unit
  gilbert_draw-SameCounts g = elim (Bool-cases g.gilbert_in_bad) [
    | inl b ↦ simp b (refl, refl, refl, refl)
    | inr b ↦ simp b (refl, refl, refl, refl)
  ]

  decide-SameCounts : (g : Filter D) → SameCounts g (decide D g).0
  unfolding decide rand_unit
  decide-SameCounts g = elim (Bool-cases (not g.link_up)) [
    | inl down ↦ simp down (refl, refl, refl, refl)
    | inr up ↦ elim (Bool-cases g.gilbert_active) [
      | inl burst ↦ simp (up, burst) (gilbert_draw-SameCounts g)
      | inr plain ↦ elim (Bool-cases (lt (of_nat 0) g.drop_prob)) [
        | inl some_loss ↦ simp (up, plain, some_loss) (refl, refl, refl, refl)
        | inr no_loss ↦ simp (up, plain, no_loss) (refl, refl, refl, refl)
      ]
    ]
  ]

  pub forward {ℓ} : {A : Type ℓ} → Option A → List A → List A
  forward none rest = rest
  forward (some p) rest = p ∷ rest

  -- The packets at the hook, with the times of its two calls, and those that reach the router.
  unfoldable pub run_hook :
      {P : Type 0} → List (Real × Real × P) → Filter D → Filter D × List (Option P)
  run_hook [] g = (g, [])
  run_hook ((now_s, later_s, packet) ∷ packets) g =
      let one = wrap_csp_qfifo_write D now_s later_s (some packet) g in
      let rest = run_hook packets one.0 in (rest.0, forward one.1 rest.1)

  -- One packet is counted as seen, and if it is dropped, as dropped.
  abbrev IsCounted : Filter D → Filter D × Bool → Type 0
  IsCounted g r =
      (r.0.packets_seen ≡ g.packets_seen + 1)
      × (r.0.packets_dropped ≡ (if r.1 then g.packets_dropped + 1 else g.packets_dropped))
      × (r.0.initialized ≡ true)
      × (r.0.enabled ≡ true)

  count_drop_lem :
      (g : Filter D) (r : Filter D × Bool)
      → g.packets_dropped + 1 < u32_mod
      → SameCounts g r.0
      → (g.initialized ≡ true)
      → (g.enabled ≡ true)
      → let c = count_drop D r in
        (c.1 ≡ r.1)
        × (c.0.packets_seen ≡ g.packets_seen)
        × (c.0.packets_dropped ≡ (if r.1 then g.packets_dropped + 1 else g.packets_dropped))
        × (c.0.initialized ≡ true)
        × (c.0.enabled ≡ true)
  unfolding count_drop
  count_drop_lem g (h, true) small same i e =
      (refl, same.0, omega (arith, same.1), same.2 ∙ i, same.3 ∙ e)
  count_drop_lem g (h, false) small same i e = (refl, same.0, same.1, same.2 ∙ i, same.3 ∙ e)

  should_drop_lem :
      (now_s : Real) (g : Filter D)
      → g.initialized ≡ true
      → g.enabled ≡ true
      → g.packets_seen + 1 < u32_mod
      → g.packets_dropped + 1 < u32_mod
      → IsCounted g (loss_filter_should_drop D now_s g)
  unfolding loss_filter_should_drop advance_state_locked
  should_drop_lem now_s g i e seen dropped =
      let counted : Filter D = record g { packets_seen = (g.packets_seen + 1) % u32_mod } in
      let advanced = advance_state_locked D now_s counted in
      let a = advance_from-SameCounts (drop g.current_idx g.events) now_s counted in
      let d =
        SameCounts-trans counted advanced (decide D advanced).0 a (decide-SameCounts advanced) in
      let c = count_drop_lem counted (decide D advanced) dropped d i e in
      let on : (not g.initialized || not g.enabled) ≡ false = simp (i, e) refl in
      rw on (
        c.1 ∙ omega arith,
        c.2 ∙ ap (λ b. if b then g.packets_dropped + 1 else g.packets_dropped) (sym c.0),
        c.3,
        c.4,
      )

  apply_latency-SameCounts :
      (t : Real) (g : Filter D) → SameCounts g (loss_filter_apply_latency D t g).0
  unfolding loss_filter_apply_latency advance_state_locked
  apply_latency-SameCounts t g = elim (Bool-cases (g.initialized && g.enabled)) [
    | inl on ↦ rw on (advance_from-SameCounts (drop g.current_idx g.events) t g)
    | inr off ↦ rw off (refl, refl, refl, refl)
  ]

  abbrev one_if {ℓ} : {A : Type ℓ} → Option A → ℕ
  one_if none = 0
  one_if (some a) = 1

  length-forward {ℓ} :
      {A : Type ℓ} (o : Option A) (rest : List A) → length (forward o rest) ≡ one_if o + length rest
  unfolding forward
  length-forward none rest = omega arith
  length-forward (some p) rest = omega arith

  hook_lem :
      {P : Type 0} (now_s later_s : Real) (packet : P) (g : Filter D)
      → g.initialized ≡ true
      → g.enabled ≡ true
      → g.packets_seen + 1 < u32_mod
      → g.packets_dropped + 1 < u32_mod
      → let r = wrap_csp_qfifo_write D now_s later_s (some packet) g in
        (r.0.packets_seen ≡ g.packets_seen + 1)
        × (r.0.packets_dropped + one_if r.1 ≡ g.packets_dropped + 1)
        × (r.0.initialized ≡ true)
        × (r.0.enabled ≡ true)
  unfolding wrap_csp_qfifo_write
  hook_lem now_s later_s packet g i e seen dropped =
      let c = should_drop_lem now_s g i e seen dropped in
      elim (Bool-cases (loss_filter_should_drop D now_s g).1) [
        | inl lost ↦ rw lost (c.0, omega (arith, rw lost at c.1), c.2, c.3)
        | inr kept ↦
            let l = apply_latency-SameCounts later_s (loss_filter_should_drop D now_s g).0 in
            rw kept (l.0 ∙ c.0, omega (arith, l.1, rw kept at c.1), l.2 ∙ c.2, l.3 ∙ c.3)
      ]

  -- While the filter is on, the counts are exact: every packet that comes is seen once, and is either
  -- dropped or goes on to the router, whatever the pattern, the times and the draws are. The counts
  -- stay under 2^32.
  pub run_hook_lem :
      {P : Type 0} (packets : List (Real × Real × P)) (g : Filter D)
      → g.initialized ≡ true
      → g.enabled ≡ true
      → g.packets_seen + length packets < u32_mod
      → g.packets_dropped + length packets < u32_mod
      → let r = run_hook packets g in
        (r.0.packets_seen ≡ g.packets_seen + length packets)
        × (r.0.packets_dropped + length r.1 ≡ g.packets_dropped + length packets)
  unfolding run_hook
  run_hook_lem [] g i e seen dropped = (omega arith, omega arith)
  run_hook_lem ((now_s, later_s, packet) ∷ packets) g i e seen dropped =
      let one = wrap_csp_qfifo_write D now_s later_s (some packet) g in
      let h = hook_lem now_s later_s packet g i e (omega arith) (omega arith) in
      let ih = run_hook_lem packets one.0 h.2 h.3 (omega (arith, h.0)) (omega (arith, h.1)) in
      let rest = (run_hook packets one.0).1 in
      (omega (arith, ih.0, h.0), omega (arith, ih.1, h.1, length-forward one.1 rest))
