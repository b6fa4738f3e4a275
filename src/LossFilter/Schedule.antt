-- ===== src/LossFilter/Schedule.antt =====
-- The schedule of the filter: what of its state the pattern decides, and the packets do not.
use sat_build.Prelude.{
  ◌+◌, ◌%◌, ◌≡◌, refl, sym, ap, ◌∙◌, inl, inr, Bool, true, false, ◌&&◌, ◌||◌, not, some, List, [],
  ◌∷◌, Bool-cases, drop, u32_mod, All,
}
use sat_build.LossFilter.{
  Doubles, Action, act_up, act_down, act_prob, act_clear, act_latency, act_gilbert, Event, Filter,
  apply_action, apply_event, advance_from, advance_state_locked, rand_unit, gilbert_draw, decide,
  count_drop, loss_filter_should_drop, loss_filter_apply_latency, wrap_csp_qfifo_write,
}
use sat_build.LossFilter.Advance.{IsOrdered, advance_state_locked_twice}
use sat_build.LossFilter.Stats.{run_hook}

module _ (D : Doubles) (ordered : IsOrdered D) where
  open D use {Real, of_nat, lt, le}

  -- The filter without what packets change: the counts, the generator, and the state of the
  -- two-state model.
  abbrev pub schedule : Filter D → Filter D
  schedule g = record g {
    gilbert_in_bad = false;
    packets_seen = 0;
    packets_dropped = 0;
    rng_state = 0;
  }

  schedule-apply_event :
      (ev : Event D) (a : Action) (g : Filter D)
      → schedule (apply_action D a ev g) ≡ apply_action D a ev (schedule g)
  unfolding apply_action
  schedule-apply_event ev act_up g = refl
  schedule-apply_event ev act_down g = refl
  schedule-apply_event ev act_prob g = refl
  schedule-apply_event ev act_clear g = refl
  schedule-apply_event ev act_latency g = refl
  schedule-apply_event ev act_gilbert g = refl

  schedule-advance_from :
      (events : List (Event D)) (t : Real) (g : Filter D)
      → schedule (advance_from D events t g) ≡ advance_from D events t (schedule g)
  unfolding advance_from apply_event
  schedule-advance_from [] t g = refl
  schedule-advance_from (ev ∷ events) t g = elim (Bool-cases (le ev.t_offset_s t)) [
    | inr early ↦ rw early refl
    | inl due ↦ rw due (
        schedule-advance_from events t (apply_event D ev g)
        ∙ ap
            (λ (h : Filter D).
              advance_from D events t (record h { current_idx = g.current_idx + 1 }))
            (schedule-apply_event ev ev.action g))
  ]

  schedule-advance :
      (t : Real) (g : Filter D)
      → schedule (advance_state_locked D t g) ≡ advance_state_locked D t (schedule g)
  unfolding advance_state_locked
  schedule-advance t g = schedule-advance_from (drop g.current_idx g.events) t g

  schedule-decide : (g : Filter D) → schedule (decide D g).0 ≡ schedule g
  unfolding decide rand_unit gilbert_draw
  schedule-decide g = elim (Bool-cases (not g.link_up)) [
    | inl down ↦ simp down refl
    | inr up ↦ elim (Bool-cases g.gilbert_active) [
      | inl burst ↦ elim (Bool-cases g.gilbert_in_bad) [
        | inl bad ↦ simp (up, burst, bad) refl
        | inr good ↦ simp (up, burst, good) refl
      ]
      | inr plain ↦ elim (Bool-cases (lt (of_nat 0) g.drop_prob)) [
        | inl some_loss ↦ simp (up, plain, some_loss) refl
        | inr no_loss ↦ simp (up, plain, no_loss) refl
      ]
    ]
  ]

  schedule-count_drop : (r : Filter D × Bool) → schedule (count_drop D r).0 ≡ schedule r.0
  unfolding count_drop
  schedule-count_drop (g, true) = refl
  schedule-count_drop (g, false) = refl

  -- What the schedule is at the time `u`.
  abbrev at_time : Real → Filter D → Filter D
  at_time u g = advance_state_locked D u (schedule g)

  should_drop-at_time :
      (t u : Real) (g : Filter D)
      → le t u ≡ true
      → at_time u (loss_filter_should_drop D t g).0 ≡ at_time u g
  unfolding loss_filter_should_drop
  should_drop-at_time t u g before = elim (Bool-cases (not g.initialized || not g.enabled)) [
    | inl off ↦ rw (off, loss_filter_should_drop) refl
    | inr on ↦
        let seen : Filter D = record g { packets_seen = (g.packets_seen + 1) % u32_mod } in
        let now = advance_state_locked D t seen in
        let same : schedule (count_drop D (decide D now)).0
            ≡ advance_state_locked D t (schedule g) =
          schedule-count_drop (decide D now) ∙ schedule-decide now ∙ schedule-advance t seen in
        rw (on, loss_filter_should_drop, same)
          (advance_state_locked_twice D ordered t u (schedule g) before)
  ]

  apply_latency-at_time :
      (t u : Real) (g : Filter D)
      → le t u ≡ true
      → at_time u (loss_filter_apply_latency D t g).0 ≡ at_time u g
  unfolding loss_filter_apply_latency
  apply_latency-at_time t u g before = elim (Bool-cases (g.initialized && g.enabled)) [
    | inr off ↦ rw (off, loss_filter_apply_latency) refl
    | inl on ↦
        rw (on, loss_filter_apply_latency, schedule-advance t g)
          (advance_state_locked_twice D ordered t u (schedule g) before)
  ]

  hook-at_time :
      {P : Type 0} (t later u : Real) (packet : P) (g : Filter D)
      → le t u ≡ true
      → le later u ≡ true
      → at_time u (wrap_csp_qfifo_write D t later (some packet) g).0 ≡ at_time u g
  unfolding wrap_csp_qfifo_write
  hook-at_time t later u packet g before before' =
      let decision = loss_filter_should_drop D t g in
      elim (Bool-cases decision.1) [
        | inl drops ↦ rw (drops, wrap_csp_qfifo_write) (should_drop-at_time t u g before)
        | inr passes ↦
            rw (passes, wrap_csp_qfifo_write)
              (apply_latency-at_time later u decision.0 before' ∙ should_drop-at_time t u g before)
      ]

  run_hook-at_time :
      {P : Type 0} (packets : List (Real × Real × P)) (u : Real) (g : Filter D)
      → All (λ p. (le p.0 u ≡ true) × (le p.1 u ≡ true)) packets
      → at_time u (run_hook D packets g).0 ≡ at_time u g
  unfolding run_hook
  run_hook-at_time [] u g h = refl
  run_hook-at_time ((t, later, packet) ∷ packets) u g h =
      run_hook-at_time packets u (wrap_csp_qfifo_write D t later (some packet) g).0 h.1
      ∙ hook-at_time t later u packet g h.0.0 h.0.1

  -- Whatever packets came to the hook at times that are not behind `now_s`, and however many, the
  -- events leave the same schedule at `now_s` as if none had come: the state of the link, the
  -- probabilities, the latency, and how many events are applied. What packets do change, the counts,
  -- the generator and the state of the two-state model, is left out. Comparison is transitive, as
  -- that of C's doubles is.
  pub run_hook-schedule :
      {P : Type 0} (packets : List (Real × Real × P)) (now_s : Real) (g : Filter D)
      → All (λ p. (le p.0 now_s ≡ true) × (le p.1 now_s ≡ true)) packets
      → schedule (advance_state_locked D now_s (run_hook D packets g).0)
        ≡ schedule (advance_state_locked D now_s g)
  run_hook-schedule packets now_s g h =
      schedule-advance now_s (run_hook D packets g).0
      ∙ run_hook-at_time packets now_s g h
      ∙ sym (schedule-advance now_s g)
