-- ===== src/LossFilter.antt =====
-- satdeploy-agent/src/loss_filter.c: the losses that an experiment injects. The `double`s of the
-- code and what it calls for them are the parameter `Doubles`; the clock's times are arguments. The
-- lock is left out, as each operation holds it throughout.
pub mod Pattern
pub mod Advance
pub mod Stats
pub mod Schedule
mod Tests
use Prim.Native.Nat.{bit_xor}
use sat_build.Prelude.{
  ℕ, ◌+◌, ◌*◌, ◌/◌, ◌%◌, ◌^◌, Bool, true, false, ◌&&◌, ◌||◌, not, Option, none, some, List, [], ◌∷◌,
  if◌then◌else◌, drop, u32_mod,
}

-- `double` with its comparisons, the numbers of the code, the conversion to `uint32_t`, the quotient
-- of a number by 2 ^ 53, and what `sscanf` reads by "%lf %15s%n", "%lf" and four times "%lf".
pub record Doubles : Type 1 where
  pub Real : Type 0
  pub of_nat : ℕ → Real
  pub lt : Real → Real → Bool
  pub le : Real → Real → Bool
  pub to_u32 : Real → ℕ
  pub over_2_53 : ℕ → Real
  pub scan_event : List ℕ → Option (Real × List ℕ × List ℕ)
  pub scan_one : List ℕ → Option Real
  pub scan_four : List ℕ → Option (Real × Real × Real × Real)

-- `action_t`
pub data Action : Type 0 where
  act_up : Action
  act_down : Action
  act_prob : Action
  act_clear : Action
  act_latency : Action
  act_gilbert : Action

module _ (D : Doubles) where
  open D use {Real, of_nat, lt, le, to_u32, over_2_53}

  -- `event_t`; the fields `p0` to `p3` are `params`.
  pub record Event : Type 0 where
    pub t_offset_s : Real
    pub action : Action
    pub p0 : Real
    pub p1 : Real
    pub p2 : Real
    pub p3 : Real

  -- The module's state `g` with `g_rng_state`; `n_events` is the length of `events`.
  pub record Filter : Type 0 where
    pub initialized : Bool
    pub enabled : Bool
    pub events : List Event
    pub link_up : Bool
    pub drop_prob : Real
    pub current_idx : ℕ
    pub latency_ms : ℕ
    pub gilbert_active : Bool
    pub gilbert_in_bad : Bool
    pub gilbert_p_gg : Real
    pub gilbert_p_bb : Real
    pub gilbert_drop_g : Real
    pub gilbert_drop_b : Real
    pub packets_seen : ℕ
    pub packets_dropped : ℕ
    pub rng_state : ℕ

  abbrev pub u64_mod : ℕ
  u64_mod = 2 ^ 64

  -- `xorshift64`: the new state, which is the result.
  unfoldable pub xorshift64 : ℕ → ℕ
  xorshift64 x =
      let a = bit_xor x (x * 2 ^ 13 % u64_mod) in
      let b = bit_xor a (a / 2 ^ 7) in bit_xor b (b * 2 ^ 17 % u64_mod)

  -- `rand_unit`, and the state behind it.
  unfoldable pub rand_unit : Filter → Real × Filter
  rand_unit g =
      let x = xorshift64 g.rng_state in (over_2_53 (x / 2 ^ 11), record g { rng_state = x })

  -- The switch of `advance_state_locked`.
  unfoldable pub apply_action : Action → Event → Filter → Filter
  apply_action act_up ev g = record g {
    link_up = true;
    drop_prob = of_nat 0;
    gilbert_active = false;
  }
  apply_action act_down ev g = record g {
    link_up = false;
    drop_prob = of_nat 0;
    gilbert_active = false;
  }
  apply_action act_clear ev g = record g {
    link_up = true;
    drop_prob = of_nat 0;
    gilbert_active = false;
  }
  apply_action act_prob ev g = record g {
    link_up = true;
    drop_prob = ev.p0;
    gilbert_active = false;
  }
  apply_action act_latency ev g = record g { latency_ms = to_u32 ev.p0 }
  apply_action act_gilbert ev g = record g {
    link_up = true;
    drop_prob = of_nat 0;
    gilbert_active = true;
    gilbert_in_bad = false;
    gilbert_p_gg = ev.p0;
    gilbert_p_bb = ev.p1;
    gilbert_drop_g = ev.p2;
    gilbert_drop_b = ev.p3;
  }

  -- One round of the loop.
  unfoldable pub apply_event : Event → Filter → Filter
  apply_event ev g = record (apply_action ev.action ev g) { current_idx = g.current_idx + 1 }

  -- The loop, over the events from `current_idx` on.
  unfoldable pub advance_from : List Event → Real → Filter → Filter
  advance_from [] now_s g = g
  advance_from (ev ∷ events) now_s g =
      let rest = advance_from events now_s (apply_event ev g) in
      if le ev.t_offset_s now_s then rest else g

  unfoldable pub advance_state_locked : Real → Filter → Filter
  advance_state_locked now_s g = advance_from (drop g.current_idx g.events) now_s g

  -- The draws of the two-state model: whether the packet is dropped, and the next state.
  unfoldable pub gilbert_draw : Filter → Filter × Bool
  gilbert_draw g =
      let first = rand_unit g in
      let second = rand_unit first.1 in
      if g.gilbert_in_bad
      then (
        record second.1 { gilbert_in_bad = not (le g.gilbert_p_bb second.0) },
        lt first.0 g.gilbert_drop_b,
      )
      else (
        record second.1 { gilbert_in_bad = le g.gilbert_p_gg second.0 },
        lt first.0 g.gilbert_drop_g,
      )

  -- The decision for one packet, behind the events.
  unfoldable pub decide : Filter → Filter × Bool
  decide g =
      let draw = rand_unit g in
      if not g.link_up
      then (g, true)
      else if g.gilbert_active
      then gilbert_draw g
      else if lt (of_nat 0) g.drop_prob
      then (draw.1, lt draw.0 g.drop_prob)
      else (g, false)

  unfoldable pub count_drop : Filter × Bool → Filter × Bool
  count_drop (g, true) = (record g { packets_dropped = (g.packets_dropped + 1) % u32_mod }, true)
  count_drop (g, false) = (g, false)

  -- `loss_filter_should_drop`
  unfoldable pub loss_filter_should_drop : Real → Filter → Filter × Bool
  loss_filter_should_drop now_s g =
      if not g.initialized || not g.enabled
      then (g, false)
      else count_drop (
          decide (
            advance_state_locked now_s
              (record g { packets_seen = (g.packets_seen + 1) % u32_mod })))

  -- `loss_filter_apply_latency`: how long it sleeps.
  unfoldable pub loss_filter_apply_latency : Real → Filter → Filter × ℕ
  loss_filter_apply_latency now_s g =
      if g.initialized && g.enabled
      then (advance_state_locked now_s g, (advance_state_locked now_s g).latency_ms)
      else (g, 0)

  -- `loss_filter_close` and `loss_filter_stats`
  unfoldable pub loss_filter_close : Filter → Filter
  loss_filter_close g = record g { events = []; initialized = false; enabled = false }

  abbrev pub loss_filter_stats : Filter → ℕ × ℕ
  loss_filter_stats g = (g.packets_seen, g.packets_dropped)

  -- `__wrap_csp_qfifo_write` of loss_filter_iface_hook.c: the packet that reaches the real function,
  -- if one does, at the times of the two calls.
  unfoldable pub wrap_csp_qfifo_write :
      {P : Type 0} → Real → Real → Option P → Filter → Filter × Option (Option P)
  wrap_csp_qfifo_write now_s later_s none g = (g, some none)
  wrap_csp_qfifo_write now_s later_s (some packet) g =
      let decision = loss_filter_should_drop now_s g in
      if decision.1
      then (decision.0, none)
      else ((loss_filter_apply_latency later_s decision.0).0, some (some packet))
