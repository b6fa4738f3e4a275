-- ===== src/LossFilter/Tests.antt =====
-- The loss filter's theorems on a pattern of two lines, over natural numbers and "nan" as times.
use sat_build.Prelude.{
  codes, streq, ℕ, ◌+◌, ◌-◌, ◌/◌, ◌^◌, ◌≡◌, refl, Bool, true, false, Option, none, some, List, [],
  ◌∷◌, arith, ltb, leb, ◌==◌, if◌then◌else◌, ltb→le, leb→le, le→leb, length, get_or, drop,
}
use mathlib.Core.Bool.{false≢true}
use sat_build.LossFilter.{Doubles, act_up, act_down, Event, Filter, advance_state_locked}
use sat_build.LossFilter.Pattern.{
  event_at, skip_blanks, parse_action, parse_pattern_line, parse_lines, is_monotonic,
  load_pattern_file, loss_filter_init,
}
use sat_build.LossFilter.Advance.{IsOrdered, count_due, loss_filter_init-advance}
use sat_build.LossFilter.Schedule.{schedule, run_hook-schedule}
use sat_build.LossFilter.Stats.{run_hook, run_hook_lem}

-- `none` is "nan".
abbrev le_real : Option ℕ → Option ℕ → Bool
le_real none b = false
le_real (some a) none = false
le_real (some a) (some b) = leb a b

abbrev lt_real : Option ℕ → Option ℕ → Bool
lt_real none b = false
lt_real (some a) none = false
lt_real (some a) (some b) = ltb a b

-- A line is a digit, or an n for "nan", a blank and a name.
abbrev counts : Doubles
counts = record {
  Real = Option ℕ;
  of_nat = λ n. some n;
  lt = lt_real;
  le = le_real;
  to_u32 = λ x. elim x [ none ↦ 0 | some n ↦ n ];
  over_2_53 = λ n. some (n / 2 ^ 53);
  scan_event = λ line.
      some (if get_or line 0 0 == 110 then none else some (get_or line 0 0 - 48), drop 2 line, []);
  scan_one = λ rest. none;
  scan_four = λ rest. none;
}

le_real_trans : (a b c : Option ℕ) → le_real a b ≡ true → le_real b c ≡ true → le_real a c ≡ true
le_real_trans none b c p q = absurd (false≢true p)
le_real_trans (some a) none c p q = absurd (false≢true p)
le_real_trans (some a) (some b) none p q = absurd (false≢true q)
le_real_trans (some a) (some b) (some c) p q =
    le→leb a c (omega (arith, leb→le a b p, leb→le b c q))

le_real_of_not_lt :
    (a b : Option ℕ)
    → le_real a a ≡ true
    → le_real b b ≡ true
    → lt_real b a ≡ false
    → le_real a b ≡ true
le_real_of_not_lt none b n m p = absurd (false≢true n)
le_real_of_not_lt (some a) none n m p = absurd (false≢true m)
le_real_of_not_lt (some a) (some b) n m p = le→leb a b (ltb→le b a p)

abbrev counts-IsOrdered : IsOrdered counts
counts-IsOrdered = record { le_trans = le_real_trans; le_of_not_lt = le_real_of_not_lt }

abbrev off : Filter counts
off = record {
  initialized = false;
  enabled = false;
  events = [];
  link_up = true;
  drop_prob = some 0;
  current_idx = 0;
  latency_ms = 0;
  gilbert_active = false;
  gilbert_in_bad = false;
  gilbert_p_gg = some 0;
  gilbert_p_bb = some 0;
  gilbert_drop_g = some 0;
  gilbert_drop_b = some 0;
  packets_seen = 0;
  packets_dropped = 0;
  rng_state = 0x12345678;
}

abbrev pattern_file : List ℕ → Option (List (List ℕ))
pattern_file path = some (codes "1 down" ∷ codes "# up again" ∷ codes "3 up" ∷ [])

abbrev loaded : Option (List (Event counts))
loaded = load_pattern_file counts (pattern_file (codes "p"))

abbrev two_events : List (Event counts)
two_events = event_at counts (some 1) act_down ∷ event_at counts (some 3) act_up ∷ []

pattern_loads : loaded ≡ some two_events
unfolding load_pattern_file parse_lines parse_pattern_line parse_action skip_blanks is_monotonic
    streq
pattern_loads = refl

abbrev on : Filter counts
on = record off { initialized = true; enabled = true; events = two_events }

loss_filter_init-advance_example :
    let started = loss_filter_init counts (some (codes "p")) pattern_file none off in
    (started.1 ≡ true)
    × ((advance_state_locked counts (some 2) started.0).current_idx
        ≡ count_due counts counts-IsOrdered (some 2) two_events)
loss_filter_init-advance_example =
    loss_filter_init-advance counts counts-IsOrdered (codes "p") pattern_file none off two_events
      (some 2) (omega arith) refl pattern_loads (refl, (refl, tt))

-- A packet before the link goes down, one while it is, and one after.
abbrev traffic : List (Option ℕ × Option ℕ × ℕ)
traffic = (some 0, some 0, 10) ∷ (some 2, some 2, 20) ∷ (some 4, some 4, 30) ∷ []

run_hook_lem_example :
    let r = run_hook counts traffic on in
    (r.0.packets_seen ≡ 3) × (r.0.packets_dropped + length r.1 ≡ 3)
run_hook_lem_example = run_hook_lem counts traffic on refl refl (omega arith) (omega arith)

run_hook-schedule_example :
    schedule counts counts-IsOrdered
      (advance_state_locked counts (some 5) (run_hook counts traffic on).0)
    ≡ schedule counts counts-IsOrdered (advance_state_locked counts (some 5) on)
run_hook-schedule_example =
    run_hook-schedule counts counts-IsOrdered traffic (some 5) on
      ((refl, refl), ((refl, refl), ((refl, refl), tt)))
