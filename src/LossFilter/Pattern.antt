-- ===== src/LossFilter/Pattern.antt =====
-- The pattern file of loss_filter.c: `parse_pattern_line`, `load_pattern_file` and
-- `loss_filter_init`.
use sat_build.Prelude.{
  codes, streq, ℕ, Bool, true, false, ◌||◌, Option, none, some, List, [], ◌∷◌, ◌==◌, if◌then◌else◌,
  length, get_or,
}
use sat_build.LossFilter.{
  Doubles, Action, act_up, act_down, act_clear, act_prob, act_latency, act_gilbert, Event, Filter,
}

module _ (D : Doubles) where
  open D use {Real, of_nat, lt, scan_event, scan_one, scan_four}

  -- What `parse_pattern_line` returns: 1, -1, or 0 with an event.
  pub data ParsedLine : Type 0 where
    skipped : ParsedLine
    bad : ParsedLine
    parsed : Event D → ParsedLine

  unfoldable pub skip_blanks : List ℕ → List ℕ
  skip_blanks [] = []
  skip_blanks (c ∷ line) =
      let rest = skip_blanks line in if (c == 32) || (c == 9) then rest else c ∷ line

  -- `memset` and the time.
  abbrev pub event_at : Real → Action → Event D
  event_at t action = record {
    t_offset_s = t;
    action = action;
    p0 = of_nat 0;
    p1 = of_nat 0;
    p2 = of_nat 0;
    p3 = of_nat 0;
  }

  -- Whether a number is refused for its range.
  abbrev pub outside : ℕ → Real → Bool
  outside top p = lt p (of_nat 0) || lt (of_nat top) p

  unfoldable pub parse_prob : Real → Option Real → ParsedLine
  parse_prob t none = bad
  parse_prob t (some prob) =
      if outside 1 prob then bad else parsed (record (event_at t act_prob) { p0 = prob })

  unfoldable pub parse_latency : Real → Option Real → ParsedLine
  parse_latency t none = bad
  parse_latency t (some ms) =
      if outside 60000 ms then bad else parsed (record (event_at t act_latency) { p0 = ms })

  unfoldable pub parse_gilbert : Real → Option (Real × Real × Real × Real) → ParsedLine
  parse_gilbert t none = bad
  parse_gilbert t (some (p_gg, p_bb, drop_g, drop_b)) =
      if outside 1 p_gg || (outside 1 p_bb || (outside 1 drop_g || outside 1 drop_b))
      then bad
      else parsed (record {
        t_offset_s = t;
        action = act_gilbert;
        p0 = p_gg;
        p1 = p_bb;
        p2 = drop_g;
        p3 = drop_b;
      })

  -- The comparisons of the action's name.
  unfoldable pub parse_action : Real → List ℕ → List ℕ → ParsedLine
  parse_action t action_buf rest =
      if streq action_buf (codes "up")
      then parsed (event_at t act_up)
      else if streq action_buf (codes "down")
      then parsed (event_at t act_down)
      else if streq action_buf (codes "clear")
      then parsed (event_at t act_clear)
      else if streq action_buf (codes "prob")
      then parse_prob t (scan_one rest)
      else if streq action_buf (codes "latency")
      then parse_latency t (scan_one rest)
      else if streq action_buf (codes "gilbert")
      then parse_gilbert t (scan_four rest)
      else bad

  -- `parse_pattern_line`
  unfoldable pub parse_pattern_line : List ℕ → ParsedLine
  parse_pattern_line line =
      let start = skip_blanks line in
      let c = get_or start 0 0 in
      if (c == 0) || ((c == 10) || (c == 35)) then skipped else elim (scan_event start) [
        | none ↦ bad
        | some (t, action_buf, rest) ↦ parse_action t action_buf rest
      ]

  -- The two passes over the lines that `fgets` gives; `none` is a line in error.
  unfoldable pub parse_lines : List (List ℕ) → Option (List (Event D))
  parse_lines [] = some []
  parse_lines (line ∷ lines) =
      let rest = parse_lines lines in
      elim (parse_pattern_line line) [
        | bad ↦ none
        | skipped ↦ rest
        | parsed ev ↦ (elim rest [ none ↦ none | some events ↦ some (ev ∷ events) ])
      ]

  -- The test on the times, with the time before.
  unfoldable pub is_monotonic : Real → List (Event D) → Bool
  is_monotonic before [] = true
  is_monotonic before (ev ∷ events) =
      let rest = is_monotonic ev.t_offset_s events in
      if lt ev.t_offset_s before then false else rest

  abbrev pub is_monotonic_from_first : List (Event D) → Bool
  is_monotonic_from_first [] = true
  is_monotonic_from_first (ev ∷ events) = is_monotonic ev.t_offset_s events

  -- `load_pattern_file` on the lines of a file that can be opened.
  unfoldable pub load_pattern_file : Option (List (List ℕ)) → Option (List (Event D))
  load_pattern_file none = none
  load_pattern_file (some lines) = elim (parse_lines lines) [
    | none ↦ none
    | some events ↦ if is_monotonic_from_first events then some events else none
  ]

  -- The seed, as `strtoull` reads it.
  abbrev pub seeded : Option ℕ → ℕ → ℕ
  seeded none rng_state = rng_state
  seeded (some seed) rng_state = if seed == 0 then 1 else seed

  abbrev pub name_or_empty : Option (List ℕ) → List ℕ
  name_or_empty none = []
  name_or_empty (some path) = path

  -- `loss_filter_init`: "LOSS_PATTERN_FILE" with what the file has, and "LOSS_PATTERN_SEED". The
  -- result says whether it is 0. Before, there are no events.
  unfoldable pub loss_filter_init :
      Option (List ℕ) → (List ℕ → Option (List (List ℕ))) → Option ℕ → Filter D → Filter D × Bool
  loss_filter_init path file seed g =
      let named = name_or_empty path in
      if g.initialized
      then (g, true)
      else if length named == 0
      then (record g { initialized = true; enabled = false }, true)
      else elim (load_pattern_file (file named)) [
        | none ↦ (record g { events = [] }, false)
        | some events ↦ (
          record g {
            rng_state = seeded seed g.rng_state;
            events = events;
            initialized = true;
            enabled = true;
            link_up = true;
            drop_prob = of_nat 0;
            current_idx = 0;
          },
          true,
        )
      ]
