-- ===== src/Svu/Session/Client.antt =====
-- `svu_client_run_hooked` of svu_session.c: rounds of a control exchange, a drain and a verdict.
pub mod Keeps
pub mod Sound
use sat_build.Prelude.{
  ℕ, zero, suc, ◌-◌, Bool, true, false, ◌||◌, Option, none, some, List, [], ◌∷◌, ◌++◌, ltb, ◌==◌,
  if◌then◌else◌, length, set, take, replicate,
}
use sat_build.Svu.Wire.{Interval, Req, zero_interval, max_intervals, magic_req}
use sat_build.Svu.Tracker.{
  Tracker, Status, incomplete, complete_verified, corrupt, Output, new, accept, verify,
}
use sat_build.Svu.Session.{Drain, drain_data, draining}
use sat_build.Svu.Session.Control.{Meta, ctrl_exchange}

-- The calls of the hooks `meta`, `data` and `complete`.
pub data HookCall : Type 0 where
  meta : ℕ → ℕ → HookCall
  fragment : ℕ → List ℕ → HookCall
  complete : HookCall

-- What the link does in one round: for each attempt what the control connection yields, and for
-- each drain the packets before the link is idle.
pub record Link : Type 0 where
  pub attempts : List (Option (List (List ℕ)))
  pub drains : List (List (List ℕ))

-- The request of a round: `memset`, and the first `nreq` intervals.
unfoldable pub round_request : ℕ → ℕ → ℕ → List Interval → Req
round_request mtu block_size nreq ivs = record {
  magic = magic_req;
  session_id = 1;
  mtu = mtu;
  block_size = block_size;
  nof_intervals = nreq;
  client_addr = 0;
  intervals = take nreq ivs ++ replicate (max_intervals - length (take nreq ivs)) zero_interval;
}

-- The request of a retry: one empty interval.
unfoldable pub manifest_only : Req → Req
manifest_only r = record r { nof_intervals = 1; intervals = set r.intervals 0 zero_interval }

-- The attempts of one round, `n` at most: the requests that were sent, and the first answer.
unfoldable pub try_exchange : ℕ → Req → List (Option (List (List ℕ))) → List Req × Option Meta
try_exchange zero req link = ([], none)
try_exchange (suc n) req [] =
    let (sent, m) = try_exchange n (manifest_only req) [] in (req ∷ sent, m)
try_exchange (suc n) req (answer ∷ link) = elim (ctrl_exchange answer) [
  | some m ↦ (req ∷ [], some m)
  | none ↦ let (sent, m) = try_exchange n (manifest_only req) link in (req ∷ sent, m)
]

-- The bytes of a prior pass are fed to the tracker if their length agrees.
unfoldable pub seed_tracker : ℕ → Tracker → Option (List ℕ) → Tracker
seed_tracker total t none = t
seed_tracker total t (some bytes) =
    if length bytes == total then elim (accept t 0 bytes) [ none ↦ t | some t' ↦ t' ] else t

-- The tracker of the first answer.
unfoldable pub first_tracker : Meta → Option (List ℕ) → Option Tracker
first_tracker m seed = elim (new m.total m.block m.manifest m.nblocks) [
  | none ↦ none
  | some t ↦ some (seed_tracker m.total t seed)
]

-- The state behind the drains of a round.
pub record Drained : Type 0 where
  pub recv : Tracker
  pub status : Status
  pub output : Output
  pub hooked : List (ℕ × List ℕ)

abbrev pub is_verified : Status → Bool
is_verified incomplete = false
is_verified complete_verified = true
is_verified corrupt = false

-- Drain and verify until the payload is verified or a drain accepted nothing.
unfoldable pub drain_quiet : Tracker → List (ℕ × List ℕ) → List (List (List ℕ)) → Drained
drain_quiet t hooked [] =
    let verdict = verify t max_intervals in
    record { recv = t; status = verdict.0; output = verdict.1; hooked = hooked }
drain_quiet t hooked (pkts ∷ link) =
    let d = drain_data (draining t) pkts in
    let verdict = verify d.recv max_intervals in
    let all_hooked = hooked ++ d.hooked in
    let rest = drain_quiet d.recv all_hooked link in
    if is_verified verdict.0 || (d.accepted == 0)
    then record { recv = d.recv; status = verdict.0; output = verdict.1; hooked = all_hooked }
    else rest

-- The variables of the transfer loop; `recv` is empty before the first answer.
pub record Client : Type 0 where
  pub recv : Option Tracker
  pub seed : Option (List ℕ)
  pub nreq : ℕ
  pub ivs : List Interval
  pub sent : List Req
  pub hooked : List HookCall

-- How the transfer ends: the verified buffer and what of it is in `outfile`, or -1.
pub data Outcome : Type 0 where
  verified : List ℕ → List ℕ → Outcome
  failed : Outcome

unfoldable pub fragments : List (ℕ × List ℕ) → List HookCall
fragments [] = []
fragments ((off, bytes) ∷ l) = fragment off bytes ∷ fragments l

-- The tracker of a round, and the calls of `meta`.
unfoldable pub open_tracker :
    Option Tracker → Option (List ℕ) → Meta → Option Tracker × List HookCall
open_tracker (some t) seed m = (some t, [])
open_tracker none seed m = elim (first_tracker m seed) [
  | none ↦ (none, [])
  | some t ↦ (some t, meta m.total m.block ∷ [])
]

-- The client behind a round that is not verified.
unfoldable pub next_client : Client → List Req → List HookCall → Drained → Client
unfolding fragments
next_client c sent opened d = record {
  recv = some d.recv;
  seed = none;
  nreq = if ltb d.output.count max_intervals then d.output.count else max_intervals;
  ivs = d.output.out;
  sent = c.sent ++ sent;
  hooked = c.hooked ++ (opened ++ fragments d.hooked);
}

-- A link that yields nothing any more.
abbrev pub silent : Link
silent = record { attempts = []; drains = [] }

abbrev pub head_link : List Link → Link
head_link [] = silent
head_link (l ∷ ls) = l

abbrev pub tail_link : List Link → List Link
tail_link [] = []
tail_link (l ∷ ls) = ls

-- How a round ends: with the transfer's end, or with the next round.
pub data Turn : Type 0 where
  stop : Outcome → Client → Turn
  next : Client → Turn

-- The end of a round; `outfile` is `none` where it cannot be opened, and else how many bytes of
-- the buffer the unchecked `fwrite` and `fclose` store.
unfoldable pub end_round : Option ℕ → Client → Drained → Turn
end_round outfile c d =
    if is_verified d.status
    then (elim outfile [
      | none ↦ stop failed c
      | some stored ↦
          stop (verified d.recv.payload (take stored d.recv.payload))
            (record c { hooked = c.hooked ++ complete ∷ [] })
    ])
    else next c

-- The part of a round behind the control exchange, and behind the set-up of the tracker.
unfoldable pub receive :
    Option ℕ → Client → List Req → List (List (List ℕ)) → Option Tracker × List HookCall → Turn
receive outfile c sent drains (none, opened) = stop failed (record c { sent = c.sent ++ sent })
receive outfile c sent drains (some t, opened) =
    let d = drain_quiet t [] drains in end_round outfile (next_client c sent opened d) d

unfoldable pub answered : Option ℕ → Client → List (List (List ℕ)) → List Req × Option Meta → Turn
answered outfile c drains (sent, none) = stop failed (record c { sent = c.sent ++ sent })
answered outfile c drains (sent, some m) =
    receive outfile c sent drains (open_tracker c.recv c.seed m)

-- One round: at most 8 attempts at the control exchange, then the drains.
unfoldable pub round : Option ℕ → ℕ → ℕ → Client → Link → Turn
round outfile mtu block_size c link =
    answered outfile c link.drains
      (try_exchange 8 (round_request mtu block_size c.nreq c.ivs) link.attempts)

-- `while (round < max_rounds)`, with the rounds that are left.
unfoldable pub rounds : Option ℕ → ℕ → ℕ → ℕ → Client → List Link → Outcome × Client
rounds outfile zero mtu block_size c links = (failed, c)
rounds outfile (suc n) mtu block_size c links =
    elim (round outfile mtu block_size c (head_link links)) [
      | stop outcome c' ↦ (outcome, c')
      | next c' ↦ rounds outfile n mtu block_size c' (tail_link links)
    ]

abbrev pub start_client : Option (List ℕ) → Client
start_client seed = record {
  recv = none;
  seed = seed;
  nreq = elim seed [ none ↦ 0 | some _ ↦ 1 ];
  ivs = elim seed [ none ↦ [] | some _ ↦ zero_interval ∷ [] ];
  sent = [];
  hooked = [];
}

-- `svu_client_run_hooked`: a prior pass's bytes make the first request manifest-only.
unfoldable pub client_run : Option ℕ → ℕ → ℕ → ℕ → Option (List ℕ) → List Link → Outcome × Client
client_run outfile block_size mtu max_rounds seed links =
    rounds outfile max_rounds mtu block_size (start_client seed) links
