-- ===== src/Svu/Transfer/Keeps.antt =====
-- The sidecar over a whole pass: it follows the tracker from round to round.
use sat_build.Prelude.{
  ℕ, zero, suc, ◌<◌, ◌≡◌, refl, inl, inr, true, ◌||◌, Option, none, some, List, [], ◌∷◌, ◌++◌, ◌==◌,
  Bool-cases, Option-cases, none≢some, length, u32_mod, All,
}
use mathlib.Core.Path.{subst}
use mathlib.Core.Option.{some-injective}
use sat_build.Svu.Wire.{Req, max_intervals}
use sat_build.Svu.Tracker.{Tracker, verify}
use sat_build.Svu.Session.{drain_data, draining}
use sat_build.Svu.Session.Control.{Meta}
use sat_build.Svu.Session.Client.{
  HookCall, complete, Link, Drained, Client, verified, failed, Turn, stop, next, fragments,
  round_request, first_tracker, is_verified, drain_quiet, open_tracker, next_client, head_link,
  tail_link, end_round, receive, answered, round, rounds,
}
use sat_build.Svu.Session.Client.Keeps.{IsMetaOf, HonestLink, try-IsMetaOf}
use sat_build.Svu.Session.Client.Sound.{head_link-Honest, tail_link-Honest, Turn-cases}
use sat_build.Svu.Sidecar.{
  Sidecar, start_pass, sidecar_restore, sidecar_data, sidecar_complete, save_all,
}
use sat_build.Svu.Sidecar.Mirror.{Mirrors, drain_data-Mirrors}
use sat_build.Svu.Sidecar.Resume.{start-Mirrors}
use sat_build.Svu.Transfer.{call_hook, call_hooks}

call_hooks-append :
    (sc : Sidecar) (xs ys : List HookCall)
    → call_hooks sc (xs ++ ys) ≡ call_hooks (call_hooks sc xs) ys
unfolding call_hooks
call_hooks-append sc [] ys = refl
call_hooks-append sc (x ∷ xs) ys = call_hooks-append (call_hook sc x) xs ys

call_hooks-fragments :
    (sc : Sidecar) (l : List (ℕ × List ℕ)) → call_hooks sc (fragments l) ≡ save_all sc l
unfolding call_hooks call_hook fragments save_all
call_hooks-fragments sc [] = refl
call_hooks-fragments sc ((off, buf) ∷ l) =
    call_hooks-fragments (sidecar_data (length buf) sc off buf) l

save_all-append :
    (sc : Sidecar) (xs ys : List (ℕ × List ℕ))
    → save_all sc (xs ++ ys) ≡ save_all (save_all sc xs) ys
unfolding save_all
save_all-append sc [] ys = refl
save_all-append sc ((off, buf) ∷ xs) ys =
    save_all-append (sidecar_data (length buf) sc off buf) xs ys

drain_quiet-Mirrors :
    (sc : Sidecar) (t : Tracker) (hooked : List (ℕ × List ℕ)) (link : List (List (List ℕ)))
    → Mirrors (save_all sc hooked) t
    → Mirrors (save_all sc (drain_quiet t hooked link).hooked) (drain_quiet t hooked link).recv
unfolding drain_quiet
drain_quiet-Mirrors sc t hooked [] h = h
drain_quiet-Mirrors sc t hooked (pkts ∷ link) h =
    let d = drain_data (draining t) pkts in
    let h' : Mirrors (save_all sc (hooked ++ d.hooked)) d.recv =
      rw (save_all-append sc hooked d.hooked)
        (drain_data-Mirrors (save_all sc hooked) (draining t) pkts (unfold save_all in h)) in
    elim (Bool-cases (is_verified (verify d.recv max_intervals).0 || (d.accepted == 0))) [
      | inl ends ↦ rw ends h'
      | inr more ↦ rw more (drain_quiet-Mirrors sc d.recv (hooked ++ d.hooked) link h')
    ]

module _ (src : List ℕ) (disk : Option (List ℕ)) where
  abbrev pub restore : Sidecar × Option (List ℕ)
  restore = sidecar_restore true true (start_pass disk)

  -- The sidecar at any point of the transfer loop.
  abbrev pub FollowsFrom : Option Tracker → Option (List ℕ) → List HookCall → Type 0
  FollowsFrom none seed hooked = (hooked ≡ []) × (seed ≡ restore.1)
  FollowsFrom (some t) seed hooked = Mirrors (call_hooks restore.0 hooked) t

  abbrev pub Follows : Client → Type 0
  Follows c = FollowsFrom c.recv c.seed c.hooked

  -- The end of a round: a verified file leaves no sidecar.
  abbrev pub TurnFollows : Turn → Type 0
  TurnFollows (stop (verified payload file) c) = (call_hooks restore.0 c.hooked).disk ≡ none
  TurnFollows (stop failed c) = Follows c
  TurnFollows (next c) = Follows c

  end_round-Follows :
      (outfile : Option ℕ) (c : Client) (d : Drained) (t : Tracker)
      → c.recv ≡ some t
      → Mirrors (call_hooks restore.0 c.hooked) t
      → TurnFollows (end_round outfile c d)
  unfolding end_round
  end_round-Follows outfile c d t e m = elim (Bool-cases (is_verified d.status)) [
    | inr again ↦ rw (again, e) m
    | inl done ↦ elim (Option-cases outfile) [
      | inl shut ↦ rw (done, shut, e) m
      | inr (stored, opens) ↦
          rw (done, opens, call_hooks-append restore.0 c.hooked (complete ∷ []))
            (unfold call_hooks call_hook sidecar_complete in rw m.named refl)
    ]
  ]

  receive-Follows :
      (outfile : Option ℕ) (c : Client) (sent : List Req) (drains : List (List (List ℕ)))
      (opened : Option Tracker × List HookCall)
      → Follows c
      → ((t : Tracker)
          → opened.0 ≡ some t
          → Mirrors (call_hooks (call_hooks restore.0 c.hooked) opened.1) t)
      → TurnFollows (receive outfile c sent drains opened)
  unfolding receive next_client
  receive-Follows outfile c sent drains (none, calls) f h = f
  receive-Follows outfile c sent drains (some t, calls) f h =
      let d = drain_quiet t [] drains in
      let start = call_hooks (call_hooks restore.0 c.hooked) calls in
      end_round-Follows outfile _ d d.recv refl (
        rw
          (
            call_hooks-append restore.0 c.hooked (calls ++ fragments d.hooked),
            call_hooks-append (call_hooks restore.0 c.hooked) calls (fragments d.hooked),
            call_hooks-fragments start d.hooked,
          )
          (drain_quiet-Mirrors start t [] drains (unfold save_all in h t refl)))

  open_tracker-Mirrors :
      (recv : Option Tracker) (seed : Option (List ℕ)) (hooked : List HookCall) (m : Meta)
      (t : Tracker)
      → FollowsFrom recv seed hooked
      → m.total < u32_mod
      → (open_tracker recv seed m).0 ≡ some t
      → Mirrors (call_hooks (call_hooks restore.0 hooked) (open_tracker recv seed m).1) t
  unfolding open_tracker call_hooks call_hook
  open_tracker-Mirrors (some t') seed hooked m t f small e =
      subst (Mirrors (call_hooks restore.0 hooked)) (some-injective _ _ e) f
  open_tracker-Mirrors none seed hooked m t f small e = elim (Option-cases (first_tracker m seed)) [
    | inl bad ↦ absurd (none≢some (rw (bad, open_tracker) at e))
    | inr (t', good) ↦
        rw (good, open_tracker, f.0)
          (subst (Mirrors _) (some-injective _ _ (rw (good, open_tracker) at e))
            (start-Mirrors disk m small (rw (← f.1) good)))
  ]

  answered-Follows :
      (outfile : Option ℕ) (c : Client) (drains : List (List (List ℕ)))
      (answer : List Req × Option Meta)
      → Follows c
      → ((m : Meta) → answer.1 ≡ some m → IsMetaOf src m)
      → TurnFollows (answered outfile c drains answer)
  unfolding answered
  answered-Follows outfile c drains (sent, none) f h = f
  answered-Follows outfile c drains (sent, some m) f h =
      receive-Follows outfile c sent drains (open_tracker c.recv c.seed m) f
        (λ t e. open_tracker-Mirrors c.recv c.seed c.hooked m t f (h m refl).total_lt e)

  round-Follows :
      (outfile : Option ℕ) (mtu block_size : ℕ) (c : Client) (link : Link)
      → Follows c
      → HonestLink src link
      → TurnFollows (round outfile mtu block_size c link)
  unfolding round
  round-Follows outfile mtu block_size c link f h =
      answered-Follows outfile c link.drains _ f
        (λ m e. try-IsMetaOf src 8 (round_request mtu block_size c.nreq c.ivs) link.attempts m h e)

  pub rounds-Follows :
      (outfile : Option ℕ) (n mtu block_size : ℕ) (c : Client) (links : List Link)
      → Follows c
      → All (HonestLink src) links
      → (let end = rounds outfile n mtu block_size c links in TurnFollows (stop end.0 end.1))
  unfolding rounds
  rounds-Follows outfile zero mtu block_size c links f h = f
  rounds-Follows outfile (suc n) mtu block_size c links f h =
      let follows =
        round-Follows outfile mtu block_size c (head_link links) f (head_link-Honest src links h) in
      elim (Turn-cases src (round outfile mtu block_size c (head_link links))) [
        | inl (outcome, c', stops) ↦ rw (stops, rounds) (rw stops at follows)
        | inr (c', goes_on) ↦
            rw (goes_on, rounds)
              (rounds-Follows outfile n mtu block_size c' (tail_link links) (rw goes_on at follows)
                (tail_link-Honest src links h))
      ]
