-- ===== src/Svu/Session/Client/Sound.antt =====
-- Whatever the link delivers, what the client writes is the file that the manifest was made from.
use sat_build.Prelude.{
  ℕ, zero, suc, ◌<◌, ◌≡◌, refl, sym, ◌∙◌, ◌⊎◌, inl, inr, true, Option, none, some, List, [], ◌∷◌,
  arith, Bool-cases, Option-cases, length, take, u32_mod, All,
}
use mathlib.Core.Path.{subst}
use sat_build.Svu.Tracker.{Tracker, Status, incomplete, complete_verified, corrupt}
use sat_build.Svu.Wire.{Req, max_intervals}
use sat_build.Svu.Tracker.Content.{Collides, verified-eq-src}
use sat_build.Svu.Session.Control.{Meta}
use sat_build.Svu.Session.Client.{
  HookCall, Link, Drained, Client, Outcome, verified, failed, round_request, is_verified,
  drain_quiet, open_tracker, next_client, head_link, tail_link, Turn, stop, next, end_round,
  receive, answered, round, rounds, start_client, client_run,
}
use sat_build.Svu.Session.Client.Keeps.{
  Tracks, Judged, drain_quiet-Judged, IsMetaOf, HonestLink, try-IsMetaOf, RecvTracks,
  open_tracker-Tracks,
}

module _ (src : List ℕ) where
  -- A verified payload is the file, or two contents of a block have one digest.
  abbrev pub IsFile : List ℕ → Type 0
  IsFile payload =
      (payload ≡ src) ⊎ ((block : ℕ) × (b : ℕ) × Collides payload src (length src) block b)

  -- The verified buffer, and what of it is in `outfile`.
  pub record IsWritten (outfile : Option ℕ) (payload file : List ℕ) : Type 0 where
    pub is_file : IsFile payload
    pub size : length payload ≡ length src
    pub small : length src < u32_mod
    pub stored : ℕ
    pub opens : outfile ≡ some stored
    pub cut : file ≡ take stored payload

  abbrev TurnIsFile : Option ℕ → Turn → Type 0
  TurnIsFile outfile (stop (verified payload file) c) = IsWritten outfile payload file
  TurnIsFile outfile (stop failed c) = Unit
  TurnIsFile outfile (next c) = RecvTracks src c.recv

  verified_of_is_verified : (st : Status) → is_verified st ≡ true → st ≡ complete_verified
  verified_of_is_verified incomplete e = cc
  verified_of_is_verified complete_verified e = refl
  verified_of_is_verified corrupt e = cc

  Judged-IsFile : (d : Drained) → Judged src d → is_verified d.status ≡ true → IsFile d.recv.payload
  Judged-IsFile d j e =
      elim (verified-eq-src d.recv src j.tracks.valid j.tracks.expects max_intervals
        (sym j.status_eq ∙ verified_of_is_verified d.status e)) [
          | inl same ↦ inl same
          | inr (b, _, clash) ↦ inr (d.recv.block, b, rw j.tracks.expects.size clash)
        ]

  end_round-IsFile :
      (outfile : Option ℕ) (c : Client) (d : Drained)
      → Judged src d
      → RecvTracks src c.recv
      → TurnIsFile outfile (end_round outfile c d)
  unfolding end_round
  end_round-IsFile outfile c d j r = elim (Bool-cases (is_verified d.status)) [
    | inr again ↦ rw again r
    | inl done ↦ elim (Option-cases outfile) [
      | inl shut ↦ rw (done, shut) tt
      | inr (stored, opens) ↦
          rw (done, opens)
            (record {
              is_file = Judged-IsFile d j done;
              size = j.tracks.valid.payload_size ∙ sym j.tracks.expects.size;
              small = omega (arith, j.tracks.valid.total_lt, j.tracks.expects.size);
              stored = stored;
              opens = refl;
              cut = refl;
            })
    ]
  ]

  receive-IsFile :
      (outfile : Option ℕ) (c : Client) (sent : List Req) (drains : List (List (List ℕ)))
      (opened : Option Tracker × List HookCall)
      → ((t : Tracker) → opened.0 ≡ some t → Tracks src t)
      → TurnIsFile outfile (receive outfile c sent drains opened)
  unfolding receive next_client
  receive-IsFile outfile c sent drains (none, calls) h = tt
  receive-IsFile outfile c sent drains (some t, calls) h =
      let j = drain_quiet-Judged src t [] drains (h t refl) in
      end_round-IsFile outfile _ (drain_quiet t [] drains) j j.tracks

  answered-IsFile :
      (outfile : Option ℕ) (c : Client) (drains : List (List (List ℕ)))
      (answer : List Req × Option Meta)
      → RecvTracks src c.recv
      → ((m : Meta) → answer.1 ≡ some m → IsMetaOf src m)
      → TurnIsFile outfile (answered outfile c drains answer)
  unfolding answered
  answered-IsFile outfile c drains (sent, none) r h = tt
  answered-IsFile outfile c drains (sent, some m) r h =
      receive-IsFile outfile c sent drains (open_tracker c.recv c.seed m)
        (λ t e. open_tracker-Tracks src c.recv c.seed m t r (h m refl) e)

  round-IsFile :
      (outfile : Option ℕ) (mtu block_size : ℕ) (c : Client) (link : Link)
      → RecvTracks src c.recv
      → HonestLink src link
      → TurnIsFile outfile (round outfile mtu block_size c link)
  unfolding round
  round-IsFile outfile mtu block_size c link r h =
      answered-IsFile outfile c link.drains _ r
        (λ m e. try-IsMetaOf src 8 (round_request mtu block_size c.nreq c.ivs) link.attempts m h e)

  pub head_link-Honest :
      (links : List Link) → All (HonestLink src) links → HonestLink src (head_link links)
  head_link-Honest [] h = tt
  head_link-Honest (l ∷ ls) h = h.0

  pub tail_link-Honest :
      (links : List Link) → All (HonestLink src) links → All (HonestLink src) (tail_link links)
  tail_link-Honest [] h = tt
  tail_link-Honest (l ∷ ls) h = h.1

  pub Turn-cases :
      (t : Turn)
      → ((outcome : Outcome) × (c : Client) × (t ≡ stop outcome c)) ⊎ ((c : Client) × (t ≡ next c))
  Turn-cases (stop outcome c) = inl (outcome, c, refl)
  Turn-cases (next c) = inr (c, refl)

  rounds-IsFile :
      (outfile : Option ℕ) (n mtu block_size : ℕ) (c : Client) (links : List Link)
      (payload file : List ℕ)
      → RecvTracks src c.recv
      → All (HonestLink src) links
      → (rounds outfile n mtu block_size c links).0 ≡ verified payload file
      → IsWritten outfile payload file
  unfolding rounds
  rounds-IsFile outfile zero mtu block_size c links payload file r h e = cc
  rounds-IsFile outfile (suc n) mtu block_size c links payload file r h e =
      let turn = round outfile mtu block_size c (head_link links) in
      let sound =
        round-IsFile outfile mtu block_size c (head_link links) r (head_link-Honest links h) in
      elim (Turn-cases turn) [
        | inl (outcome, c', stops) ↦
            subst (λ o. TurnIsFile outfile (stop o c')) (rw (stops, rounds) at e)
              (rw stops at sound)
        | inr (c', goes_on) ↦
            rounds-IsFile outfile n mtu block_size c' (tail_link links) payload file
              (rw goes_on at sound) (tail_link-Honest links h) (rw (goes_on, rounds) at e)
      ]

  -- If every answer of the control connection that the client reads describes the file, the
  -- buffer that a verified client hands to `fwrite` has the file's size and is the file, or shows a
  -- block with two contents of one digest, and `outfile` has what `fwrite` stores of it: whatever
  -- packets arrive, in any order, and whatever a prior pass left.
  pub client_run-IsFile :
      (outfile : Option ℕ) (block_size mtu max_rounds : ℕ) (seed : Option (List ℕ))
      (links : List Link) (payload file : List ℕ)
      → All (HonestLink src) links
      → (client_run outfile block_size mtu max_rounds seed links).0 ≡ verified payload file
      → IsWritten outfile payload file
  unfolding client_run
  client_run-IsFile outfile block_size mtu max_rounds seed links payload file h e =
      rounds-IsFile outfile max_rounds mtu block_size (start_client seed) links payload file tt h e
