-- ===== src/Svu/Session/Client/Keeps.antt =====
-- The client's tracker stays a valid tracker for the file, whatever the link delivers.
use sat_build.Prelude.{
  ℕ, zero, suc, ◌*◌, ◌<◌, ◌≡◌, refl, sym, ◌∙◌, inl, inr, ◌||◌, Option, none, some, List, [], ◌∷◌,
  ◌++◌, arith, ltb, ◌==◌, Bool-cases, Option-cases, none≢some, if_none-some, length, drop, take_all,
  u32_mod, All,
}
use mathlib.Core.Option.{some-injective}
use mathlib.Core.Path.{subst}
use sat_build.Svu.Tracker.{Tracker, hash_len, nblocks, manifest, accept, new, verify}
use sat_build.Svu.Wire.{Req, max_intervals, data_hdr, get32}
use sat_build.Svu.Tracker.Invariant.{IsValid, accept-eq-some, accept-IsValid, new-IsValid}
use sat_build.Svu.Tracker.Content.{Expects, length-manifest_from}
use sat_build.Svu.Session.{Drain, drain_packet, drain_data, draining}
use sat_build.Svu.Session.Control.{Meta, ctrl_exchange}
use sat_build.Svu.Session.Client.{
  Link, Drained, try_exchange, manifest_only, seed_tracker, first_tracker, is_verified, drain_quiet,
  open_tracker,
}

-- A valid tracker for the file.
pub record Tracks (src : List ℕ) (t : Tracker) : Type 0 where
  pub valid : IsValid t
  pub expects : Expects src t

module _ (src : List ℕ) where
  accept-Tracks :
      (s : Tracker) (off : ℕ) (buf : List ℕ) {t : Tracker}
      → Tracks src s
      → accept s off buf ≡ some t
      → Tracks src t
  accept-Tracks s off buf {t} h e =
      let inv = accept-eq-some s off buf e in
      record {
        valid = accept-IsValid s off buf h.valid e;
        expects = rw inv.1 (record { size = h.expects.size; digests = h.expects.digests });
      }

  drain_packet-Tracks :
      (d : Drain) (pkt : List ℕ) → Tracks src d.recv → Tracks src (drain_packet d pkt).recv
  unfolding drain_packet
  drain_packet-Tracks d pkt h = elim (Bool-cases (ltb data_hdr (length pkt))) [
    | inr short ↦ rw short h
    | inl long ↦ elim (Option-cases (accept d.recv (get32 pkt) (drop data_hdr pkt))) [
      | inl refused ↦ rw (long, refused) h
      | inr (t, took) ↦ rw (long, took) (accept-Tracks d.recv _ _ h took)
    ]
  ]

  drain_data-Tracks :
      (d : Drain) (pkts : List (List ℕ)) → Tracks src d.recv → Tracks src (drain_data d pkts).recv
  unfolding drain_data
  drain_data-Tracks d [] h = h
  drain_data-Tracks d (pkt ∷ pkts) h =
      drain_data-Tracks (drain_packet d pkt) pkts (drain_packet-Tracks d pkt h)

  -- What a round's drains end with: a tracker for the file, and the verdict on it.
  pub record Judged (d : Drained) : Type 0 where
    pub tracks : Tracks src d.recv
    pub status_eq : d.status ≡ (verify d.recv max_intervals).0

  pub drain_quiet-Judged :
      (t : Tracker) (hooked : List (ℕ × List ℕ)) (link : List (List (List ℕ)))
      → Tracks src t
      → Judged (drain_quiet t hooked link)
  unfolding drain_quiet
  drain_quiet-Judged t hooked [] h = record { tracks = h; status_eq = refl }
  drain_quiet-Judged t hooked (pkts ∷ link) h =
      let d = drain_data (draining t) pkts in
      let h' = drain_data-Tracks (draining t) pkts h in
      elim (Bool-cases (is_verified (verify d.recv max_intervals).0 || (d.accepted == 0))) [
        | inl ends ↦ rw ends (record { tracks = h'; status_eq = refl })
        | inr more ↦ rw more (drain_quiet-Judged d.recv (hooked ++ d.hooked) link h')
      ]

  -- An answer of the control connection that describes the file.
  pub record IsMetaOf (m : Meta) : Type 0 where
    pub total_eq : m.total ≡ length src
    pub total_lt : m.total < u32_mod
    pub block_lt : m.block < u32_mod
    pub manifest_eq : m.manifest ≡ manifest src m.total m.block

  abbrev pub Honest : Option (List (List ℕ)) → Type 0
  Honest answer = (m : Meta) → ctrl_exchange answer ≡ some m → IsMetaOf m

  abbrev pub HonestLink : Link → Type 0
  HonestLink l = All Honest l.attempts

  try_nothing : (n : ℕ) (req : Req) → (try_exchange n req []).1 ≡ none
  unfolding try_exchange
  try_nothing zero req = refl
  try_nothing (suc n) req = try_nothing n (manifest_only req)

  pub try-IsMetaOf :
      (n : ℕ) (req : Req) (link : List (Option (List (List ℕ)))) (m : Meta)
      → All Honest link
      → (try_exchange n req link).1 ≡ some m
      → IsMetaOf m
  unfolding try_exchange
  try-IsMetaOf zero req link m h e = absurd (none≢some e)
  try-IsMetaOf (suc n) req [] m h e =
      absurd (none≢some (sym (try_nothing n (manifest_only req)) ∙ e))
  try-IsMetaOf (suc n) req (answer ∷ link) m h e = elim (Option-cases (ctrl_exchange answer)) [
    | inl lost ↦ try-IsMetaOf n (manifest_only req) link m h.1 (rw (lost, try_exchange) at e)
    | inr (m', got) ↦ h.0 m (got ∙ (rw (got, try_exchange) at e))
  ]

  seed_tracker-Tracks :
      (total : ℕ) (t : Tracker) (seed : Option (List ℕ))
      → Tracks src t
      → Tracks src (seed_tracker total t seed)
  unfolding seed_tracker
  seed_tracker-Tracks total t none h = h
  seed_tracker-Tracks total t (some bytes) h = elim (Bool-cases (length bytes == total)) [
    | inr stale ↦ rw stale h
    | inl fits ↦ elim (Option-cases (accept t 0 bytes)) [
      | inl refused ↦ rw (fits, refused) h
      | inr (t', took) ↦ rw (fits, took) (accept-Tracks t 0 bytes h took)
    ]
  ]

  new-Tracks :
      (m : Meta) (t : Tracker)
      → IsMetaOf m
      → new m.total m.block m.manifest m.nblocks ≡ some t
      → Tracks src t
  unfolding new manifest
  new-Tracks m t h e =
      let inv = if_none-some _ _ e in
      record {
        valid = new-IsValid m.total m.block m.nblocks m.manifest h.total_lt h.block_lt size e;
        expects = rw (← inv.1) (record {
          size = sym h.total_eq;
          digests = take_all _ m.manifest (omega (arith, size)) ∙ h.manifest_eq;
        });
      }
    where
      size : length m.manifest ≡ nblocks m.total m.block * hash_len
      size = rw h.manifest_eq (length-manifest_from (nblocks m.total m.block) 0 src m.total m.block)

  first_tracker-Tracks :
      (m : Meta) (seed : Option (List ℕ)) (t : Tracker)
      → IsMetaOf m
      → first_tracker m seed ≡ some t
      → Tracks src t
  unfolding first_tracker
  first_tracker-Tracks m seed t h e =
      elim (Option-cases (new m.total m.block m.manifest m.nblocks)) [
        | inl bad ↦ absurd (none≢some (rw (bad, first_tracker) at e))
        | inr (t', good) ↦
            subst (Tracks src) (some-injective _ _ (rw (good, first_tracker) at e))
              (seed_tracker-Tracks m.total t' seed (new-Tracks m t' h good))
      ]

  abbrev pub RecvTracks : Option Tracker → Type 0
  RecvTracks none = Unit
  RecvTracks (some t) = Tracks src t

  pub open_tracker-Tracks :
      (recv : Option Tracker) (seed : Option (List ℕ)) (m : Meta) (t : Tracker)
      → RecvTracks recv
      → IsMetaOf m
      → (open_tracker recv seed m).0 ≡ some t
      → Tracks src t
  unfolding open_tracker
  open_tracker-Tracks (some t') seed m t r h e = subst (Tracks src) (some-injective _ _ e) r
  open_tracker-Tracks none seed m t r h e = elim (Option-cases (first_tracker m seed)) [
    | inl bad ↦ absurd (none≢some (rw (bad, open_tracker) at e))
    | inr (t', good) ↦
        subst (Tracks src) (some-injective _ _ (rw (good, open_tracker) at e))
          (first_tracker-Tracks m seed t' h good)
  ]
