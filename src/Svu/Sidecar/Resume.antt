-- ===== src/Svu/Sidecar/Resume.antt =====
-- A pass from its start to its end, whenever it ends: what the next pass restores.
use sat_build.Prelude.{
  zeros, get_or-zeros, length-pwrite, get_or-pwrite_in, get_or-pwrite_out, pwrite, ℕ, ◌+◌, ◌-◌, ◌<◌,
  ◌≡◌, refl, sym, ap, ◌∙◌, ◌≢◌, inl, inr, true, ◌||◌, not, Option, none, some, List, [], arith,
  ◌==◌, ne→==, ==_iff, ==_refl, Bool-cases, none≢some, length, get_or, drop, write_at,
  length-replicate, length-write_at, get_or-write_at_in, eq_of_get_or, u32_mod,
}
use mathlib.Core.Path.{subst}
use mathlib.Core.Option.{some-injective}
use sat_build.Svu.Tracker.{Tracker, nblocks, initial, new, accepted, accept}
use sat_build.Svu.Tracker.Blocks.{args_pos_of_nblocks_pos}
use sat_build.Svu.Tracker.Invariant.{accept_fits}
use sat_build.Svu.Session.{drain_data, draining}
use sat_build.Svu.Session.Control.{Meta}
use sat_build.Svu.Session.Client.{seed_tracker, first_tracker}
use sat_build.Svu.Sidecar.{
  Sidecar, sidecar_hdr, sidecar_get32, header, header_ok, restored, start_pass,
  sidecar_write_header, sidecar_restore, put_header, sidecar_meta, save_all,
}
use sat_build.Svu.Sidecar.Mirror.{
  Holds, Mirrors, get_or-restored, length-restored, restore_of_Mirrors, drain_data-Mirrors,
}

-- A header written over a file whose bytes behind it are those of the payload.
header-Holds :
    (file : List ℕ) (total block : ℕ) (payload : List ℕ)
    → ((i : ℕ) → i < total → get_or file (sidecar_hdr + i) 0 ≡ get_or payload i 0)
    → Holds (pwrite file 0 (header total block)) total block payload
header-Holds file total block payload h = record {
  long = omega (arith, length-pwrite file 0 (header total block));
  head = λ j p.
      get_or-pwrite_in file 0 (header total block) j (omega arith) (omega arith)
      ∙ ap (λ k. get_or (header total block) k 0) (let e : j - 0 ≡ j = omega arith in e);
  body = λ i p.
      get_or-pwrite_out file 0 (header total block) (sidecar_hdr + i) (inr (omega arith)) ∙ h i p;
}

-- The tracker of a first answer: what `ci_svu_new` sets up, fed with the seed.
first_tracker-eq-some :
    (m : Meta) (seed : Option (List ℕ)) {t : Tracker}
    → first_tracker m seed ≡ some t
    → (0 < m.total) × (seed_tracker m.total (initial m.total m.block m.manifest) seed ≡ t)
unfolding first_tracker new
first_tracker-eq-some m seed {t} e =
    let refused = (nblocks m.total m.block == 0) || not (nblocks m.total m.block == m.nblocks) in
    elim (Bool-cases refused) [
      | inl bad ↦ absurd (none≢some (rw (bad, first_tracker, new) at e))
      | inr good ↦ (
        (args_pos_of_nblocks_pos m.total m.block (ground arith)).0,
        some-injective _ _ (rw (good, first_tracker, new) at e),
      )
    ]

-- The sidecar behind the header, over a file `base`.
abbrev begun : Meta → List ℕ → Sidecar
begun m base = record {
  disk = some (pwrite base 0 (header m.total m.block));
  fd = true;
  total = m.total;
  path = true;
}

-- The sidecar of a transfer that starts with nothing.
fresh-Mirrors :
    (m : Meta)
    → 0 < m.total
    → m.total < u32_mod
    → Mirrors (begun m []) (initial m.total m.block m.manifest)
fresh-Mirrors m pos small = record {
  opened = refl;
  named = refl;
  total_eq = refl;
  total_pos = pos;
  total_lt = small;
  size = length-replicate {A = ℕ} m.total 0;
  file = pwrite [] 0 (header m.total m.block);
  stored = refl;
  holds = header-Holds [] m.total m.block (zeros m.total) (λ i p. sym (get_or-zeros m.total i));
}

-- The sidecar of a transfer that starts with the bytes of `file`.
seeded-Mirrors :
    (m : Meta) (file : List ℕ)
    → 0 < m.total
    → m.total < u32_mod
    → Mirrors
        (begun m file)
        (accepted (initial m.total m.block m.manifest) 0 (restored m.total file))
seeded-Mirrors m file pos small = record {
  opened = refl;
  named = refl;
  total_eq = refl;
  total_pos = pos;
  total_lt = small;
  size = length-write_at (zeros m.total) 0 (restored m.total file) ∙ room;
  file = pwrite file 0 (header m.total m.block);
  stored = refl;
  holds = header-Holds file m.total m.block _ (λ i p. sym (
      get_or-write_at_in (zeros m.total) 0 (restored m.total file) i 0 (omega (arith, size, room))
        (omega arith) (omega (arith, size))
      ∙ ap (λ k. get_or (restored m.total file) k 0) (let e : i - 0 ≡ i = omega arith in e)
      ∙ get_or-restored m.total file i p));
}
  where
    size : length (restored m.total file) ≡ m.total
    size = length-restored m.total file

    room : length (zeros m.total) ≡ m.total
    room = length-replicate {A = ℕ} m.total 0

seed_tracker_takes :
    (total : ℕ) (t : Tracker) (bytes : List ℕ) (t' : Tracker)
    → length bytes ≡ total
    → accept t 0 bytes ≡ some t'
    → seed_tracker total t (some bytes) ≡ t'
unfolding seed_tracker
seed_tracker_takes total t bytes t' e took = rw (e, ==_refl total, took) refl

seed_tracker_fits :
    (m : Meta) (file : List ℕ)
    → seed_tracker m.total (initial m.total m.block m.manifest) (some (restored m.total file))
      ≡ accepted (initial m.total m.block m.manifest) 0 (restored m.total file)
seed_tracker_fits m file =
    seed_tracker_takes m.total _ (restored m.total file) _ (length-restored m.total file) (
      accept_fits (initial m.total m.block m.manifest) 0 (restored m.total file)
        (omega (arith, length-restored m.total file)))

seed_tracker_stale :
    (total : ℕ) (t : Tracker) (n : ℕ) (file : List ℕ)
    → n ≢ total
    → seed_tracker total t (some (restored n file)) ≡ t
unfolding seed_tracker
seed_tracker_stale total t n file d = rw (length-restored n file, ne→== n total d) refl

-- A file that is restored, of the transfer's size.
resumed_fits :
    (m : Meta) (file : List ℕ) {t : Tracker}
    → m.total < u32_mod
    → first_tracker m (some (restored m.total file)) ≡ some t
    → Mirrors
        (sidecar_meta true true sidecar_hdr
          (record { disk = some file; fd = true; total = m.total; path = true })
          m.total
          m.block)
        t
unfolding sidecar_meta put_header sidecar_write_header
resumed_fits m file {t} small e =
    let first = first_tracker-eq-some m (some (restored m.total file)) e in
    subst (Mirrors _) (sym (seed_tracker_fits m file) ∙ first.1)
      (rw (==_refl m.total) (seeded-Mirrors m file first.0 small))

-- A file that is restored: whether its size is that of the transfer or not.
resumed-Mirrors :
    (m : Meta) (file : List ℕ) (n : ℕ) {t : Tracker}
    → m.total < u32_mod
    → first_tracker m (some (restored n file)) ≡ some t
    → Mirrors
        (sidecar_meta true true sidecar_hdr
          (record { disk = some file; fd = true; total = n; path = true })
          m.total
          m.block)
        t
unfolding sidecar_meta put_header sidecar_write_header
resumed-Mirrors m file n {t} small e = elim (Bool-cases (n == m.total)) [
  | inl same ↦
      subst
        (λ k.
          first_tracker m (some (restored k file)) ≡ some t
          → Mirrors
              (sidecar_meta true true sidecar_hdr
                (record { disk = some file; fd = true; total = k; path = true }) m.total m.block)
              t)
        (sym ((==_iff n m.total).0 same)) (resumed_fits m file small) e
  | inr stale ↦
      let first = first_tracker-eq-some m (some (restored n file)) e in
      subst (Mirrors _)
        (sym (seed_tracker_stale m.total _ n file (λ q. cc (stale, (==_iff n m.total).1 q)))
          ∙ first.1)
        (rw stale (fresh-Mirrors m first.0 small))
]

-- Whatever the disk holds at the start of a pass, the sidecar follows the first tracker.
pub start-Mirrors :
    (disk : Option (List ℕ)) (m : Meta) {t : Tracker}
    → m.total < u32_mod
    → first_tracker m (sidecar_restore true true (start_pass disk)).1 ≡ some t
    → Mirrors
        (sidecar_meta true true sidecar_hdr
          (sidecar_restore true true (start_pass disk)).0
          m.total
          m.block)
        t
unfolding sidecar_restore sidecar_meta put_header sidecar_write_header seed_tracker
start-Mirrors none m {t} small e =
    let first = first_tracker-eq-some m none e in
    subst (Mirrors _) first.1 (fresh-Mirrors m first.0 small)
start-Mirrors (some file) m {t} small e = elim (Bool-cases (header_ok file)) [
  | inl good ↦ rw good (resumed-Mirrors m file (sidecar_get32 (drop 8 file)) small (rw good at e))
  | inr bad ↦
      let first = first_tracker-eq-some m none (rw bad at e) in
      rw bad (subst (Mirrors _) first.1 (fresh-Mirrors m first.0 small))
]

-- The sidecar of a pass: restored from the disk, given the transfer's shape, and then each
-- fragment that `drain_data` accepts.
abbrev pub pass_sidecar : Option (List ℕ) → Meta → Tracker → List (List ℕ) → Sidecar
pass_sidecar disk m t pkts =
    save_all
      (sidecar_meta true true sidecar_hdr (sidecar_restore true true (start_pass disk)).0 m.total
        m.block)
      (drain_data (draining t) pkts).hooked

pass-Mirrors :
    (disk : Option (List ℕ)) (m : Meta) (pkts : List (List ℕ)) {t : Tracker}
    → m.total < u32_mod
    → first_tracker m (sidecar_restore true true (start_pass disk)).1 ≡ some t
    → Mirrors (pass_sidecar disk m t pkts) (drain_data (draining t) pkts).recv
unfolding save_all
pass-Mirrors disk m pkts {t} small e =
    drain_data-Mirrors _ (draining t) pkts (start-Mirrors disk m small e)

-- A pass that is killed loses nothing: whatever the disk holds at its start, and after whatever
-- packets it ends, the next pass restores exactly the bytes of the reassembly buffer, if the size of
-- the file is below 2 ^ 32 and no system call fails.
pub pass_restores :
    (disk : Option (List ℕ)) (m : Meta) (pkts : List (List ℕ)) {t : Tracker}
    → m.total < u32_mod
    → first_tracker m (sidecar_restore true true (start_pass disk)).1 ≡ some t
    → (sidecar_restore true true (start_pass (pass_sidecar disk m t pkts).disk)).1
      ≡ some (drain_data (draining t) pkts).recv.payload
pass_restores disk m pkts {t} small e =
    restore_of_Mirrors (pass_sidecar disk m t pkts) _ (pass-Mirrors disk m pkts small e)

write_at_all : (base bytes : List ℕ) → length bytes ≡ length base → write_at base 0 bytes ≡ bytes
write_at_all base bytes e =
    eq_of_get_or (write_at base 0 bytes) bytes 0 (length-write_at base 0 bytes ∙ sym e) (λ i p.
      get_or-write_at_in base 0 bytes i 0 (omega (arith, e)) (omega arith)
        (omega (arith, e, length-write_at base 0 bytes))
      ∙ ap (λ k. get_or bytes k 0) (let q : i - 0 ≡ i = omega arith in q))

-- A pass after a killed one goes on where that one ended: if the new manifest is for a file of the
-- same size, the reassembly buffer starts with exactly the bytes that the killed pass had, if no
-- system call fails.
pub pass_resumes :
    (disk : Option (List ℕ)) (m m' : Meta) (pkts : List (List ℕ)) {t t' : Tracker}
    → m.total < u32_mod
    → first_tracker m (sidecar_restore true true (start_pass disk)).1 ≡ some t
    → m'.total ≡ (drain_data (draining t) pkts).recv.total
    → first_tracker m' (sidecar_restore true true (start_pass (pass_sidecar disk m t pkts).disk)).1
      ≡ some t'
    → t'.payload ≡ (drain_data (draining t) pkts).recv.payload
pass_resumes disk m m' pkts {t} {t'} small e same e' =
    let killed = (drain_data (draining t) pkts).recv in
    let mirrors = pass-Mirrors disk m pkts small e in
    let first =
      first_tracker-eq-some m' (some killed.payload)
        (subst (λ o. first_tracker m' o ≡ some t') (pass_restores disk m pkts small e) e') in
    let size : length killed.payload ≡ m'.total = omega (arith, mirrors.size, same) in
    ap (λ u. u.payload)
      (sym first.1
        ∙ seed_tracker_takes m'.total _ killed.payload _ size (
            accept_fits (initial m'.total m'.block m'.manifest) 0 killed.payload
              (omega (arith, size))))
    ∙ write_at_all (zeros m'.total) killed.payload
        (omega (arith, size, length-replicate {A = ℕ} m'.total 0))
