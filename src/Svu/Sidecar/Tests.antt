-- ===== src/Svu/Sidecar/Tests.antt =====
-- A pass that is killed behind one packet, and the pass that follows it.
use sat_build.Prelude.{pwrite, ℕ, ◌≡◌, refl, true, Option, some, List, [], ◌∷◌, arith, replicate}
use sat_build.Svu.Wire.{get32}
use sat_build.Svu.Tracker.{Tracker, nblocks, initial, new, cover_byte, cover, accept}
use sat_build.Svu.Session.{drain_packet, drain_data, draining}
use sat_build.Svu.Session.Control.{Meta}
use sat_build.Svu.Session.Client.{seed_tracker, first_tracker}
use sat_build.Svu.Sidecar.{
  header_ok, restored, start_pass, sidecar_write_header, sidecar_restore, put_header, sidecar_meta,
  sidecar_data, save_all,
}
use sat_build.Svu.Sidecar.Resume.{pass_sidecar, pass_restores}

-- A file of three bytes in blocks of two; the digests do not matter here.
abbrev small_meta : Meta
small_meta = record { total = 3; block = 2; nblocks = 2; manifest = replicate 64 0 }

-- What the disk holds at first is no sidecar.
abbrev torn : Option (List ℕ)
torn = some (1 ∷ 2 ∷ [])

abbrev one_packet : List (List ℕ)
one_packet = (1 ∷ 0 ∷ 0 ∷ 0 ∷ 1 ∷ 0 ∷ 0 ∷ 0 ∷ 8 ∷ []) ∷ []

abbrev first : Tracker
first = initial 3 2 (replicate 64 0)

first_started :
    first_tracker small_meta (sidecar_restore true true (start_pass torn)).1 ≡ some first
unfolding first_tracker seed_tracker new nblocks sidecar_restore header_ok
first_started = refl

abbrev second : Tracker
second = record (initial 3 2 (replicate 64 0)) {
  covered_count = 3;
  payload = 0 ∷ 8 ∷ 0 ∷ [];
  covered = 1 ∷ 1 ∷ 1 ∷ [];
}

second_started :
    first_tracker small_meta
      (sidecar_restore true true
        (start_pass (pass_sidecar torn small_meta first one_packet).disk)).1
    ≡ some second
unfolding first_tracker seed_tracker new nblocks sidecar_restore header_ok restored sidecar_meta
    put_header sidecar_write_header pwrite sidecar_data save_all drain_data drain_packet get32
    accept cover cover_byte
second_started = refl

pass_restores_example :
    (sidecar_restore true true (start_pass (pass_sidecar torn small_meta first one_packet).disk)).1
    ≡ some (drain_data (draining first) one_packet).recv.payload
pass_restores_example = pass_restores torn small_meta one_packet (omega arith) first_started

kept_total : 3 ≡ (drain_data (draining first) one_packet).recv.total
unfolding drain_data drain_packet accept get32
kept_total = refl
