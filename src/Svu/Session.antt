-- ===== src/Svu/Session.antt =====
-- satdeploy-agent/svu/svu_session.c: the receiving end. The link is a list of what each call of the
-- CSP library returns; the control exchange and the transfer loop are in the modules below.
pub mod Control
pub mod Client
use sat_build.Prelude.{
  ℕ, ◌+◌, ◌%◌, none, some, List, [], ◌∷◌, ◌++◌, ltb, if◌then◌else◌, length, drop, u32_mod,
}
use sat_build.Svu.Wire.{get32, data_hdr}
use sat_build.Svu.Tracker.{Tracker, accept}

-- What `drain_data` changes: the tracker, the count of accepted frames in 32 bits, and the calls of
-- the `data` hook, newest last.
pub record Drain : Type 0 where
  pub recv : Tracker
  pub accepted : ℕ
  pub hooked : List (ℕ × List ℕ)

-- The body of the loop of `drain_data`.
unfoldable pub drain_packet : Drain → List ℕ → Drain
drain_packet d pkt =
    let off = get32 pkt in
    let buf = drop data_hdr pkt in
    if ltb data_hdr (length pkt)
    then elim (accept d.recv off buf) [
      | none ↦ d
      | some t ↦ record {
        recv = t;
        accepted = (d.accepted + 1) % u32_mod;
        hooked = d.hooked ++ (off, buf) ∷ [];
      }
    ]
    else d

-- `drain_data` over the packets that arrive before the link is idle.
unfoldable pub drain_data : Drain → List (List ℕ) → Drain
drain_data d [] = d
drain_data d (pkt ∷ pkts) = drain_data (drain_packet d pkt) pkts

abbrev pub draining : Tracker → Drain
draining s = record { recv = s; accepted = 0; hooked = [] }
