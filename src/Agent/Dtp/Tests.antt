-- ===== src/Agent/Dtp/Tests.antt =====
-- A download of three bytes in packets of two, the first of which is lost once.
use sat_build.Prelude.{ℕ, true, none, List, [], ◌∷◌}
use sat_build.Agent.Dtp.{Packet, DtpIo}

abbrev source : List ℕ
source = 7 ∷ 8 ∷ 9 ∷ []

abbrev head : Packet
head = record { size = 10; seq = 0; offset = 0; bytes = 7 ∷ 8 ∷ []; stores = true }

abbrev tail : Packet
tail = record { size = 9; seq = 1; offset = 2; bytes = 9 ∷ []; stores = true }

abbrev io : DtpIo
io = record {
  usable = true;
  state = none;
  path_len = 20;
  dest = none;
  opens = true;
  session = true;
  transfers =
      record { packets = tail ∷ []; fine = true }
      ∷ record { packets = head ∷ tail ∷ []; fine = true }
      ∷ [];
  saves = true;
}
