-- ===== src/Agent/Dtp/Result.antt =====
-- What a download that returns 0 has written.
use sat_build.Prelude.{zeros, ℕ, ◌+◌, ◌/◌, ◌%◌, ◌≡◌, true, false, Option, List, [], arith, u32_mod}
use sat_build.Agent.Dtp.{DownloadCtx, Ended, is_covered, DtpIo, conclude}

conclude_lem :
    (io : DtpIo) (size : ℕ) (hash : List ℕ) (mtu : ℕ) (state : Option (List ℕ)) (ended : Ended)
    → (conclude io size hash mtu state ended).result ≡ true
    → is_covered ended.ctx ≡ true
unfolding conclude
conclude_lem io size hash mtu state ended e = ground (arith, e)

abbrev fresh_ctx : ℕ → DownloadCtx
fresh_ctx nof = record {
  file = [];
  bytes_written = 0;
  error = false;
  recv_bitmap = zeros ((nof + 7) % u32_mod / 8);
  nof_packets = nof;
}
