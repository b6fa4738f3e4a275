-- ===== src/Svu/Tracker/Reachable.antt =====
-- The trackers that calls of ci_svu.c lead to.
use sat_build.Prelude.{ℕ, ◌*◌, ◌<◌, ◌≡◌, some, List, length, u32_mod}
use sat_build.Svu.Tracker.{Tracker, hash_len, nblocks, new, accept}
use sat_build.Svu.Tracker.Invariant.{IsValid, new-IsValid, accept-IsValid}

-- A tracker that `ci_svu_new` returns, for a 32-bit size and a digest for each block, and what
-- `ci_svu_accept` makes of one when it returns 0.
pub data Reaches : Tracker → Type 0 where
  created :
      (total block n : ℕ) (digests : List ℕ) {s : Tracker}
      → total < u32_mod
      → block < u32_mod
      → length digests ≡ nblocks total block * hash_len
      → new total block digests n ≡ some s
      → Reaches s
  took :
      (s : Tracker) (offset : ℕ) (buf : List ℕ) {t : Tracker}
      → Reaches s
      → accept s offset buf ≡ some t
      → Reaches t

-- Every tracker that is reached is valid: both buffers have the payload's size, and the count of
-- covered bytes is that of the bytes marked.
pub Reaches-IsValid : (s : Tracker) → Reaches s → IsValid s
Reaches-IsValid s (created total block n digests ht hb hd e) =
    new-IsValid total block n digests ht hb hd e
Reaches-IsValid t (took s offset buf r e) = accept-IsValid s offset buf (Reaches-IsValid s r) e
