-- ===== src/Svu/Serve/Blast.antt =====
-- A blast over a link that loses nothing, received by `drain_data`.
use sat_build.Prelude.{
  ℕ, zero, suc, ◌+◌, ◌-◌, ◌%◌, ◌≤◌, ◌<◌, min, ◌≡◌, refl, sym, ◌∙◌, inl, inr, List, [], ◌++◌, arith,
  ltb, leb, ltb→lt, lt→ltb, le→ltb, ltb→le, leb→le, Bool-cases, length, drop, slice, length-take,
  length-drop, take_all, u16_mod, u32_mod,
}
use mathlib.Core.Path.{subst}
use native.Mathlib.Nat.{mod-eq_of_lt}
use sat_build.Svu.Wire.{put32, data_hdr}
use sat_build.Svu.Wire.RoundTrip.{get32-put32}
use sat_build.Svu.Tracker.Invariant.{IsValid}
use sat_build.Svu.Tracker.Delivery.{Filled, Filled-refl, Filled-trans, accept-Filled}
use sat_build.Svu.Serve.{packet, advance, chunk_len, payload_len, blast, blast_interval}
use sat_build.Svu.Session.{Drain, drain_packet, drain_data}

-- The packet of `n` bytes of `src` from `off` on.
abbrev pub data_packet : ℕ → List ℕ → ℕ → ℕ → List ℕ
data_packet session src off n =
    packet (data_hdr + n) (put32 off ++ (put32 session ++ slice off n src))

pub length-slice : (src : List ℕ) (off n : ℕ) → off + n ≤ length src → length (slice off n src) ≡ n
length-slice src off n h = omega (arith, length-take n (drop off src), length-drop off src)

data_packet_whole :
    (session : ℕ) (src : List ℕ) (off n : ℕ)
    → off + n ≤ length src
    → data_hdr + n < u16_mod
    → data_packet session src off n ≡ put32 off ++ (put32 session ++ slice off n src)
data_packet_whole session src off n h p =
    rw (mod-eq_of_lt p) (take_all (data_hdr + n) _ (omega (arith, length-slice src off n h)))

pub drain_packet-Filled :
    (d : Drain) (session : ℕ) (src : List ℕ) (off n : ℕ)
    → IsValid d.recv
    → length src ≡ d.recv.total
    → off + n ≤ d.recv.total
    → 0 < n
    → data_hdr + n < u16_mod
    → Filled src off (off + n) d.recv (drain_packet d (data_packet session src off n)).recv
unfolding drain_packet
drain_packet-Filled d session src off n v e h p q =
    let (t, took, filled) = accept-Filled d.recv src off n v e h in
    rw
      (
        data_packet_whole session src off n (omega arith) q,
        lt→ltb data_hdr (length (put32 off ++ (put32 session ++ slice off n src)))
            (omega (arith, length-slice src off n (omega arith))),
        get32-put32 off (put32 session ++ slice off n src) (omega (arith, v.total_lt)),
        took,
      )
      filled

-- The size of the next chunk, where the sum does not wrap.
pub chunk_len_lem :
    (off pay end : ℕ)
    → off < end
    → 0 < pay
    → end + pay ≤ u32_mod
    → (advance off pay ≡ off + pay)
      × (0 < chunk_len off pay end)
      × (chunk_len off pay end ≤ pay)
      × (off + chunk_len off pay end ≡ min (off + pay) end)
chunk_len_lem off pay end h p q =
    let e : (off + pay) % u32_mod ≡ off + pay = mod-eq_of_lt (omega arith) in
    (e, ground arith, ground arith, ground arith)

blast_past_end :
    (fuel session pay : ℕ) (src : List ℕ) (off end : ℕ)
    → end ≤ off
    → blast fuel session pay src off end ≡ []
unfolding blast
blast_past_end zero session pay src off end h = refl
blast_past_end (suc fuel) session pay src off end h = rw (le→ltb off end h)

module _ (session pay : ℕ) (src : List ℕ) (pos : 0 < pay) (room : data_hdr + pay < u16_mod) where
  blast-Filled :
      (fuel off end : ℕ) (d : Drain)
      → IsValid d.recv
      → length src ≡ d.recv.total
      → off ≤ end
      → end ≤ d.recv.total
      → end + pay ≤ u32_mod
      → end - off ≤ fuel
      → Filled src off end d.recv (drain_data d (blast fuel session pay src off end)).recv
  unfolding blast drain_data
  blast-Filled zero off end d v e p q w f =
      let e' : end ≡ off = omega arith in rw e' (Filled-refl src off v)
  blast-Filled (suc fuel) off end d v e p q w f = elim (Bool-cases (ltb off end)) [
    | inr done ↦
        let e' : end ≡ off = omega (arith, ltb→le _ _ done) in
        rw done (rw e' (Filled-refl src off v))
    | inl more ↦
        let lt = ltb→lt _ _ more in
        let n = chunk_len off pay end in
        let (adv, some_bytes, small, sum) = chunk_len_lem off pay end lt pos w in
        let d' = drain_packet d (data_packet session src off n) in
        let filled =
          drain_packet-Filled d session src off n v e (omega arith) some_bytes (omega arith) in
        let after = advance off pay in
        let rest : Filled src (off + n) end d'.recv
            (drain_data d' (blast fuel session pay src after end)).recv =
          elim (Bool-cases (leb (off + pay) end)) [
            | inl goes_on ↦
                subst
                  (λ m.
                    Filled src m end d'.recv
                      (drain_data d' (blast fuel session pay src after end)).recv)
                  (omega (arith, leb→le _ _ goes_on))
                  (blast-Filled fuel after end d' filled.valid (e ∙ sym filled.total_eq)
                    (omega (arith, leb→le _ _ goes_on)) (omega (arith, filled.total_eq)) w
                    (omega arith))
            | inr last ↦
                let reached : end ≡ off + n = ground arith in
                subst (λ l. Filled src (off + n) end d'.recv (drain_data d' l).recv)
                  (sym (blast_past_end fuel session pay src after end (ground arith)))
                  (subst (λ m. Filled src (off + n) m d'.recv d'.recv) (sym reached)
                    (Filled-refl src (off + n) filled.valid))
          ] in
        rw more (Filled-trans src off (off + n) end (omega arith) (omega arith) filled rest)
  ]

-- Each packet of a blast of `start` to `end` is accepted: received in full by a valid tracker of
-- the file's size, which is at least 2 ^ 16 short of 2 ^ 32, it turns these bytes into covered
-- bytes of the file, and changes nothing else, for a 16-bit packet size.
pub blast_interval-Filled :
    (session mtu : ℕ) (src : List ℕ) (start end : ℕ) (d : Drain)
    → IsValid d.recv
    → length src ≡ d.recv.total
    → start ≤ end
    → end ≤ d.recv.total
    → mtu < u16_mod
    → d.recv.total + u16_mod ≤ u32_mod
    → Filled src start end d.recv (drain_data d (blast_interval session mtu src start end)).recv
unfolding blast_interval
blast_interval-Filled session mtu src start end d v e p q m w =
    blast-Filled session (payload_len mtu) src (ground arith) (ground arith) (end - start) start end
      d v e p q (ground arith) (omega arith)
