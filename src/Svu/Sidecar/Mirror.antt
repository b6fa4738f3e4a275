-- ===== src/Svu/Sidecar/Mirror.antt =====
-- The sidecar's file against the reassembly buffer of the running transfer.
use sat_build.Prelude.{
  zeros, get_or-zeros, get_or_beyond, length-pwrite, get_or-pwrite_in, get_or-pwrite_out, pwrite, ℕ,
  ◌+◌, ◌-◌, ◌≤◌, ◌<◌, min, ◌≡◌, refl, sym, ap, ◌∙◌, inl, inr, true, ◌&&◌, some, List, [], ◌∷◌, ◌++◌,
  arith, ltb, leb, ltb→lt, le→ltb, ltb→le, le→leb, ne→==, ==_refl, Bool-cases, Option-cases, length,
  get_or, take, drop, length-take, length-drop, length-replicate, length-write_at, get_or-take,
  get_or-drop, get_or-write_at_in, get_or-write_at_out, eq_of_get_or, u32_mod,
}
use mathlib.Core.Path.{subst}
use sat_build.Svu.Tracker.{Tracker, accept, accepted}
use sat_build.Svu.Tracker.Invariant.{accept-eq-some}
use sat_build.Svu.Session.{Drain, drain_packet, drain_data}
use sat_build.Svu.Wire.{get32, data_hdr}
use sat_build.Svu.Sidecar.{
  Sidecar, sidecar_magic, sidecar_version, sidecar_hdr, sidecar_get32, header, header_ok, restored,
  start_pass, sidecar_restore, sidecar_data, save_all,
}

-- A file that holds the header, and behind it the payload as far as it is not zero.
pub record Holds (file : List ℕ) (total block : ℕ) (payload : List ℕ) : Type 0 where
  pub long : sidecar_hdr ≤ length file
  pub head : (j : ℕ) → j < sidecar_hdr → get_or file j 0 ≡ get_or (header total block) j 0
  pub body : (i : ℕ) → i < total → get_or file (sidecar_hdr + i) 0 ≡ get_or payload i 0

-- A sidecar that is open and holds the data of the tracker.
pub record Mirrors (sc : Sidecar) (t : Tracker) : Type 0 where
  pub opened : sc.fd ≡ true
  pub named : sc.path ≡ true
  pub total_eq : sc.total ≡ t.total
  pub total_pos : 0 < t.total
  pub total_lt : t.total < u32_mod
  pub size : length t.payload ≡ t.total
  pub file : List ℕ
  pub stored : sc.disk ≡ some file
  pub holds : Holds file t.total t.block t.payload

pub get_or-restored :
    (total : ℕ) (file : List ℕ) (i : ℕ)
    → i < total
    → get_or (restored total file) i 0 ≡ get_or file (sidecar_hdr + i) 0
unfolding restored
get_or-restored total file i h = elim (Bool-cases (ltb i (length bytes))) [
  | inl inside ↦
      get_or-write_at_in (zeros total) 0 bytes i 0
        (omega (arith, room, length-replicate {A = ℕ} total 0)) (omega arith)
        (omega (arith, ltb→lt _ _ inside))
      ∙ ap (λ k. get_or bytes k 0) (let e : i - 0 ≡ i = omega arith in e)
      ∙ get_or-take total (drop sidecar_hdr file) i 0 h
      ∙ get_or-drop sidecar_hdr file i 0
  | inr behind ↦
      get_or-write_at_out (zeros total) 0 bytes i 0
        (inr (omega (arith, ltb→le i (length bytes) behind)))
      ∙ get_or-zeros total i
      ∙ sym (
          get_or_beyond file (sidecar_hdr + i)
            (omega (arith, ltb→le _ _ behind, sizes, length-drop sidecar_hdr file)))
]
  where
    bytes : List ℕ
    bytes = take total (drop sidecar_hdr file)

    sizes : length bytes ≡ min total (length (drop sidecar_hdr file))
    sizes = length-take total (drop sidecar_hdr file)

    room : length bytes ≤ total
    room = omega (arith, sizes)

pub length-restored : (total : ℕ) (file : List ℕ) → length (restored total file) ≡ total
unfolding restored
length-restored total file = length-write_at (zeros total) 0 _ ∙ length-replicate {A = ℕ} total 0

-- The word at `k` of a file that holds a header.
word_of_head :
    {file : List ℕ} {total block : ℕ} {payload : List ℕ} (k : ℕ)
    → Holds file total block payload
    → k + 4 ≤ sidecar_hdr
    → sidecar_get32 (drop k file) ≡ sidecar_get32 (drop k (header total block))
word_of_head {file} {total} {block} k h p =
    let byte : (j : ℕ)
        → j < 4
        → get_or (drop k file) j 0 ≡ get_or (drop k (header total block)) j 0 =
      λ j q.
        get_or-drop k file j 0
        ∙ h.head (k + j) (omega arith)
        ∙ sym (get_or-drop k (header total block) j 0) in
    rw (byte 0 (omega arith), byte 1 (omega arith), byte 2 (omega arith), byte 3 (omega arith)) refl

-- Restoring from a file that holds a header and a payload.
pub restore_of_Holds :
    {file : List ℕ} {total block : ℕ} {payload : List ℕ}
    → 0 < total
    → total < u32_mod
    → length payload ≡ total
    → Holds file total block payload
    → (sidecar_restore true true (start_pass (some file))).1 ≡ some payload
unfolding sidecar_restore header_ok
restore_of_Holds {file} {total} {block} {payload} pos small size h =
    rw (le→leb _ _ h.long, magic, version, total_word, ne→== total 0 (omega arith))
      (ap some (
        eq_of_get_or (restored total file) payload 0 (length-restored total file ∙ sym size) (λ i p.
          get_or-restored total file i (omega (arith, length-restored total file))
          ∙ h.body i (omega (arith, length-restored total file)))))
  where
    magic : sidecar_get32 file ≡ sidecar_magic
    magic = word_of_head 0 h (omega arith)

    version : sidecar_get32 (drop 4 file) ≡ sidecar_version
    version = word_of_head 4 h (omega arith)

    total_word : sidecar_get32 (drop 8 file) ≡ total
    total_word = word_of_head 8 h (omega arith) ∙ omega arith

pub restore_of_Mirrors :
    (sc : Sidecar) (t : Tracker)
    → Mirrors sc t
    → (sidecar_restore true true (start_pass sc.disk)).1 ≡ some t.payload
restore_of_Mirrors sc t m = rw m.stored (restore_of_Holds m.total_pos m.total_lt m.size m.holds)

-- A fragment that the tracker accepts is stored.
pub sidecar_data-Mirrors :
    (sc : Sidecar) (t : Tracker) (off : ℕ) (buf : List ℕ) {t' : Tracker}
    → Mirrors sc t
    → accept t off buf ≡ some t'
    → Mirrors (sidecar_data (length buf) sc off buf) t'
unfolding sidecar_data
sidecar_data-Mirrors sc t off buf {t'} m e =
    let inv = accept-eq-some t off buf e in
    subst (λ u. Mirrors (sidecar_data (length buf) sc off buf) u) (sym inv.1)
      (rw
        (
          m.opened,
          m.total_eq,
          le→ltb t.total off (omega (arith, inv.0)),
          le→ltb (t.total - off) (length buf) (omega (arith, inv.0)),
          ==_refl (length buf),
          m.stored,
        )
        (keeps inv.0))
  where
    keeps :
        off + length buf ≤ t.total
        → Mirrors
            (record {
              disk = some (pwrite m.file (sidecar_hdr + off) buf);
              fd = true;
              total = t.total;
              path = sc.path;
            })
            (accepted t off buf)
    keeps h = record {
      opened = refl;
      named = m.named;
      total_eq = refl;
      total_pos = m.total_pos;
      total_lt = m.total_lt;
      size = length-write_at t.payload off buf ∙ m.size;
      file = pwrite m.file (sidecar_hdr + off) buf;
      stored = refl;
      holds = record {
        long = omega (arith, length-pwrite m.file (sidecar_hdr + off) buf, m.holds.long);
        head = λ j p.
            get_or-pwrite_out m.file (sidecar_hdr + off) buf j (inl (omega arith))
            ∙ m.holds.head j p;
        body = λ i p. elim (Bool-cases (leb off i && ltb i (off + length buf))) [
          | inl inside ↦
              get_or-pwrite_in m.file (sidecar_hdr + off) buf (sidecar_hdr + i) (ground arith)
                (ground arith)
              ∙ ap (λ k. get_or buf k 0)
                  (let e : sidecar_hdr + i - (sidecar_hdr + off) ≡ i - off = omega arith in e)
              ∙ sym (
                  get_or-write_at_in t.payload off buf i 0 (omega (arith, m.size)) (ground arith)
                    (ground arith))
          | inr outside ↦
              get_or-pwrite_out m.file (sidecar_hdr + off) buf (sidecar_hdr + i) (ground arith)
              ∙ m.holds.body i p
              ∙ sym (get_or-write_at_out t.payload off buf i 0 (ground arith))
        ];
      };
    }

save_all-snoc :
    (sc : Sidecar) (l : List (ℕ × List ℕ)) (off : ℕ) (buf : List ℕ)
    → save_all sc (l ++ (off, buf) ∷ []) ≡ sidecar_data (length buf) (save_all sc l) off buf
unfolding save_all
save_all-snoc sc [] off buf = refl
save_all-snoc sc ((o, b) ∷ l) off buf = save_all-snoc (sidecar_data (length b) sc o b) l off buf

drain_packet-Mirrors :
    (sc : Sidecar) (d : Drain) (pkt : List ℕ)
    → Mirrors (save_all sc d.hooked) d.recv
    → Mirrors (save_all sc (drain_packet d pkt).hooked) (drain_packet d pkt).recv
unfolding drain_packet
drain_packet-Mirrors sc d pkt m =
    let off = get32 pkt in
    let buf = drop data_hdr pkt in
    elim (Bool-cases (ltb data_hdr (length pkt))) [
      | inr empty ↦ rw empty m
      | inl full ↦ elim (Option-cases (accept d.recv off buf)) [
        | inl refused ↦ rw (full, refused) m
        | inr (t, took) ↦
            rw (full, took, save_all-snoc sc d.hooked off buf)
              (sidecar_data-Mirrors (save_all sc d.hooked) d.recv off buf m took)
      ]
    ]

-- Draining any packets keeps the sidecar in step with the tracker.
pub drain_data-Mirrors :
    (sc : Sidecar) (d : Drain) (pkts : List (List ℕ))
    → Mirrors (save_all sc d.hooked) d.recv
    → Mirrors (save_all sc (drain_data d pkts).hooked) (drain_data d pkts).recv
unfolding drain_data
drain_data-Mirrors sc d [] m = m
drain_data-Mirrors sc d (pkt ∷ pkts) m =
    drain_data-Mirrors sc (drain_packet d pkt) pkts (drain_packet-Mirrors sc d pkt m)
