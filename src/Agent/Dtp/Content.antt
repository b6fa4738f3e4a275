-- ===== src/Agent/Dtp/Content.antt =====
-- The file of a download agrees with the source at every packet that the bitmap has.
use sat_build.Prelude.{
  zeros, get_or-zeros, get_or-pwrite_in, get_or-pwrite_out, pwrite, ℕ, zero, suc, ◌+◌, ◌-◌, ◌*◌,
  ◌/◌, ◌%◌, ◌^◌, ◌≤◌, ◌<◌, ◌≡◌, refl, ap, ◌∙◌, inl, inr, Bool, true, false, ◌&&◌, List, [], ◌∷◌,
  arith, ltb, leb, ◌==◌, ltb→lt, ltb→le, leb→le, lt→leb, leb→lt, ==_iff, Bool-cases, false≢true,
  length, get_or, drop, slice, length-take, length-drop, length-replicate, get_or-slice, All,
}
use native.Mathlib.Nat.{zero-div, div-lt_iff_lt-mul, div-mul-le_self, lt-div-mul-add}
use sat_build.Agent.Dtp.{
  seq_is_received, mark_seq_received, count_received_packets, Packet, DownloadCtx, on_download_data,
  receive_all, Transfer, next_transfer, later_transfers, retry, is_covered, transfer_all,
  compute_missing_intervals,
}
use sat_build.Agent.Dtp.Bits.{received_of_mark, length-mark_seq_received}
use sat_build.Agent.Dtp.Gaps.{all_of_count}

module _ (src : List ℕ) (eff nof : ℕ) where
  -- The server sends each packet the bytes at its place in the file.
  abbrev pub IsFrom : Packet → Type 0
  IsFrom p = (p.offset ≡ p.seq * eff) × (p.bytes ≡ slice (p.seq * eff) eff src)

  -- The file agrees with the source at every packet that the bitmap has.
  pub record Agrees (ctx : DownloadCtx) : Type 0 where
    pub counts : ctx.nof_packets ≡ nof
    pub room : nof ≤ length ctx.recv_bitmap * 8
    pub holds :
        (k pos : ℕ)
        → k < nof
        → seq_is_received nof ctx.recv_bitmap k ≡ true
        → k * eff ≤ pos
        → pos < k * eff + eff
        → pos < length src
        → get_or ctx.file pos 0 ≡ get_or src pos 0

  stored_byte :
      (file : List ℕ) (off pos : ℕ)
      → off ≤ pos
      → pos < off + eff
      → pos < length src
      → get_or (pwrite file off (slice off eff src)) pos 0 ≡ get_or src pos 0
  stored_byte file off pos a b c =
      let n = length-take eff (drop off src) in
      let m = length-drop off src in
      get_or-pwrite_in file off (slice off eff src) pos a (omega (arith, n, m))
      ∙ get_or-slice off eff src (pos - off) 0 (omega arith)
      ∙ ap (λ i. get_or src i 0) (omega arith)

  other_byte :
      (file : List ℕ) (off pos : ℕ)
      → get_or file pos 0 ≡ get_or src pos 0
      → pos < length src
      → get_or (pwrite file off (slice off eff src)) pos 0 ≡ get_or src pos 0
  other_byte file off pos e c = elim (Bool-cases (leb off pos && ltb pos (off + eff))) [
    | inl within ↦
        stored_byte file off pos (leb→le off pos (ground (arith, within)))
          (ltb→lt pos (off + eff) (ground (arith, within))) c
    | inr without ↦
        get_or-pwrite_out file off (slice off eff src) pos (elim (Bool-cases (leb off pos)) [
          | inr before ↦ inl (leb→lt off pos before)
          | inl behind ↦ inr (
              omega (
                arith,
                length-take eff (drop off src),
                ltb→le pos (off + eff) (ground (arith, behind, without)),
              ))
        ])
        ∙ e
  ]

  marked :
      (ctx : DownloadCtx) (p : Packet)
      → Agrees ctx
      → (k pos : ℕ) → k < nof
      → seq_is_received nof (mark_seq_received nof ctx.recv_bitmap p.seq) k ≡ true
      → k * eff ≤ pos
      → pos < k * eff + eff
      → pos < length src
      → get_or (pwrite ctx.file (p.seq * eff) (slice (p.seq * eff) eff src)) pos 0
        ≡ get_or src pos 0
  marked ctx p a k pos inside e lo hi c = elim (Bool-cases (k == p.seq)) [
    | inl same ↦
        let s = ap (λ n. n * eff) ((==_iff k p.seq).0 same) in
        stored_byte ctx.file (p.seq * eff) pos (omega (arith, s)) (omega (arith, s)) c
    | inr other ↦
        let before =
          received_of_mark nof ctx.recv_bitmap p.seq k a.room (λ q. ground (arith, q, other)) e in
        other_byte ctx.file (p.seq * eff) pos (a.holds k pos inside before lo hi c) c
  ]

  on_download_data-Agrees :
      (ctx : DownloadCtx) (p : Packet) → IsFrom p → Agrees ctx → Agrees (on_download_data ctx p).0
  unfolding on_download_data
  on_download_data-Agrees ctx p from a = elim (Bool-cases (ltb p.size 8)) [
    | inl short ↦ simp (short, on_download_data) a
    | inr long ↦ elim (Bool-cases p.stores) [
      | inr full ↦
          simp (long, full, on_download_data)
            (record { counts = a.counts; room = a.room; holds = a.holds })
      | inl stored ↦
          simp (long, stored, on_download_data)
            (record {
              counts = a.counts;
              room = rw (length-mark_seq_received ctx.nof_packets ctx.recv_bitmap p.seq) a.room;
              holds = λ k pos inside e lo hi c.
                  rw (from.0, from.1) (marked ctx p a k pos inside (rw a.counts at e) lo hi c);
            })
    ]
  ]

  receive_all-Agrees :
      (ctx : DownloadCtx) (ps : List Packet)
      → All IsFrom ps
      → Agrees ctx
      → Agrees (receive_all ctx ps)
  unfolding receive_all
  receive_all-Agrees ctx [] from a = a
  receive_all-Agrees ctx (p ∷ ps) from a =
      let one = on_download_data-Agrees ctx p from.0 a in
      elim (Bool-cases (on_download_data ctx p).1) [
        | inl on ↦
            rw (on, receive_all) (receive_all-Agrees (on_download_data ctx p).0 ps from.1 one)
        | inr stop ↦ rw (stop, receive_all) one
      ]

  -- Each transfer has packets of the file only.
  abbrev pub IsServed : List Transfer → Type 0
  IsServed ts = All (λ t. All IsFrom t.packets) ts

  next_served : (ts : List Transfer) → IsServed ts → All IsFrom (next_transfer ts).packets
  next_served [] h = tt
  next_served (t ∷ ts) h = h.0

  later-IsServed : (ts : List Transfer) → IsServed ts → IsServed (later_transfers ts)
  later-IsServed [] h = tt
  later-IsServed (t ∷ ts) h = h.1

  retry-Agrees :
      (rounds : ℕ) (ctx : DownloadCtx) (fine : Bool) (ts : List Transfer)
      → IsServed ts
      → Agrees ctx
      → Agrees (retry rounds ctx fine ts).ctx
  unfolding retry
  retry-Agrees zero ctx fine ts h a = a
  retry-Agrees (suc rounds) ctx fine ts h a =
      let t = next_transfer ts in
      let rest =
        retry-Agrees rounds (receive_all ctx t.packets) t.fine (later_transfers ts)
          (later-IsServed ts h) (receive_all-Agrees ctx t.packets (next_served ts h) a) in
      elim (Bool-cases ctx.error) [
        | inl e ↦ simp (e, retry) a
        | inr ok ↦ elim (Bool-cases fine) [
          | inr e ↦ simp (ok, e, retry) a
          | inl fine_too ↦
              (elim (Bool-cases
                (leb ctx.nof_packets (count_received_packets ctx.nof_packets ctx.recv_bitmap))) [
                  | inl e ↦ simp (ok, fine_too, e, retry) a
                  | inr e ↦
                      elim (Bool-cases
                        (length (compute_missing_intervals ctx.nof_packets ctx.recv_bitmap) == 0)) [
                          | inl none_left ↦ simp (ok, fine_too, e, none_left, retry) a
                          | inr some_left ↦ simp (ok, fine_too, e, some_left, retry) rest
                        ]
                ])
        ]
      ]

  pub transfer_all-Agrees :
      (resumed : Bool) (ctx : DownloadCtx) (ts : List Transfer)
      → IsServed ts
      → Agrees ctx
      → Agrees (transfer_all resumed ctx ts).ctx
  unfolding transfer_all
  transfer_all-Agrees resumed ctx ts h a = elim (Bool-cases (is_covered ctx)) [
    | inl e ↦ simp (e, transfer_all) a
    | inr e ↦
        let t = next_transfer ts in
        simp (e, transfer_all)
          (retry-Agrees 8 (receive_all ctx t.packets) t.fine (later_transfers ts)
            (later-IsServed ts h) (receive_all-Agrees ctx t.packets (next_served ts h) a))
  ]

  pub covered_bytes :
      (ctx : DownloadCtx) (pos : ℕ)
      → Agrees ctx
      → is_covered ctx ≡ true
      → 0 < nof
      → 0 < eff
      → length src ≤ nof * eff
      → pos < length src
      → get_or ctx.file pos 0 ≡ get_or src pos 0
  unfolding is_covered count_received_packets
  covered_bytes ctx pos a covered some_packets some_bytes enough inside =
      let full : nof ≤ count_received_packets nof ctx.recv_bitmap =
        leb→le nof (count_received_packets nof ctx.recv_bitmap)
          (ground (arith, (rw a.counts at covered))) in
      let at_k : pos / eff < nof = (div-lt_iff_lt-mul some_bytes).1 (omega arith) in
      a.holds (pos / eff) pos at_k
        (all_of_count (seq_is_received nof ctx.recv_bitmap) nof (pos / eff) full at_k)
        (div-mul-le_self pos eff) (lt-div-mul-add some_bytes) inside

  pub fresh-Agrees :
      (bytes : ℕ)
      → nof ≤ bytes * 8
      → Agrees (record {
        file = [];
        bytes_written = 0;
        error = false;
        recv_bitmap = zeros bytes;
        nof_packets = nof;
      })
  unfolding seq_is_received
  fresh-Agrees bytes enough = record {
    counts = refl;
    room = rw (length-replicate {A = ℕ} bytes 0) enough;
    holds = λ k pos inside e lo hi c. absurd (
        false≢true
          (rw (lt→leb nof k inside, get_or-zeros bytes (k / 8), zero-div (2 ^ (k % 8))) at e));
  }
