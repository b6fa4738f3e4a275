-- ===== src/Agent/Dtp/Bits.antt =====
-- The bitmap of the packets: marking one leaves the others.
use sat_build.Prelude.{
  ℕ, zero, suc, ◌+◌, ◌*◌, ◌/◌, ◌%◌, ◌^◌, ◌≤◌, ◌<◌, ◌≡◌, refl, ap, ◌≢◌, inl, inr, true, false, List,
  arith, leb, ◌==◌, leb→lt, ==_iff, Bool-cases, length, get_or, set, length-set, get_or-set,
}
use native.Mathlib.Nat.{pow-succ', div-div-eq-div-mul}
use sat_build.Agent.Dtp.{bit, seq_is_received, mark_seq_received}

div_pow : (b j : ℕ) → b / 2 ^ suc j ≡ b / 2 / 2 ^ j
div_pow b j = rw (pow-succ' 2 j, div-div-eq-div-mul b 2 (2 ^ j)) refl

-- A power of two that is added to a number without it changes no other bit.
bit_other : (s j b : ℕ) → s ≢ j → b / 2 ^ s % 2 ≡ 0 → (b + 2 ^ s) / 2 ^ j % 2 ≡ b / 2 ^ j % 2
bit_other zero zero b h clear = absurd (h refl)
bit_other zero (suc j) b h clear =
    let same : (b + 1) / 2 ≡ b / 2 = omega arith in rw (div_pow (b + 1) j, div_pow b j, same) refl
bit_other (suc s) zero b h clear = rw (pow-succ' 2 s) (omega arith)
bit_other (suc s) (suc j) b h clear =
    let half : (b + 2 ^ suc s) / 2 ≡ b / 2 + 2 ^ s = rw (pow-succ' 2 s) (omega arith) in
    rw (div_pow (b + 2 ^ suc s) j, div_pow b j, half)
      (bit_other s j (b / 2) (λ e. h (ap suc e)) (rw (div_pow b s) at clear))

-- The bit of another packet, behind the change of a byte.
bit-set_other :
    (bitmap : List ℕ) (seq k : ℕ)
    → k ≢ seq
    → seq / 8 < length bitmap
    → bit bitmap seq ≡ false
    → bit (set bitmap (seq / 8) (get_or bitmap (seq / 8) 0 + 2 ^ (seq % 8))) k ≡ bit bitmap k
bit-set_other bitmap seq k other inside clear =
    let v = get_or bitmap (seq / 8) 0 + 2 ^ (seq % 8) in
    let at_k = get_or-set bitmap (seq / 8) (k / 8) v 0 inside in
    elim (Bool-cases (seq / 8 == k / 8)) [
      | inr apart ↦ rw (at_k, apart) refl
      | inl same ↦
          let e : seq / 8 ≡ k / 8 = (==_iff (seq / 8) (k / 8)).0 same in
          let zero_bit : get_or bitmap (seq / 8) 0 / 2 ^ (seq % 8) % 2 ≡ 0 =
            ground (arith, clear) in
          let kept =
            bit_other (seq % 8) (k % 8) (get_or bitmap (seq / 8) 0)
              (λ m. other (omega (arith, m, e))) zero_bit in
          rw (at_k, same, kept, e) refl
    ]

-- A packet that is received once another one is marked was received before; the bitmap has a bit for
-- each.
pub received_of_mark :
    (nof : ℕ) (bitmap : List ℕ) (seq k : ℕ)
    → nof ≤ length bitmap * 8
    → k ≢ seq
    → seq_is_received nof (mark_seq_received nof bitmap seq) k ≡ true
    → seq_is_received nof bitmap k ≡ true
unfolding seq_is_received mark_seq_received
received_of_mark nof bitmap seq k room other e = elim (Bool-cases (leb nof seq)) [
  | inl outside ↦ rw (outside, mark_seq_received) at e
  | inr inside ↦ elim (Bool-cases (bit bitmap seq)) [
    | inl set_before ↦ rw (inside, set_before, mark_seq_received) at e
    | inr clear ↦
        let r = rw (inside, clear, mark_seq_received) at e in
        let same = bit-set_other bitmap seq k other (omega (arith, leb→lt nof seq inside)) clear in
        rw same at r
  ]
]

pub length-mark_seq_received :
    (nof : ℕ) (bitmap : List ℕ) (seq : ℕ)
    → length (mark_seq_received nof bitmap seq) ≡ length bitmap
unfolding mark_seq_received
length-mark_seq_received nof bitmap seq = elim (Bool-cases (leb nof seq)) [
  | inl outside ↦ rw (outside, mark_seq_received) refl
  | inr inside ↦ elim (Bool-cases (bit bitmap seq)) [
    | inl set_before ↦ rw (inside, set_before, mark_seq_received) refl
    | inr clear ↦
        rw (inside, clear, mark_seq_received)
          (length-set bitmap (seq / 8) (get_or bitmap (seq / 8) 0 + 2 ^ (seq % 8)))
  ]
]
