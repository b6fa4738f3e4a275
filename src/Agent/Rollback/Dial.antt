-- ===== src/Agent/Rollback/Dial.antt =====
-- The dial of `handle_rollback`: the entries that are collected, and the one that is selected.
use sat_build.Prelude.{
  streq_iff, streq_refl, clip, streq, ℕ, zero, suc, ◌+◌, ◌%◌, ◌≤◌, ◌<◌, ◌≡◌, refl, ap, ◌∙◌, inl,
  inr, false, none, some, List, [], ◌∷◌, ◌++◌, arith, leb, leb→lt, ne→==, Bool-cases, Option-cases,
  none≢some, length, length-append, take_all, All,
}
use mathlib.Core.List.{Permᴰ}
use mathlib.Core.List.Permᴰ
use mathlib.Core.Option.{some-injective}
use mathlib.Core.Path.{subst}
use sat_build.Agent.Disk.{Disk, find}
use sat_build.Agent.Backups.{max_path_len}
use sat_build.Agent.Backups.Names.{Listed}
use sat_build.Agent.Rollback.{
  DialEntry, stamped, index_of, rollback_collect_callback, rollback_collect, newest_first,
  get_elem?, dial, select_backup,
}
use sat_build.Agent.Rollback.Order.{Permᴰ-exchange_sort}

-- No entry has a hash.
abbrev pub IsFresh : List ℕ → List DialEntry → Type 0
IsFresh hash es = All (λ e. streq e.hash hash ≡ false) es

-- No two entries have one hash.
abbrev pub IsDistinct : List DialEntry → Type 0
IsDistinct [] = Unit
IsDistinct (e ∷ es) = IsFresh e.hash es × IsDistinct es

IsFresh-index_of : (hash : List ℕ) (es : List DialEntry) → index_of hash es ≡ none → IsFresh hash es
unfolding index_of
IsFresh-index_of hash [] h = tt
IsFresh-index_of hash (e ∷ es) h = (ground (arith, h), IsFresh-index_of hash es (ground (arith, h)))

IsFresh-snoc :
    (hash : List ℕ) (es : List DialEntry) (e : DialEntry)
    → IsFresh hash es
    → streq e.hash hash ≡ false
    → IsFresh hash (es ++ (e ∷ []))
IsFresh-snoc hash [] e f h = (h, tt)
IsFresh-snoc hash (e' ∷ es) e f h = (f.0, IsFresh-snoc hash es e f.1 h)

streq_sym : (xs ys : List ℕ) → streq xs ys ≡ false → streq ys xs ≡ false
streq_sym xs ys h = ground (arith, streq_iff xs ys, streq_iff ys xs)

IsDistinct-snoc :
    (es : List DialEntry) (e : DialEntry)
    → IsDistinct es
    → IsFresh e.hash es
    → IsDistinct (es ++ (e ∷ []))
IsDistinct-snoc [] e d f = (tt, tt)
IsDistinct-snoc (e' ∷ es) e d f =
    (IsFresh-snoc e'.hash es e d.0 (streq_sym e'.hash e.hash f.0), IsDistinct-snoc es e d.1 f.1)

All-Permᴰ : (P : DialEntry → Type 0) {l m : List DialEntry} → Permᴰ l m → All P l → All P m
All-Permᴰ P Permᴰ.nil a = a
All-Permᴰ P (Permᴰ.cons e p) a = (subst P e a.0, All-Permᴰ P p a.1)
All-Permᴰ P (Permᴰ.swap e e') a = (subst P e' a.1.0, (subst P e a.0, a.1.1))
All-Permᴰ P (Permᴰ.trans p q) a = All-Permᴰ P q (All-Permᴰ P p a)

IsDistinct-Permᴰ : {l m : List DialEntry} → Permᴰ l m → IsDistinct l → IsDistinct m
IsDistinct-Permᴰ Permᴰ.nil d = d
IsDistinct-Permᴰ (Permᴰ.cons {a = a} {l₂ = l₂} e p) d = (
  subst (λ (x : DialEntry). IsFresh x.hash l₂) e
      (All-Permᴰ (λ x. streq x.hash a.hash ≡ false) p d.0),
  IsDistinct-Permᴰ p d.1,
)
IsDistinct-Permᴰ (Permᴰ.swap {a = a} {b = b} {a' = a'} {l = l} e e') d =
    let turned : IsDistinct (b ∷ a ∷ l) =
      ((streq_sym b.hash a.hash d.0.0, d.1.0), (d.0.1, d.1.1)) in
    subst (λ y. IsDistinct (a' ∷ y ∷ l)) e (subst (λ x. IsDistinct (x ∷ a ∷ l)) e' turned)
IsDistinct-Permᴰ (Permᴰ.trans p q) d = IsDistinct-Permᴰ q (IsDistinct-Permᴰ p d)

length-Permᴰ : {l m : List DialEntry} → Permᴰ l m → length l ≡ length m
length-Permᴰ Permᴰ.nil = refl
length-Permᴰ (Permᴰ.cons e p) = ap suc (length-Permᴰ p)
length-Permᴰ (Permᴰ.swap e e') = refl
length-Permᴰ (Permᴰ.trans p q) = length-Permᴰ p ∙ length-Permᴰ q

callback-IsDistinct :
    (d : Disk) (es : List DialEntry) (l : Listed)
    → length l.parsed.hash ≤ 64
    → IsDistinct es
    → length es ≤ 32
    → let es' = rollback_collect_callback d es l in IsDistinct es' × (length es' ≤ 32)
unfolding rollback_collect_callback
callback-IsDistinct d es l short distinct few = elim (Bool-cases (leb 32 (length es))) [
  | inl full ↦ rw (full, rollback_collect_callback) (distinct, few)
  | inr room ↦ elim (Option-cases (index_of l.parsed.hash es)) [
    | inr (k, known) ↦ rw (room, known, rollback_collect_callback) (distinct, few)
    | inl new ↦
        rw (room, new, rollback_collect_callback, take_all 64 l.parsed.hash short)
          (
            IsDistinct-snoc es _ distinct (IsFresh-index_of l.parsed.hash es new),
            omega (
              arith,
              length-append es (
                  record {
                    hash = l.parsed.hash;
                    path = clip max_path_len l.path;
                    mtime = stamped (find l.path d);
                  }
                  ∷ []),
              leb→lt 32 (length es) room,
            ),
          )
  ]
]

-- The entries that are collected have different hashes, and there are at most 32; the hashes of the
-- backups have at most 64 bytes.
pub collect-IsDistinct :
    (d : Disk) (es : List DialEntry) (ls : List Listed)
    → All (λ l. length l.parsed.hash ≤ 64) ls
    → IsDistinct es
    → length es ≤ 32
    → IsDistinct (rollback_collect d es ls) × (length (rollback_collect d es ls) ≤ 32)
unfolding rollback_collect
collect-IsDistinct d es [] short distinct few = (distinct, few)
collect-IsDistinct d es (l ∷ ls) short distinct few =
    let one = callback-IsDistinct d es l short.0 distinct few in
    collect-IsDistinct d (rollback_collect_callback d es l) ls short.1 one.0 one.1

index_of_fresh : (hash : List ℕ) (es : List DialEntry) → IsFresh hash es → index_of hash es ≡ none
unfolding index_of
index_of_fresh hash [] f = refl
index_of_fresh hash (e ∷ es) f = rw (f.0, index_of_fresh hash es f.1) refl

get-fresh :
    (hash : List ℕ) (es : List DialEntry) (k : ℕ) (e : DialEntry)
    → IsFresh hash es
    → get_elem? es k ≡ some e
    → streq hash e.hash ≡ false
unfolding get_elem?
get-fresh hash [] k e f h = absurd (none≢some h)
get-fresh hash (x ∷ es) zero e f h =
    streq_sym e.hash hash
      (subst (λ (y : DialEntry). streq y.hash hash ≡ false) (some-injective _ _ h) f.0)
get-fresh hash (x ∷ es) (suc k) e f h = get-fresh hash es k e f.1 h

-- An entry of distinct ones is found at its place.
index_of-get :
    (es : List DialEntry) (k : ℕ) (e : DialEntry)
    → IsDistinct es
    → get_elem? es k ≡ some e
    → index_of e.hash es ≡ some k
unfolding index_of get_elem?
index_of-get [] k e d h = absurd (none≢some h)
index_of-get (x ∷ es) zero e d h =
    rw (ap (λ (y : DialEntry). y.hash) (some-injective _ _ h), streq_refl e.hash) refl
index_of-get (x ∷ es) (suc k) e d h =
    rw (get-fresh x.hash es k e d.0 h, index_of-get es k e d.1 h) (ap some (omega arith))

get_in_bounds :
    (es : List DialEntry) (k : ℕ) → k < length es → (e : DialEntry) × (get_elem? es k ≡ some e)
unfolding get_elem?
get_in_bounds [] k h = absurd (omega arith)
get_in_bounds (x ∷ es) zero h = (x, refl)
get_in_bounds (x ∷ es) (suc k) h = get_in_bounds es k (omega arith)

bound_of_get :
    (es : List DialEntry) (k : ℕ) (e : DialEntry) → get_elem? es k ≡ some e → k < length es
unfolding get_elem?
bound_of_get [] k e h = absurd (none≢some h)
bound_of_get (x ∷ es) zero e h = omega arith
bound_of_get (x ∷ es) (suc k) e h = omega (arith, bound_of_get es k e h)

length-newest_first : (es : List DialEntry) → length (newest_first es) ≡ length es
length-newest_first es = length-Permᴰ (Permᴰ-exchange_sort (λ e. e.mtime) (length es) es)

dial_known :
    (es : List DialEntry) (k : ℕ) (e : DialEntry)
    → 0 < length e.hash
    → index_of e.hash es ≡ some k
    → dial e.hash es ≡ (k + 1) % length es
unfolding dial
dial_known es k e pos known = rw (dial, ne→== (length e.hash) 0 (omega arith), known) refl

-- Where no hash is asked for, the dial goes on from the installed version to the next older one, and
-- from the oldest to the newest: the entries are distinct, and the installed version is the one at
-- `k` in their order, with a hash. There always is such an entry.
pub dial_turns :
    (es : List DialEntry) (k : ℕ) (e : DialEntry)
    → IsDistinct es
    → get_elem? (newest_first es) k ≡ some e
    → 0 < length e.hash
    → (e' : DialEntry) × (get_elem? (newest_first es) ((k + 1) % length es) ≡ some e')
      × ((select_backup [] e.hash es).1 ≡ some e')
unfolding select_backup
dial_turns es k e distinct at_k pos =
    let order = newest_first es in
    let perm = Permᴰ-exchange_sort (λ (x : DialEntry). x.mtime) (length es) es in
    let sorted = IsDistinct-Permᴰ (Permᴰ.symm perm) distinct in
    let known = dial_known order k e pos (index_of-get order k e sorted at_k) in
    let here = bound_of_get order k e at_k in
    let (e', found) =
      get_in_bounds order ((k + 1) % length es) (omega (arith, length-newest_first es)) in
    (
      e',
      found,
      ap (get_elem? order) (known ∙ ap (λ n. (k + 1) % n) (length-newest_first es)) ∙ found,
    )
