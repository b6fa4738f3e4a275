-- ===== src/Agent/Backups/Names.antt =====
-- `parse_backup_filename` and `backup_list` of backup_manager.c: the names of the backups. `sscanf`
-- is that of the C library: a number may have blanks and a sign before it.
use sat_build.Prelude.{
  streq_refl, clip, streq, ℕ, zero, suc, ◌+◌, ◌-◌, ◌*◌, ◌≤◌, ◌<◌, ◌≡◌, refl, ap, Bool, true, false,
  ◌&&◌, ◌||◌, not, Option, none, some, List, [], ◌∷◌, ◌++◌, arith, ltb, leb, ◌==◌, if◌then◌else◌,
  le→ltb, ne→==, length, get_or, take, drop, length-append, take-append, drop-append, take_all, All,
}
use sat_build.Agent.Disk.{Disk, File, find}
use sat_build.Agent.Backups.{backup_dir, dot_bak, join, read_dir, backup_name}

abbrev pub is_space : ℕ → Bool
is_space c = (c == 32) || (leb 9 c && leb c 13)

unfoldable pub skip_space : List ℕ → List ℕ
skip_space [] = []
skip_space (c ∷ s) = let rest = skip_space s in if is_space c then rest else c ∷ s

abbrev pub is_digit : ℕ → Bool
is_digit c = leb 48 c && leb c 57

-- At most `width` digits.
unfoldable pub digits : ℕ → ℕ → List ℕ → ℕ × List ℕ
digits zero v s = (v, s)
digits (suc width) v [] = (v, [])
digits (suc width) v (c ∷ s) =
    let more = digits width (v * 10 + (c - 48)) s in if is_digit c then more else (v, c ∷ s)

-- "%4d" and "%2d": a sign and a number, and what follows.
unfoldable pub scan_int : ℕ → List ℕ → Option ((Bool × ℕ) × List ℕ)
scan_int width s =
    let q = skip_space s in
    let c = get_or q 0 0 in
    let signed = (c == 45) || (c == 43) in
    let r = if signed then drop 1 q else q in
    let w = if signed then width - 1 else width in
    let v = digits w 0 r in
    if (w == 0) || not (is_digit (get_or r 0 0)) then none else some ((c == 45, v.0), v.1)

unfoldable pub scan_dash : List ℕ → Option (List ℕ)
scan_dash s = if get_or s 0 0 == 45 then some (drop 1 s) else none

unfoldable pub word : ℕ → List ℕ → List ℕ
word zero s = []
word (suc width) [] = []
word (suc width) (c ∷ s) = let more = word width s in if is_space c then [] else c ∷ more

-- "%64s"
unfoldable pub scan_word : List ℕ → Option (List ℕ)
scan_word s = let w = word 64 (skip_space s) in if length w == 0 then none else some w

-- The time in a name, each number with its sign.
pub record Date : Type 0 where
  pub year : Bool × ℕ
  pub mon : Bool × ℕ
  pub day : Bool × ℕ
  pub hour : Bool × ℕ
  pub min : Bool × ℕ
  pub sec : Bool × ℕ

infixl 5 ◌>>=◌
abbrev pub ◌>>=◌ {ℓ κ} : {A : Type ℓ} {B : Type κ} → Option A → (A → Option B) → Option B
none >>= f = none
some a >>= f = f a

-- `sscanf (name, "%4d%2d%2d-%2d%2d%2d-%64s", ...)`, where all seven are found.
unfoldable pub scan_name : List ℕ → Option (Date × List ℕ)
scan_name s = scan_int 4 s >>= λ year. scan_int 2 year.1 >>= λ mon. scan_int 2 mon.1 >>= λ day.
    scan_dash day.1 >>= λ t. scan_int 2 t >>= λ hour. scan_int 2 hour.1 >>= λ minute.
    scan_int 2 minute.1 >>= λ sec. scan_dash sec.1 >>= λ h. scan_word h >>= λ hash. some (
      record {
        year = year.0;
        mon = mon.0;
        day = day.0;
        hour = hour.0;
        min = minute.0;
        sec = sec.0;
      },
      hash,
    )

-- The time of a backup: that of its file, if it has one, or that in its name.
pub data Timestamp : Type 0 where
  of_file : Option ℕ → Timestamp
  of_name : Date → Timestamp

pub record Parsed : Type 0 where
  pub version : List ℕ
  pub timestamp : Timestamp
  pub hash : List ℕ

-- The last attempt: a name with a time.
unfoldable pub by_date : List ℕ → Option Parsed
by_date name = elim (scan_name name) [
  | none ↦ none
  | some (date, hash) ↦
      some (record { version = clip 96 name; timestamp = of_name date; hash = clip 65 hash })
]

-- `parse_backup_filename`, with the buffers of `backup_list`; `none` is -1.
unfoldable pub parse_backup_filename : List ℕ → Option ℕ → Option Parsed
parse_backup_filename filename mtime =
    let len = length filename in
    let name = take (len - 4) filename in
    if ltb len 5 || not (streq (drop (len - 4) filename) dot_bak)
    then none
    else if len == 12
    then some (record { version = clip 96 name; timestamp = of_file mtime; hash = clip 65 name })
    else by_date name

-- The arguments of one call of the callback.
pub record Listed : Type 0 where
  pub parsed : Parsed
  pub path : List ℕ

abbrev pub mtime_of : Option File → Option ℕ
mtime_of none = none
mtime_of (some f) = some f.mtime

unfoldable pub list_names : List ℕ → Disk → List (List ℕ) → List Listed
list_names dir d [] = []
list_names dir d (name ∷ names) =
    let rest = list_names dir d names in
    elim (parse_backup_filename name (mtime_of (find (join dir name) d))) [
      | none ↦ rest
      | some p ↦ record { parsed = p; path = join dir name } ∷ rest
    ]

-- `backup_list`: the calls of the callback; the result is their count.
unfoldable pub backup_list : List ℕ → Disk → List Listed
backup_list app_name d = let dir = join backup_dir app_name in list_names dir d (read_dir dir d)

abbrev pub IsDigits : ℕ → List ℕ → Type 0
IsDigits n s = (length s ≡ n) × All (λ c. is_digit c ≡ true) s

-- The number that digits stand for.
unfoldable pub value : ℕ → List ℕ → ℕ
value v [] = v
value v (c ∷ s) = value (v * 10 + (c - 48)) s

digits_lem :
    (n v : ℕ) (s rest : List ℕ)
    → length s ≡ n
    → All (λ c. is_digit c ≡ true) s
    → digits n v (s ++ rest) ≡ (value v s, rest)
unfolding digits value
digits_lem zero v [] rest e h = refl
digits_lem zero v (c ∷ s) rest e h = absurd (omega arith)
digits_lem (suc n) v [] rest e h = absurd (omega arith)
digits_lem (suc n) v (c ∷ s) rest e h =
    rw h.0 (digits_lem n (v * 10 + (c - 48)) s rest (omega arith) h.1)

digit_cases :
    (c : ℕ) → is_digit c ≡ true → (is_space c ≡ false) × ((c == 45) ≡ false) × ((c == 43) ≡ false)
digit_cases c h = (ground arith, ground arith, ground arith)

scan_int_lem :
    (n : ℕ) (s rest : List ℕ)
    → 0 < n
    → IsDigits n s
    → scan_int n (s ++ rest) ≡ some ((false, value 0 s), rest)
unfolding scan_int skip_space
scan_int_lem n [] rest pos h = absurd (omega (arith, h.0))
scan_int_lem n (c ∷ s) rest pos h =
    let plain = digit_cases c h.1.0 in
    rw
      (
        plain.0,
        plain.1,
        plain.2,
        h.1.0,
        ne→== n 0 (omega arith),
        digits_lem n 0 (c ∷ s) rest h.0 h.1,
      )
      refl

word_lem : (n : ℕ) (s : List ℕ) → length s ≤ n → All (λ c. is_space c ≡ false) s → word n s ≡ s
unfolding word
word_lem zero [] h p = refl
word_lem zero (c ∷ s) h p = absurd (omega arith)
word_lem (suc n) [] h p = refl
word_lem (suc n) (c ∷ s) h p = rw p.0 (ap (λ l. c ∷ l) (word_lem n s (omega arith) p.1))

scan_word_lem :
    (s : List ℕ)
    → 0 < length s
    → length s ≤ 64
    → All (λ c. is_space c ≡ false) s
    → scan_word s ≡ some s
unfolding scan_word skip_space
scan_word_lem [] pos h p = absurd (omega arith)
scan_word_lem (c ∷ s) pos h p =
    rw (p.0, word_lem 64 (c ∷ s) h p, ne→== (length (c ∷ s)) 0 (omega arith)) refl

assoc : (xs ys zs : List ℕ) → (xs ++ ys) ++ zs ≡ xs ++ (ys ++ zs)
assoc [] ys zs = refl
assoc (x ∷ xs) ys zs = ap (λ l. x ∷ l) (assoc xs ys zs)

-- The formatted time of a backup, by its six numbers.
abbrev pub stamp_of : (y mo d h mi s : List ℕ) → List ℕ
stamp_of y mo d h mi s = y ++ (mo ++ (d ++ (45 ∷ (h ++ (mi ++ s)))))

-- The two parts of a name that ends in ".bak" and is not the name of a digest of eight bytes.
parse_lem :
    (name : List ℕ) (mtime : Option ℕ)
    → 0 < length name
    → (length name ≡ 8 → ⊥)
    → parse_backup_filename (name ++ dot_bak) mtime ≡ by_date name
unfolding parse_backup_filename
parse_lem name mtime pos other =
    let n = length-append name dot_bak in
    let stem : length (name ++ dot_bak) - 4 ≡ length name = omega arith in
    let tail : drop (length (name ++ dot_bak) - 4) (name ++ dot_bak) ≡ dot_bak =
      rw stem (drop-append name dot_bak) in
    let head : take (length (name ++ dot_bak) - 4) (name ++ dot_bak) ≡ name =
      rw stem (take-append name dot_bak) in
    rw
      (
        tail,
        head,
        le→ltb (length (name ++ dot_bak)) 5 (omega arith),
        ne→== (length (name ++ dot_bak)) 12 (λ e. other (omega arith)),
        streq_refl dot_bak,
      )
      refl

abbrev Stamp : List ℕ → List ℕ → List ℕ → List ℕ → List ℕ → List ℕ → Type 0
Stamp y mo d h mi s =
    IsDigits 4 y
    × (IsDigits 2 mo × (IsDigits 2 d × (IsDigits 2 h × (IsDigits 2 mi × IsDigits 2 s))))

abbrev pub date_of : (y mo d h mi s : List ℕ) → Date
date_of y mo d h mi s = record {
  year = (false, value 0 y);
  mon = (false, value 0 mo);
  day = (false, value 0 d);
  hour = (false, value 0 h);
  min = (false, value 0 mi);
  sec = (false, value 0 s);
}

scan_name_lem :
    (y mo d h mi s hash : List ℕ)
    → Stamp y mo d h mi s
    → 0 < length hash
    → length hash ≤ 64
    → All (λ c. is_space c ≡ false) hash
    → scan_name (y ++ (mo ++ (d ++ (45 ∷ (h ++ (mi ++ (s ++ (45 ∷ hash))))))))
      ≡ some (date_of y mo d h mi s, hash)
unfolding scan_name scan_dash
scan_name_lem y mo d h mi s hash (hy, (hmo, (hd, (hh, (hmi, hs))))) pos small solid =
    rw
      (
        scan_int_lem 4 y (mo ++ (d ++ (45 ∷ (h ++ (mi ++ (s ++ (45 ∷ hash))))))) (omega arith) hy,
        scan_int_lem 2 mo (d ++ (45 ∷ (h ++ (mi ++ (s ++ (45 ∷ hash)))))) (omega arith) hmo,
        scan_int_lem 2 d (45 ∷ (h ++ (mi ++ (s ++ (45 ∷ hash))))) (omega arith) hd,
        scan_int_lem 2 h (mi ++ (s ++ (45 ∷ hash))) (omega arith) hh,
        scan_int_lem 2 mi (s ++ (45 ∷ hash)) (omega arith) hmi,
        scan_int_lem 2 s (45 ∷ hash) (omega arith) hs,
        scan_word_lem hash pos small solid,
      )
      refl

regroup :
    (y mo d h mi s z : List ℕ)
    → stamp_of y mo d h mi s ++ z ≡ y ++ (mo ++ (d ++ (45 ∷ (h ++ (mi ++ (s ++ z))))))
regroup y mo d h mi s z =
    rw
      (
        assoc y (mo ++ (d ++ (45 ∷ (h ++ (mi ++ s))))) z,
        assoc mo (d ++ (45 ∷ (h ++ (mi ++ s)))) z,
        assoc d (45 ∷ (h ++ (mi ++ s))) z,
        assoc h (mi ++ s) z,
        assoc mi s z,
      )
      refl

length-stamp_of :
    (y mo d h mi s z : List ℕ)
    → Stamp y mo d h mi s
    → length (stamp_of y mo d h mi s ++ z) ≡ 15 + length z
length-stamp_of y mo d h mi s z (hy, (hmo, (hd, (hh, (hmi, hs))))) = omega (
  arith,
  hy.0,
  hmo.0,
  hd.0,
  hh.0,
  hmi.0,
  hs.0,
  length-append (stamp_of y mo d h mi s) z,
  length-append y (mo ++ (d ++ (45 ∷ (h ++ (mi ++ s))))),
  length-append mo (d ++ (45 ∷ (h ++ (mi ++ s)))),
  length-append d (45 ∷ (h ++ (mi ++ s))),
  length-append h (mi ++ s),
  length-append mi s,
)

-- The name that `backup_create` gives a backup is read back by `parse_backup_filename`: the six
-- numbers of its time, its digest, which has 1 to 64 bytes and no blank, and as version the name
-- without its extension.
pub parse-backup_name :
    (y mo d h mi s hash : List ℕ) (mtime : Option ℕ)
    → Stamp y mo d h mi s
    → 0 < length hash
    → length hash ≤ 64
    → All (λ c. is_space c ≡ false) hash
    → parse_backup_filename (backup_name (stamp_of y mo d h mi s) hash) mtime
      ≡ some (record {
        version = clip 96 (stamp_of y mo d h mi s ++ (45 ∷ hash));
        timestamp = of_name (date_of y mo d h mi s);
        hash = hash;
      })
unfolding by_date
parse-backup_name y mo d h mi s hash mtime st pos small solid =
    let long = length-stamp_of y mo d h mi s (45 ∷ hash) st in
    rw
      (
        ← (assoc (stamp_of y mo d h mi s) (45 ∷ hash) dot_bak),
        parse_lem (stamp_of y mo d h mi s ++ (45 ∷ hash)) mtime (omega arith) (λ e. omega arith),
        by_date,
        regroup y mo d h mi s (45 ∷ hash),
        scan_name_lem y mo d h mi s hash st pos small solid,
        take_all 64 hash small,
      )
      (rw (regroup y mo d h mi s (45 ∷ hash)) refl)
