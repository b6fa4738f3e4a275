-- ===== src/Agent/Upload/Assembly.antt =====
-- The chunks of a direct upload: what is in the temporary file, whatever requests come in.
use sat_build.Prelude.{
  streq_iff, streq_refl, streq, ℕ, zero, suc, ◌+◌, ◌%◌, ◌≤◌, ◌<◌, ◌≡◌, refl, sym, ap, ◌∙◌, ◌⊎◌, inl,
  inr, Bool, true, Option, none, some, List, [], ◌∷◌, ◌++◌, arith, ◌==◌, if◌then◌else◌, ne→==,
  ==_iff, ==_refl, Bool-cases, Option-cases, none≢some, length, length-append, take_all, u32_mod,
  All,
}
use mathlib.Core.Option.{some-injective}
use mathlib.Core.Path.{subst}
use sat_build.Agent.Disk.{File, Disk, find, content, find-store}
use sat_build.Agent.Deploy.{Request}
use sat_build.Agent.Upload.{
  State, check_start, upload_session_reset, upload_path, new_session, handle_upload_start, append,
  handle_upload_chunk,
}

abbrev pub with_bytes : List ℕ → Option File → Option File
with_bytes bytes none = none
with_bytes bytes (some f) = some (record f { bytes = f.bytes ++ bytes })

pub find-append :
    (path bytes q : List ℕ) (d : Disk)
    → find q (append path bytes d)
      ≡ (if streq path q then with_bytes bytes (find q d) else find q d)
unfolding find append
find-append path bytes q [] = ground arith
find-append path bytes q ((p, f) ∷ d) =
    ground (arith, find-append path bytes q d, streq_iff p path, streq_iff p q, streq_iff path q)

-- The first chunks of a file, one after the other.
abbrev pub prefix_of : (ℕ → List ℕ) → ℕ → List ℕ
prefix_of chunks zero = []
prefix_of chunks (suc n) = prefix_of chunks n ++ chunks n

-- The chunk requests one after the other, each stored in full.
abbrev pub deliver : List Request → State → State
deliver [] s = s
deliver (req ∷ reqs) s = deliver reqs (handle_upload_chunk (length req.chunk_data) req s).0

-- The temporary file holds the first chunks, as many as were taken, and the session counts them.
pub record IsAssembled (chunks : ℕ → List ℕ) (s : State) : Type 0 where
  pub active : s.session.active ≡ true
  pub held :
      content (find s.session.temp_path s.store.disk) ≡ some (prefix_of chunks s.session.next_chunk)
  pub counted : s.session.received_size ≡ length (prefix_of chunks s.session.next_chunk) % u32_mod

-- A start that succeeds begins with an empty file.
pub start-IsAssembled :
    (chunks : ℕ → List ℕ) (opens : Bool) (now mode : ℕ) (req : Request) (s : State)
    → (handle_upload_start opens now mode req s).1.success ≡ true
    → IsAssembled chunks (handle_upload_start opens now mode req s).0
      × ((handle_upload_start opens now mode req s).0.session ≡ new_session req)
unfolding handle_upload_start
start-IsAssembled chunks opens now mode req s ok = elim (Option-cases (check_start req)) [
  | inr (refusal, e) ↦ absurd (ground (arith, (simp (e, handle_upload_start) at ok)))
  | inl fine ↦ elim (Bool-cases opens) [
    | inr shut ↦ absurd (ground (arith, (simp (fine, shut, handle_upload_start) at ok)))
    | inl works ↦
        rw (fine, works, handle_upload_start)
          (
            record {
              active = refl;
              held =
                  rw
                    (
                      find-store (upload_path req.app_name)
                          (record { bytes = []; mtime = now; mode = mode })
                          (upload_path req.app_name)
                          (if s.session.active then upload_session_reset s else s).store.disk,
                      streq_refl (upload_path req.app_name),
                    )
                    refl;
              counted = refl;
            },
            refl,
          )
  ]
]

-- What a chunk request does that is stored in full.
chunk_cases :
    (req : Request) (s : State)
    → let r = (handle_upload_chunk (length req.chunk_data) req s).0 in
      (r ≡ s)
      ⊎ ((req.chunk_seq ≡ s.session.next_chunk)
          × (r ≡ record {
            session = record s.session {
              received_size = (s.session.received_size + length req.chunk_data) % u32_mod;
              next_chunk = (s.session.next_chunk + 1) % u32_mod;
            };
            store = record s.store {
              disk = append s.session.temp_path req.chunk_data s.store.disk;
            };
          }))
unfolding handle_upload_chunk
chunk_cases req s = elim (Bool-cases s.session.active) [
  | inr idle ↦ inl (simp (idle, handle_upload_chunk) refl)
  | inl busy ↦ elim (Bool-cases (req.chunk_seq == s.session.next_chunk)) [
    | inr other ↦ inl (simp (busy, other, handle_upload_chunk) refl)
    | inl due ↦ elim (Bool-cases (length req.chunk_data == 0)) [
      | inl empty ↦ inl (simp (busy, due, empty, handle_upload_chunk) refl)
      | inr full ↦ inr (
        (==_iff req.chunk_seq s.session.next_chunk).0 due,
        simp
            (
              busy,
              due,
              full,
              handle_upload_chunk,
              take_all (length req.chunk_data) req.chunk_data (omega arith),
              ==_refl (length req.chunk_data),
            )
            refl,
      )
    ]
  ]
]

content-with_bytes :
    (o : Option File) (held bytes : List ℕ)
    → content o ≡ some held
    → content (with_bytes bytes o) ≡ some (held ++ bytes)
content-with_bytes none held bytes e = absurd (none≢some e)
content-with_bytes (some f) held bytes e = ap (λ h. some (h ++ bytes)) (some-injective _ _ e)

chunk-IsAssembled :
    (chunks : ℕ → List ℕ) (req : Request) (s : State)
    → req.chunk_data ≡ chunks req.chunk_seq
    → s.session.next_chunk + 1 < u32_mod
    → IsAssembled chunks s
    → let s' = (handle_upload_chunk (length req.chunk_data) req s).0 in
      IsAssembled chunks s' × (s'.session.next_chunk ≤ s.session.next_chunk + 1)
chunk-IsAssembled chunks req s honest room a = elim (chunk_cases req s) [
  | inl same ↦
      subst (λ r. IsAssembled chunks r × (r.session.next_chunk ≤ s.session.next_chunk + 1))
        (sym same) (a, omega arith)
  | inr (due, e) ↦
      let next = s.session.next_chunk in
      let chunk = chunks next in
      let bytes : req.chunk_data ≡ chunk = honest ∙ ap chunks due in
      let step : (next + 1) % u32_mod ≡ suc next = omega arith in
      subst (λ r. IsAssembled chunks r × (r.session.next_chunk ≤ s.session.next_chunk + 1)) (sym e)
        (
          record {
            active = a.active;
            held =
                rw
                  (
                    step,
                    ← bytes,
                    find-append s.session.temp_path req.chunk_data s.session.temp_path s.store.disk,
                    streq_refl s.session.temp_path,
                  )
                  (content-with_bytes (find s.session.temp_path s.store.disk)
                    (prefix_of chunks next) req.chunk_data a.held);
            counted =
                rw (step, ← bytes, length-append (prefix_of chunks next) req.chunk_data, a.counted)
                  (omega arith);
          },
          omega arith,
        )
]

-- Whatever chunk requests come in, in any order and any number of times, each with the bytes of its
-- chunk and stored in full: the temporary file holds the first chunks one after the other, as many
-- as the session counts. The counts do not reach the end of 32 bits.
pub deliver-IsAssembled :
    (chunks : ℕ → List ℕ) (reqs : List Request) (s : State)
    → All (λ req. req.chunk_data ≡ chunks req.chunk_seq) reqs
    → s.session.next_chunk + length reqs < u32_mod
    → IsAssembled chunks s
    → IsAssembled chunks (deliver reqs s)
deliver-IsAssembled chunks [] s honest room a = a
deliver-IsAssembled chunks (req ∷ reqs) s honest room a =
    let one = chunk-IsAssembled chunks req s honest.0 (omega arith) a in
    deliver-IsAssembled chunks reqs (handle_upload_chunk (length req.chunk_data) req s).0 honest.1
      (omega (arith, one.1)) one.0

-- What chunk requests leave of a session, and of the table.
pub record SameTarget (s t : State) : Type 0 where
  pub remote_path : s.session.remote_path ≡ t.session.remote_path
  pub temp_path : s.session.temp_path ≡ t.session.temp_path
  pub expected_checksum : s.session.expected_checksum ≡ t.session.expected_checksum
  pub expected_size : s.session.expected_size ≡ t.session.expected_size

pub deliver-SameTarget : (reqs : List Request) (s : State) → SameTarget (deliver reqs s) s
deliver-SameTarget [] s = record {
  remote_path = refl;
  temp_path = refl;
  expected_checksum = refl;
  expected_size = refl;
}
deliver-SameTarget (req ∷ reqs) s =
    let r = (handle_upload_chunk (length req.chunk_data) req s).0 in
    let one : SameTarget r s = (elim (chunk_cases req s) [
      | inl e ↦ record {
        remote_path = ap (λ t. t.session.remote_path) e;
        temp_path = ap (λ t. t.session.temp_path) e;
        expected_checksum = ap (λ t. t.session.expected_checksum) e;
        expected_size = ap (λ t. t.session.expected_size) e;
      }
      | inr (due, e) ↦ record {
        remote_path = ap (λ t. t.session.remote_path) e;
        temp_path = ap (λ t. t.session.temp_path) e;
        expected_checksum = ap (λ t. t.session.expected_checksum) e;
        expected_size = ap (λ t. t.session.expected_size) e;
      }
    ]) in
    let more = deliver-SameTarget reqs r in
    record {
      remote_path = more.remote_path ∙ one.remote_path;
      temp_path = more.temp_path ∙ one.temp_path;
      expected_checksum = more.expected_checksum ∙ one.expected_checksum;
      expected_size = more.expected_size ∙ one.expected_size;
    }

-- The requests of the chunks from `k` on, in order.
abbrev pub in_order : Request → (ℕ → List ℕ) → ℕ → ℕ → List Request
in_order base chunks k zero = []
in_order base chunks k (suc n) =
    record base { chunk_seq = k; chunk_data = chunks k } ∷ in_order base chunks (k + 1) n

taken :
    (req : Request) (s : State)
    → s.session.active ≡ true
    → req.chunk_seq ≡ s.session.next_chunk
    → 0 < length req.chunk_data
    → s.session.next_chunk + 1 < u32_mod
    → let s' = (handle_upload_chunk (length req.chunk_data) req s).0 in
      (s'.session.active ≡ true) × (s'.session.next_chunk ≡ s.session.next_chunk + 1)
unfolding handle_upload_chunk
taken req s busy due pos room =
    simp
      (
        busy,
        (==_iff req.chunk_seq s.session.next_chunk).1 due,
        ne→== (length req.chunk_data) 0 (omega arith),
        handle_upload_chunk,
        take_all (length req.chunk_data) req.chunk_data (omega arith),
        ==_refl (length req.chunk_data),
      )
      (refl, omega arith)

-- The chunks that come in order are all taken, where none is empty and the counts do not reach the
-- end of 32 bits.
pub deliver-in_order :
    (base : Request) (chunks : ℕ → List ℕ) (n : ℕ) (s : State)
    → s.session.active ≡ true
    → ((k : ℕ) → 0 < length (chunks k))
    → s.session.next_chunk + n < u32_mod
    → (deliver (in_order base chunks s.session.next_chunk n) s).session.next_chunk
      ≡ s.session.next_chunk + n
deliver-in_order base chunks zero s busy full room = omega arith
deliver-in_order base chunks (suc n) s busy full room =
    let k = s.session.next_chunk in
    let req : Request = record base { chunk_seq = k; chunk_data = chunks k } in
    let r = (handle_upload_chunk (length (chunks k)) req s).0 in
    let one = taken req s busy refl (full k) (omega arith) in
    let more = deliver-in_order base chunks n r one.0 full (omega (arith, one.1)) in
    (rw one.1 at more) ∙ omega arith
