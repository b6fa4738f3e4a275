-- ===== src/Agent/Metadata/RoundTrip.antt =====
-- What `save_metadata` prints, `load_metadata` reads back.
use sat_build.Prelude.{
  codes, streq, ℕ, zero, suc, ◌+◌, ◌-◌, ◌*◌, ◌≤◌, ◌<◌, ◌≡◌, refl, ap, ◌∙◌, ◌≢◌, inl, inr, some,
  List, [], ◌∷◌, ◌++◌, arith, leb, le→ltb, lt→leb, ne→==, Bool-cases, length, length-append,
  take_all, All,
}
use sat_build.Agent.Metadata.{
  Entry, max_apps, skip_ws, string_body, parse_string, set_field, parse_fields, blank, parse_apps,
  load_metadata, quoted, entry_text, entries_text, metadata_text,
}

-- A string that the printer, which escapes nothing, can hold: no quote and no backslash.
abbrev pub IsPlain : List ℕ → Type 0
IsPlain s = All (λ c. (c ≢ 34) × (c ≢ 92)) s

string_body-plain :
    (room : ℕ) (s rest : List ℕ)
    → length s ≤ room
    → IsPlain s
    → string_body room (s ++ (34 ∷ rest)) ≡ (s, 34 ∷ rest)
unfolding string_body
string_body-plain zero [] rest h p = refl
string_body-plain (suc room) [] [] h p = refl
string_body-plain (suc room) [] (r ∷ rest) h p = refl
string_body-plain zero (c ∷ s) rest h p = absurd (omega arith)
string_body-plain (suc room) (c ∷ []) rest h p =
    rw (ne→== c 34 p.0.0, ne→== c 92 p.0.1, string_body-plain room [] rest (omega arith) tt) refl
string_body-plain (suc room) (c ∷ d ∷ s) rest h p =
    rw (ne→== c 34 p.0.0, ne→== c 92 p.0.1, string_body-plain room (d ∷ s) rest (omega arith) p.1)
      refl

parse_string-quoted :
    (n : ℕ) (s rest : List ℕ)
    → length s < n
    → IsPlain s
    → parse_string n (quoted s rest) ≡ some (s, rest)
unfolding parse_string skip_ws
parse_string-quoted n s rest h p = rw (string_body-plain (n - 1) s rest (omega arith) p) refl

parse_string-space : (n : ℕ) (p : List ℕ) → parse_string n (32 ∷ p) ≡ parse_string n p
unfolding parse_string skip_ws
parse_string-space n p = refl

-- A line break and the indentation of a field.
abbrev indent : List ℕ → List ℕ
indent p = 10 ∷ 32 ∷ 32 ∷ 32 ∷ 32 ∷ p

field_step :
    (k : ℕ) (e : Entry) (key value after : List ℕ)
    → length key < 64
    → IsPlain key
    → length value < 512
    → IsPlain value
    → parse_fields (suc k) e (indent (quoted key (58 ∷ 32 ∷ quoted value after)))
      ≡ parse_fields k (set_field key value e) after
unfolding parse_fields skip_ws
field_step k e key value after hk pk hv pv =
    rw
      (
        parse_string-quoted 64 key (58 ∷ 32 ∷ quoted value after) hk pk,
        parse_string-space 512 (quoted value after),
        parse_string-quoted 512 value after hv pv,
      )
      refl

comma_step : (k : ℕ) (e : Entry) (p : List ℕ) → parse_fields (suc k) e (44 ∷ p) ≡ parse_fields k e p
unfolding parse_fields skip_ws
comma_step k e p = refl

close_step :
    (k : ℕ) (e : Entry) (rest : List ℕ)
    → parse_fields (suc k) e (10 ∷ 32 ∷ 32 ∷ 125 ∷ rest) ≡ some (e, 125 ∷ rest)
unfolding parse_fields skip_ws
close_step k e rest = refl

-- An entry as the cache holds it, with strings that can be printed.
pub record IsPrintable (e : Entry) : Type 0 where
  pub name_lt : length e.app_name < 64
  pub name_plain : IsPlain e.app_name
  pub path_lt : length e.remote_path < 512
  pub path_plain : IsPlain e.remote_path
  pub hash_lt : length e.file_hash < 65
  pub hash_plain : IsPlain e.file_hash
  pub time_lt : length e.deployed_at < 32
  pub time_plain : IsPlain e.deployed_at

-- The three fields as the printer writes them, and the closing brace.
abbrev fields_text : Entry → List ℕ → List ℕ
fields_text e rest = indent (
    quoted (codes "remote_path") (
      58
      ∷ 32
      ∷ quoted e.remote_path (
          44
          ∷ indent (
              quoted (codes "file_hash") (
                58
                ∷ 32
                ∷ quoted e.file_hash (
                    44
                    ∷ indent (
                        quoted (codes "deployed_at")
                          (58 ∷ 32 ∷ quoted e.deployed_at (10 ∷ 32 ∷ 32 ∷ 125 ∷ rest)))))))))

named : Entry → Entry
named e = record blank { app_name = e.app_name }

filled : Entry → Entry
filled e = set_field (codes "deployed_at") e.deployed_at (
    set_field (codes "file_hash") e.file_hash
      (set_field (codes "remote_path") e.remote_path (named e)))

filled_lem : (e : Entry) → IsPrintable e → filled e ≡ e
unfolding filled named set_field streq
filled_lem e v =
    rw
      (
        take_all 511 e.remote_path (omega (arith, v.path_lt)),
        take_all 64 e.file_hash (omega (arith, v.hash_lt)),
        take_all 31 e.deployed_at (omega (arith, v.time_lt)),
      )
      refl

six_fields :
    (k : ℕ) (e : Entry) (rest : List ℕ)
    → IsPrintable e
    → parse_fields (suc (suc (suc (suc (suc (suc k)))))) (named e) (fields_text e rest)
      ≡ some (filled e, 125 ∷ rest)
unfolding filled
six_fields k e rest v =
    field_step _ (named e) (codes "remote_path") e.remote_path _ (omega arith) (omega arith)
      v.path_lt v.path_plain
    ∙ comma_step _ _ _
    ∙ field_step _ _ (codes "file_hash") e.file_hash _ (omega arith) (omega arith)
        (omega (arith, v.hash_lt)) v.hash_plain
    ∙ comma_step _ _ _
    ∙ field_step _ _ (codes "deployed_at") e.deployed_at _ (omega arith) (omega arith)
        (omega (arith, v.time_lt)) v.time_plain
    ∙ close_step k _ rest

fields_lem :
    (n : ℕ) (e : Entry) (rest : List ℕ)
    → 6 ≤ n
    → IsPrintable e
    → parse_fields n (named e) (fields_text e rest) ≡ some (e, 125 ∷ rest)
fields_lem n e rest h v =
    ap (λ k. parse_fields k (named e) (fields_text e rest))
      (let q : n ≡ suc (suc (suc (suc (suc (suc (n - 6)))))) = omega arith in q)
    ∙ six_fields (n - 6) e rest v
    ∙ ap (λ f. some (f, 125 ∷ rest)) (filled_lem e v)

app_step :
    (k : ℕ) (apps : List Entry) (e : Entry) (rest : List ℕ)
    → length apps < max_apps
    → 6 ≤ k
    → IsPrintable e
    → parse_apps (suc k) apps (entry_text e rest) ≡ parse_apps k (apps ++ (e ∷ [])) rest
unfolding parse_apps entry_text skip_ws named
app_step k apps e rest h f v =
    rw
      (
        lt→leb max_apps (length apps) h,
        parse_string-quoted 64 e.app_name (codes ": {" ++ fields_text e rest) v.name_lt
            v.name_plain,
        fields_lem k e rest f v,
      )
      refl

-- A line break before an app changes nothing.
break_step :
    (k : ℕ) (apps : List Entry) (e : Entry) (rest : List ℕ)
    → parse_apps (suc k) apps (10 ∷ entry_text e rest) ≡ parse_apps (suc k) apps (entry_text e rest)
unfolding parse_apps entry_text skip_ws
break_step k apps e rest = refl

next_step :
    (k : ℕ) (apps : List Entry) (p : List ℕ)
    → length apps < max_apps
    → parse_apps (suc k) apps (44 ∷ p) ≡ parse_apps k apps p
unfolding parse_apps skip_ws
next_step k apps p h = rw (lt→leb max_apps (length apps) h) refl

end_step :
    (k : ℕ) (apps : List Entry)
    → parse_apps (suc k) apps (10 ∷ (codes "}" ++ (10 ∷ []))) ≡ some apps
unfolding parse_apps skip_ws
end_step k apps = elim (Bool-cases (leb max_apps (length apps))) [
  | inl full ↦ rw full refl
  | inr room ↦ rw room refl
]

assoc : (xs ys zs : List Entry) → (xs ++ ys) ++ zs ≡ xs ++ (ys ++ zs)
assoc [] ys zs = refl
assoc (x ∷ xs) ys zs = ap (λ l. x ∷ l) (assoc xs ys zs)

-- Two rounds of the loop for each app, and one for the end.
apps_lem :
    (k : ℕ) (apps : List Entry) (e : Entry) (es : List Entry)
    → length apps + suc (length es) ≤ max_apps
    → length es * 2 + 7 ≤ k
    → IsPrintable e
    → All IsPrintable es
    → parse_apps (suc k) apps (entries_text (e ∷ es)) ≡ some (apps ++ (e ∷ es))
unfolding entries_text
apps_lem zero apps e es h f v vs = absurd (omega arith)
apps_lem (suc k) apps e [] h f v vs =
    app_step (suc k) apps e _ (omega arith) (omega arith) v ∙ end_step k _
apps_lem (suc zero) apps e (e' ∷ es) h f v vs = absurd (omega arith)
apps_lem (suc (suc k)) apps e (e' ∷ es) h f v vs =
    app_step (suc (suc k)) apps e _ (omega arith) (omega arith) v
    ∙ next_step (suc k) (apps ++ (e ∷ [])) _ (omega (arith, length-append apps (e ∷ [])))
    ∙ again es
    ∙ apps_lem k (apps ++ (e ∷ [])) e' es (omega (arith, length-append apps (e ∷ []))) (omega arith)
        vs.0 vs.1
    ∙ ap some (assoc apps (e ∷ []) (e' ∷ es))
  where
    again :
        (es : List Entry)
        → parse_apps (suc k) (apps ++ (e ∷ [])) (10 ∷ entries_text (e' ∷ es))
          ≡ parse_apps (suc k) (apps ++ (e ∷ [])) (entries_text (e' ∷ es))
    again [] = break_step k _ e' _
    again (_ ∷ _) = break_step k _ e' _

length-entry_text : (e : Entry) (rest : List ℕ) → length rest + 30 ≤ length (entry_text e rest)
unfolding entry_text
length-entry_text e rest = omega (arith, length-append {0})

length-entries_text :
    (e : Entry) (es : List Entry) → length es * 30 + 30 ≤ length (entries_text (e ∷ es))
unfolding entries_text
length-entries_text e [] = omega (arith, length-entry_text e (10 ∷ (codes "}" ++ (10 ∷ []))))
length-entries_text e (e' ∷ es) =
    omega (arith, length-entry_text e (44 ∷ 10 ∷ entries_text (e' ∷ es)), length-entries_text e' es)

-- The text that is printed for a table of at most 64 apps is read back as that table, if no string
-- holds a quote or a backslash, each is as long as its field allows, and the text is no longer than
-- a megabyte.
pub load_metadata-metadata_text :
    (es : List Entry)
    → length es ≤ max_apps
    → All IsPrintable es
    → length (metadata_text es) ≤ 1024 * 1024
    → load_metadata (some (metadata_text es)) ≡ some es
unfolding load_metadata metadata_text skip_ws
load_metadata-metadata_text [] h v small = unfold entries_text parse_apps in refl
load_metadata-metadata_text (e ∷ es) h v small =
    rw
      (
        ne→== (suc (suc (length (entries_text (e ∷ es))))) 0 (omega arith),
        le→ltb (1024 * 1024) (length (123 ∷ 10 ∷ entries_text (e ∷ es))) small,
      )
      (again es
        ∙ apps_lem (suc (length (entries_text (e ∷ es)))) [] e es (omega arith)
            (omega (arith, length-entries_text e es)) v.0 v.1)
  where
    again :
        (es : List Entry)
        → parse_apps (suc (suc (length (entries_text (e ∷ es))))) [] (10 ∷ entries_text (e ∷ es))
          ≡ parse_apps (suc (suc (length (entries_text (e ∷ es))))) [] (entries_text (e ∷ es))
    again [] = unfold entries_text in break_step _ [] e _
    again (_ ∷ _) = unfold entries_text in break_step _ [] e _
