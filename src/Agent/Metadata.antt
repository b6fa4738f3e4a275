-- ===== src/Agent/Metadata.antt =====
-- satdeploy-agent/src/app_metadata.c: the table of deployed apps, and its JSON text. A text ends at
-- its first NUL, which no list here holds; the clock's formatted time is an argument.
pub mod Table
pub mod RoundTrip
use sat_build.Prelude.{
  codes, clip, streq, ℕ, zero, suc, ◌-◌, ◌*◌, Bool, true, false, ◌||◌, not, Option, none, some,
  List, [], ◌∷◌, ◌++◌, ltb, leb, ◌==◌, if◌then◌else◌, length, get_or, drop,
}

abbrev pub max_apps : ℕ
max_apps = 64

abbrev pub max_app_name_len : ℕ
max_app_name_len = 64

-- `app_entry_t`
pub record Entry : Type 0 where
  pub app_name : List ℕ
  pub remote_path : List ℕ
  pub file_hash : List ℕ
  pub deployed_at : List ℕ

-- `*p`, where 0 is the end of the text.
abbrev pub peek : List ℕ → ℕ
peek p = get_or p 0 0

abbrev pub is_ws : ℕ → Bool
is_ws c = (c == 32) || ((c == 9) || ((c == 10) || (c == 13)))

unfoldable pub skip_ws : List ℕ → List ℕ
skip_ws [] = []
skip_ws (c ∷ p) = let rest = skip_ws p in if is_ws c then rest else c ∷ p

-- The loop of `parse_string` with `room` bytes left: what it stores, and where it stops.
unfoldable pub string_body : ℕ → List ℕ → List ℕ × List ℕ
string_body zero p = ([], p)
string_body (suc room) [] = ([], [])
string_body (suc room) (c ∷ []) = if c == 34 then ([], c ∷ []) else (c ∷ [], [])
string_body (suc room) (c ∷ e ∷ p) =
    let escaped : List ℕ × List ℕ = (let b = string_body room p in (e ∷ b.0, b.1)) in
    let plain : List ℕ × List ℕ = (let b = string_body room (e ∷ p) in (c ∷ b.0, b.1)) in
    if c == 34 then ([], c ∷ e ∷ p) else if c == 92 then escaped else plain

-- `parse_string`; `none` is a null pointer.
unfoldable pub parse_string : ℕ → List ℕ → Option (List ℕ × List ℕ)
parse_string out_size p =
    let q = skip_ws p in
    let b = string_body (out_size - 1) (drop 1 q) in
    if peek q == 34 then some (b.0, if peek b.1 == 34 then drop 1 b.1 else b.1) else none

-- The assignment of a field's value, by its key.
unfoldable pub set_field : List ℕ → List ℕ → Entry → Entry
set_field key value e =
    if streq key (codes "remote_path")
    then record e { remote_path = clip 512 value }
    else if streq key (codes "file_hash")
    then record e { file_hash = clip 65 value }
    else if streq key (codes "deployed_at")
    then record e { deployed_at = clip 32 value }
    else e

-- `while (*p && *p != '}')` over the fields of an app, on fuel. `none` is the read of a null
-- pointer behind the loop, where a key or a value is no string.
unfoldable pub parse_fields : ℕ → Entry → List ℕ → Option (Entry × List ℕ)
parse_fields zero e p = some (e, p)
parse_fields (suc fuel) e p =
    let q = skip_ws p in
    let next = parse_fields fuel e (drop 1 q) in
    let field : Option (Entry × List ℕ) = (elim (parse_string 64 q) [
      | none ↦ none
      | some (key, r) ↦ (elim (peek (skip_ws r) == 58) [
        | false ↦ some (e, skip_ws r)
        | true ↦ (elim (parse_string 512 (drop 1 (skip_ws r))) [
          | none ↦ none
          | some (value, after) ↦ parse_fields fuel (set_field key value e) after
        ])
      ])
    ]) in
    if (peek p == 0) || (peek p == 125)
    then some (e, p)
    else if peek q == 44
    then next
    else if peek q == 125
    then some (e, q)
    else field

abbrev pub blank : Entry
blank = record { app_name = []; remote_path = []; file_hash = []; deployed_at = [] }

-- `while (*p && app_count < MAX_APPS)`, on fuel.
unfoldable pub parse_apps : ℕ → List Entry → List ℕ → Option (List Entry)
parse_apps zero apps p = some apps
parse_apps (suc fuel) apps p =
    let q = skip_ws p in
    let next = parse_apps fuel apps (drop 1 q) in
    let app : Option (List Entry) = (elim (parse_string max_app_name_len q) [
      | none ↦ some apps
      | some (name, r) ↦ (elim (peek (skip_ws r) == 58) [
        | false ↦ some apps
        | true ↦ (elim (peek (skip_ws (drop 1 (skip_ws r))) == 123) [
          | false ↦ some apps
          | true ↦
              (elim (parse_fields fuel (record blank { app_name = name })
                (drop 1 (skip_ws (drop 1 (skip_ws r))))) [
                  | none ↦ none
                  | some (e, after) ↦
                      parse_apps fuel (apps ++ (e ∷ []))
                        (if peek after == 125 then drop 1 after else after)
                ])
        ])
      ])
    ]) in
    if (peek p == 0) || leb max_apps (length apps)
    then some apps
    else if peek q == 125
    then some apps
    else if peek q == 44
    then next
    else app

-- What `load_metadata` puts into the empty cache; `none` is the read of a null pointer. Both loops
-- go forward by at least a byte a round.
unfoldable pub load_metadata : Option (List ℕ) → Option (List Entry)
load_metadata none = some []
load_metadata (some json) =
    let p = skip_ws json in
    if (length json == 0) || ltb (1024 * 1024) (length json)
    then some []
    else if not (peek p == 123)
    then some []
    else parse_apps (length json) [] (drop 1 p)

abbrev pub quoted : List ℕ → List ℕ → List ℕ
quoted s rest = 34 ∷ (s ++ (34 ∷ rest))

-- The lines that `save_metadata` prints for an app, before `rest`.
unfoldable pub entry_text : Entry → List ℕ → List ℕ
entry_text e rest =
    codes "  "
    ++ quoted e.app_name (
        codes ": {"
        ++ (10
            ∷ (codes "    "
                ++ quoted (codes "remote_path") (
                    codes ": "
                    ++ quoted e.remote_path (
                        44
                        ∷ 10
                        ∷ (codes "    "
                            ++ quoted (codes "file_hash") (
                                codes ": "
                                ++ quoted e.file_hash (
                                    44
                                    ∷ 10
                                    ∷ (codes "    "
                                        ++ quoted (codes "deployed_at") (
                                            codes ": "
                                            ++ quoted e.deployed_at
                                                (10 ∷ (codes "  }" ++ rest))))))))))))

unfoldable pub entries_text : List Entry → List ℕ
entries_text [] = codes "}" ++ (10 ∷ [])
entries_text (e ∷ []) = entry_text e (10 ∷ (codes "}" ++ (10 ∷ [])))
entries_text (e ∷ e' ∷ es) = entry_text e (44 ∷ 10 ∷ entries_text (e' ∷ es))

-- The text that `save_metadata` writes.
unfoldable pub metadata_text : List Entry → List ℕ
metadata_text es = 123 ∷ 10 ∷ entries_text es

-- `find_app` on the loaded cache.
unfoldable pub find_app : List ℕ → List Entry → Option Entry
find_app name [] = none
find_app name (e ∷ es) =
    let later = find_app name es in if streq e.app_name name then some e else later

abbrev pub fill : List ℕ → List ℕ → List ℕ → Entry → Entry
fill path hash time e = record e {
  remote_path = clip 512 path;
  file_hash = clip 65 hash;
  deployed_at = clip 32 time;
}

-- The entry that `find_app` points at is filled in place.
unfoldable pub fill_app : List ℕ → (Entry → Entry) → List Entry → List Entry
fill_app name g [] = []
fill_app name g (e ∷ es) =
    let later = fill_app name g es in if streq e.app_name name then g e ∷ es else e ∷ later

-- `app_metadata_save` on the loaded cache: the cache, and whether the file is written; `time` is the
-- formatted time.
unfoldable pub app_metadata_save :
    List ℕ → List ℕ → List ℕ → List ℕ → List Entry → List Entry × Bool
app_metadata_save name path hash time es = elim (find_app name es) [
  | some _ ↦ (fill_app name (fill path hash time) es, true)
  | none ↦ if leb max_apps (length es) then (es, false) else (
    es ++ (fill path hash time (record blank { app_name = clip max_app_name_len name }) ∷ []),
    true,
  )
]

-- `app_metadata_get` with buffers of the fields' sizes; `none` is -1.
unfoldable pub app_metadata_get : List ℕ → List Entry → Option Entry
app_metadata_get name es = find_app name es
