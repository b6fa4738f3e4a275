-- ===== src/SessionState/Tests.antt =====
-- Paths and state files at concrete inputs.
use sat_build.Prelude.{ℕ, ◌≡◌, refl, true, none, some, List, [], ◌∷◌, ◌++◌, arith}
use sat_build.SessionState.{
  session_state_dir, session_svu_ext, app_name_is_safe, has_dots, no_unsafe, path_with,
  session_state_svu_path, state_bytes, session_state_save, session_state_load,
}
use sat_build.SessionState.Saved.{IsState, load-save}

abbrev app : List ℕ
app = 97 ∷ 46 ∷ 112 ∷ []

abbrev app_path : List ℕ
app_path = session_state_dir ++ (47 ∷ (app ++ session_svu_ext))

app_found : session_state_svu_path app 640 ≡ some app_path
unfolding session_state_svu_path path_with app_name_is_safe has_dots no_unsafe
app_found = refl

-- ".." is refused.
dots_refused : session_state_svu_path (46 ∷ 46 ∷ []) 640 ≡ none
unfolding session_state_svu_path path_with app_name_is_safe has_dots no_unsafe
dots_refused = refl

abbrev five : ℕ
five = 5

abbrev hash : List ℕ
hash = 97 ∷ 98 ∷ []

hash-IsState : IsState five hash 2 1024
hash-IsState = record {
  size_lt = omega arith;
  packets_lt = omega arith;
  mtu_lt = omega arith;
  hash_le = omega arith;
  hash_text = (ground arith, (ground arith, tt));
}

saved :
    session_state_save true true true 40 none five hash 2 1024 (3 ∷ [])
    ≡ (some (state_bytes five hash 2 1024 (3 ∷ [])), true)
unfolding session_state_save
saved = refl

load-save_example :
    session_state_load (some (state_bytes five hash 2 1024 (3 ∷ []))) five hash 2 1024 1
    ≡ (some (state_bytes five hash 2 1024 (3 ∷ [])), some (3 ∷ []))
load-save_example = load-save five hash 2 1024 (3 ∷ []) 40 none hash-IsState saved

loaded :
    session_state_load (some (state_bytes five hash 2 1024 (3 ∷ []))) five hash 2 1024 1
    ≡ (some (state_bytes five hash 2 1024 (3 ∷ [])), some (3 ∷ []))
loaded = load-save five hash 2 1024 (3 ∷ []) 40 none hash-IsState saved

abbrev two : ℕ
two = 2

abbrev thousand : ℕ
thousand = 1024
