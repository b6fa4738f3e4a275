-- ===== src/SessionState.antt =====
-- satdeploy-agent/src/session_state.c: the path and the file of a transfer's persisted state. A
-- string is the list of its bytes before the NUL; the file's words are little-endian, as `fwrite`
-- stores them on the agent's processors.
pub mod Paths
pub mod Saved
mod Tests
use sat_build.Prelude.{
  zeros, ℕ, zero, suc, ◌+◌, ◌-◌, ◌*◌, ◌/◌, ◌%◌, ◌^◌, Bool, true, false, ◌&&◌, ◌||◌, not, Option,
  none, some, List, [], ◌∷◌, ◌++◌, ltb, leb, ◌==◌, if◌then◌else◌, length, get_or, take, drop,
}
use sat_build.Svu.Wire.{put32, get32}
use sat_build.Svu.Tracker.{same_bytes}

-- `strstr (name, "..") != NULL`
unfoldable pub has_dots : List ℕ → Bool
has_dots [] = false
has_dots (a ∷ rest) = let later = has_dots rest in ((a == 46) && (get_or rest 0 0 == 46)) || later

-- The test of the loop of `app_name_is_safe`.
abbrev pub is_unsafe : ℕ → Bool
is_unsafe c = (c == 47) || ((c == 92) || ltb c 0x20)

unfoldable pub no_unsafe : List ℕ → Bool
no_unsafe [] = true
no_unsafe (c ∷ rest) = let later = no_unsafe rest in if is_unsafe c then false else later

-- `app_name_is_safe`
unfoldable pub app_name_is_safe : List ℕ → Bool
app_name_is_safe name =
    if length name == 0 then false else if has_dots name then false else no_unsafe name

-- "/var/lib/satdeploy/state"
abbrev pub session_state_dir : List ℕ
session_state_dir =
    47 ∷ 118 ∷ 97 ∷ 114 ∷ 47 ∷ 108 ∷ 105 ∷ 98 ∷ 47 ∷ 115 ∷ 97 ∷ 116 ∷ 100 ∷ 101 ∷ 112 ∷ 108 ∷ 111
    ∷ 121 ∷ 47 ∷ 115 ∷ 116 ∷ 97 ∷ 116 ∷ 101 ∷ []

-- ".dtpstate" and ".svupart"
abbrev pub session_state_ext : List ℕ
session_state_ext = 46 ∷ 100 ∷ 116 ∷ 112 ∷ 115 ∷ 116 ∷ 97 ∷ 116 ∷ 101 ∷ []

abbrev pub session_svu_ext : List ℕ
session_svu_ext = 46 ∷ 115 ∷ 118 ∷ 117 ∷ 112 ∷ 97 ∷ 114 ∷ 116 ∷ []

-- `snprintf (out, out_size, "%s/%s%s", ...)` for a safe name; `none` is -1.
unfoldable pub path_with : List ℕ → List ℕ → ℕ → Option (List ℕ)
path_with ext name out_size =
    let path = session_state_dir ++ (47 ∷ (name ++ ext)) in
    if (out_size == 0) || not (app_name_is_safe name)
    then none
    else if leb out_size (length path)
    then none
    else some path

unfoldable pub session_state_path : List ℕ → ℕ → Option (List ℕ)
session_state_path name out_size = path_with session_state_ext name out_size

unfoldable pub session_state_svu_path : List ℕ → ℕ → Option (List ℕ)
session_state_svu_path name out_size = path_with session_svu_ext name out_size

abbrev pub format_version : ℕ
format_version = 1

-- `hash_buf`: 65 bytes, zero behind the first 64 of the string.
abbrev pub hash_buf : List ℕ → List ℕ
hash_buf hash = take 64 hash ++ zeros (65 - length (take 64 hash))

abbrev pub put16 : ℕ → List ℕ
put16 v = v % 256 ∷ v / 2 ^ 8 % 256 ∷ []

unfoldable pub get16 : List ℕ → ℕ
get16 (a ∷ b ∷ _) = a + b * 2 ^ 8
get16 _ = 0

-- What the `fwrite` calls of `session_state_save` store.
unfoldable pub state_bytes : ℕ → List ℕ → ℕ → ℕ → List ℕ → List ℕ
state_bytes size hash packets mtu bitmap =
    put32 format_version
    ++ (put32 size ++ (hash_buf hash ++ (put32 packets ++ (put16 mtu ++ (put16 0 ++ bitmap)))))

-- `session_state_save`: the file at the path, and success. The outcomes are those of
-- `session_state_dir_ensure` and `fopen`, of the writes, and of `rename`; the path has
-- `path_len` bytes.
unfoldable pub session_state_save :
    Bool → Bool → Bool → ℕ → Option (List ℕ) → ℕ → List ℕ → ℕ → ℕ → List ℕ → Option (List ℕ) × Bool
session_state_save opens writes renames path_len disk size hash packets mtu bitmap =
    if leb 640 (path_len + 4) || not (opens && (writes && renames))
    then (disk, false)
    else (some (state_bytes size hash packets mtu bitmap), true)

-- The string in a buffer of 65 bytes whose last one was set to NUL.
unfoldable pub string_in : ℕ → List ℕ → List ℕ
string_in zero buf = []
string_in (suc n) [] = []
string_in (suc n) (c ∷ buf) = let rest = string_in n buf in if c == 0 then [] else c ∷ rest

-- The tests of `session_state_load` on the header.
unfoldable pub header_fits : List ℕ → ℕ → List ℕ → ℕ → ℕ → Bool
header_fits file size hash packets mtu =
    let behind = drop 65 (drop 8 file) in
    leb 81 (length file)
    && ((get32 file == format_version)
        && (same_bytes (string_in 64 (drop 8 file)) hash
            && ((get32 (drop 4 file) == size)
                && ((get32 behind == packets) && (get16 (drop 4 behind) == mtu)))))

-- `session_state_load`: the file at the path, and the bitmap where the result is 1. A file that
-- does not fit is removed.
unfoldable pub session_state_load :
    Option (List ℕ) → ℕ → List ℕ → ℕ → ℕ → ℕ → Option (List ℕ) × Option (List ℕ)
session_state_load none size hash packets mtu bitmap_bytes = (none, none)
session_state_load (some file) size hash packets mtu bitmap_bytes =
    let bitmap = take bitmap_bytes (drop 8 (drop 65 (drop 8 file))) in
    if not (header_fits file size hash packets mtu)
    then (none, none)
    else if not (length bitmap == bitmap_bytes)
    then (none, none)
    else (some file, some bitmap)
