-- ===== src/Ground/Commands/Restored.antt =====
-- The hash that `satdeploy_rollback_cmd` records is that of the agent's name for the backup.
use sat_build.Prelude.{
  has_suffix-append, has_suffix, ℕ, suc, ◌+◌, ◌-◌, ◌<◌, ◌≡◌, refl, ◌≢◌, true, some, List, [], ◌∷◌,
  ◌++◌, arith, lt→ltb, length, drop, length-append, take-append, take_all, All-append,
}
use sat_build.Agent.Backups.{max_path_len, dot_bak, join, backup_name}
use sat_build.Ground.AppName.{strrchr, base_of}
use sat_build.Ground.AppName.Laws.{Lacks, strrchr-append, base_of_path}
use sat_build.Ground.Commands.{restored_hash}
use mathlib.Core.List.{append_assoc}

-- The two ends of a backup's name.
suffix_of_name : (stamp hash : List ℕ) → has_suffix (backup_name stamp hash) dot_bak ≡ true
suffix_of_name stamp hash =
    rw (← append_assoc stamp (45 ∷ hash) dot_bak) (has_suffix-append (stamp ++ (45 ∷ hash)) dot_bak)

dash_of_name :
    (stamp hash : List ℕ)
    → Lacks 45 hash
    → strrchr 45 (backup_name stamp hash) ≡ some (length stamp)
dash_of_name stamp hash lacks =
    strrchr-append 45 stamp (hash ++ dot_bak)
      (All-append (λ x. x ≢ 45) hash dot_bak lacks (omega arith))

length_of_name :
    (stamp hash : List ℕ) → length (backup_name stamp hash) ≡ length stamp + 1 + length hash + 4
length_of_name stamp hash =
    omega (arith, length-append stamp (45 ∷ (hash ++ dot_bak)), length-append hash dot_bak)

behind_dash :
    (stamp hash : List ℕ) → drop (suc (length stamp)) (backup_name stamp hash) ≡ hash ++ dot_bak
behind_dash [] hash = refl
behind_dash (x ∷ stamp) hash = behind_dash stamp hash

-- Taken out of the path that the agent gives a backup, the hash is the one that the agent put there,
-- where it has at most 64 bytes and neither a dash nor a slash, as the time in the name has no slash,
-- and the path fits the agent's buffer.
pub restored_hash-join :
    (dir stamp hash : List ℕ)
    → 0 < length hash
    → length hash < 65
    → Lacks 45 hash
    → Lacks 47 (backup_name stamp hash)
    → length (dir ++ (47 ∷ backup_name stamp hash)) < max_path_len
    → restored_hash (join dir (backup_name stamp hash)) ≡ hash
unfolding restored_hash
restored_hash-join dir stamp hash pos small no_dash no_slash fits =
    let n = length_of_name stamp hash in
    let cut : length (backup_name stamp hash) - 4 - suc (length stamp) ≡ length hash =
      omega (arith, n) in
    let whole : base_of (join dir (backup_name stamp hash)) ≡ backup_name stamp hash =
      rw (take_all (max_path_len - 1) (dir ++ (47 ∷ backup_name stamp hash)) (omega arith))
        (base_of_path dir (backup_name stamp hash) no_slash) in
    rw (whole, restored_hash, dash_of_name stamp hash no_dash)
      (rw
        (
          whole,
          suffix_of_name stamp hash,
          cut,
          lt→ltb 4 (length (backup_name stamp hash)) (omega (arith, n)),
          lt→ltb 0 (length hash) pos,
          lt→ltb (length hash) 65 small,
          behind_dash stamp hash,
        )
        (take-append hash dot_bak))
