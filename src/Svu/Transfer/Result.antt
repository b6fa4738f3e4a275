-- ===== src/Svu/Transfer/Result.antt =====
-- What `svu_download_file` promises: the file at the destination, and the sidecar it leaves.
use sat_build.Prelude.{
  ℕ, ◌%◌, ◌≤◌, ◌≡◌, refl, sym, ap, ◌∙◌, ◌⊎◌, inl, inr, Bool, true, ◌||◌, not, Option, none, some,
  List, arith, ltb, ◌==◌, if◌then◌else◌, le→ltb, Bool-cases, none≢some, if_none-some, length, take,
  length-take, take_all, u32_mod, All,
}
use mathlib.Core.Path.{subst}
use sat_build.Svu.Tracker.{Tracker}
use sat_build.Svu.Session.Client.{
  Link, Client, Outcome, verified, failed, stop, start_client, client_run,
}
use sat_build.Svu.Session.Client.Keeps.{HonestLink}
use sat_build.Svu.Session.Client.Sound.{IsFile, IsWritten, client_run-IsFile}
use sat_build.Svu.Sidecar.{start_pass, sidecar_restore}
use sat_build.Svu.Sidecar.Mirror.{restore_of_Mirrors}
use sat_build.Svu.Transfer.{
  svu_block_size, svu_max_rounds, call_hooks, check_size, svu_download_file,
}
use sat_build.Svu.Transfer.Keeps.{restore, FollowsFrom, TurnFollows, rounds-Follows}

-- The packet size that a download asks for.
abbrev pub use_mtu : ℕ → ℕ
use_mtu mtu = if mtu == 0 then 1024 else mtu

-- The transfer loop in a download that has a sidecar.
abbrev pub resumed : Option ℕ → ℕ → Option (List ℕ) → List Link → Outcome × Client
resumed outfile mtu disk links =
    client_run outfile svu_block_size (use_mtu mtu) svu_max_rounds
      (sidecar_restore true true (start_pass disk)).1 links

-- What the size check lets through.
abbrev pub SizeFits : ℕ → List ℕ → Type 0
SizeFits expected payload = (expected ≡ 0) ⊎ (length payload % u32_mod ≡ expected)

check_size-eq-some :
    (expected : ℕ) (stats : Bool) (outcome : Outcome) (file : List ℕ)
    → check_size expected stats outcome ≡ some file
    → (payload : List ℕ) × (outcome ≡ verified payload file) × SizeFits expected file
unfolding check_size
check_size-eq-some expected stats failed file e = absurd (none≢some e)
check_size-eq-some expected stats (verified payload bytes) file e =
    let inv = if_none-some _ _ e in
    (payload, ap (verified payload) inv.1, subst (SizeFits expected) inv.1 (ground arith))

module _ (src : List ℕ) where
  -- The unchecked `fwrite` has room for the file, or the caller states the file's size.
  abbrev pub CutIsSeen : Option ℕ → ℕ → Type 0
  CutIsSeen none expected = Unit
  CutIsSeen (some stored) expected = (length src ≤ stored) ⊎ (expected ≡ length src % u32_mod)

  pub size-CutIsSeen :
      (outfile : Option ℕ) (expected : ℕ)
      → expected ≡ length src % u32_mod
      → CutIsSeen outfile expected
  size-CutIsSeen none expected e = tt
  size-CutIsSeen (some stored) expected e = inr e

  -- A file that passes the check of the size is not cut.
  uncut :
      (outfile : Option ℕ) (expected : ℕ) (payload file : List ℕ)
      → CutIsSeen outfile expected
      → IsWritten src outfile payload file
      → SizeFits expected file
      → file ≡ payload
  uncut outfile expected payload file seen w fits =
      w.cut
      ∙ take_all w.stored payload (
          room (subst (λ o. CutIsSeen o expected) w.opens seen)
            (subst (SizeFits expected) w.cut fits))
    where
      room :
          CutIsSeen (some w.stored) expected
          → SizeFits expected (take w.stored payload)
          → length payload ≤ w.stored
      room (inl enough) f = omega (arith, enough, w.size)
      room (inr e) (inl z) = omega (arith, w.size)
      room (inr e) (inr same) =
          omega (arith, same, e, w.size, w.small, length-take w.stored payload)

  -- A download that returns 0 has left the file at the destination, or shows a block with two
  -- contents of one digest, and the size is the expected one if there is one: for every sidecar
  -- that an earlier pass left and every behaviour of the link whose control answers describe the
  -- file, if the unchecked `fwrite` stores at least the file's size, or the expected size is the
  -- file's.
  pub svu_download_file-IsFile :
      (named : Bool) (server_node expected_size mtu : ℕ) (usable : Bool) (disk : Option (List ℕ))
      (outfile : Option ℕ) (stats : Bool) (links : List Link) (file : List ℕ)
      → All (HonestLink src) links
      → CutIsSeen outfile expected_size
      → (svu_download_file named server_node expected_size mtu usable disk outfile stats
          links).result
        ≡ some file
      → IsFile src file × SizeFits expected_size file
  unfolding svu_download_file
  svu_download_file-IsFile named server_node expected_size mtu usable disk outfile stats links file
        h seen e =
      elim (Bool-cases (not named || ltb 65535 server_node)) [
        | inl bad ↦ absurd (none≢some (rw (bad, svu_download_file) at e))
        | inr fine ↦ elim (Bool-cases usable) [
          | inl resumes ↦
              checked (sidecar_restore true true (start_pass disk)).1
                (rw (fine, resumes, svu_download_file) at e)
          | inr alone ↦ checked none (rw (fine, alone, svu_download_file) at e)
        ]
      ]
    where
      checked :
          (seed : Option (List ℕ))
          → check_size expected_size stats
              (client_run outfile svu_block_size (use_mtu mtu) svu_max_rounds seed links).0
            ≡ some file
          → IsFile src file × SizeFits expected_size file
      checked seed q =
          let (payload, done, fits) = check_size-eq-some expected_size stats _ file q in
          let w =
            client_run-IsFile src outfile svu_block_size (use_mtu mtu) svu_max_rounds seed links
              payload file h done in
          (
            subst (IsFile src) (sym (uncut outfile expected_size payload file seen w fits))
                w.is_file,
            fits,
          )

  loop-Follows :
      (mtu : ℕ) (disk : Option (List ℕ)) (outfile : Option ℕ) (links : List Link)
      → All (HonestLink src) links
      → TurnFollows src disk
          (stop (resumed outfile mtu disk links).0 (resumed outfile mtu disk links).1)
  unfolding client_run
  loop-Follows mtu disk outfile links h =
      rounds-Follows src disk outfile svu_max_rounds (use_mtu mtu) svu_block_size
        (start_client (sidecar_restore true true (start_pass disk)).1) links (refl, refl) h

  -- A transfer that fails once it has a tracker leaves a sidecar from which the next pass
  -- restores every byte of the reassembly buffer, over all rounds and drains: for a server
  -- address of 16 bits, every content of the disk at a usable sidecar path, and every behaviour
  -- of the link whose control answers describe the file, if no system call on the sidecar fails.
  pub svu_download_file_resumable :
      (server_node expected_size mtu : ℕ) (disk : Option (List ℕ)) (outfile : Option ℕ)
      (stats : Bool) (links : List Link) (t : Tracker)
      → server_node ≤ 65535
      → All (HonestLink src) links
      → (resumed outfile mtu disk links).0 ≡ failed
      → (resumed outfile mtu disk links).1.recv ≡ some t
      → (sidecar_restore true true (
          start_pass
            (svu_download_file true server_node expected_size mtu true disk outfile stats
              links).sidecar_file)).1
        ≡ some t.payload
  unfolding svu_download_file
  svu_download_file_resumable server_node expected_size mtu disk outfile stats links t s h gave_up
        kept =
      let c = (resumed outfile mtu disk links).1 in
      rw (le→ltb 65535 server_node s) (
        restore_of_Mirrors (call_hooks (restore src disk).0 c.hooked) t (
          subst (λ r. FollowsFrom src disk r c.seed c.hooked) kept
            (subst (λ o. TurnFollows src disk (stop o c)) gave_up
              (loop-Follows mtu disk outfile links h))))

  -- A transfer that is verified and written leaves no sidecar: for a server address of 16 bits,
  -- a usable sidecar path, control answers that describe the file, and system calls on the
  -- sidecar that do not fail.
  pub svu_download_file_clears :
      (server_node expected_size mtu : ℕ) (disk : Option (List ℕ)) (outfile : Option ℕ)
      (stats : Bool) (links : List Link) (payload file : List ℕ)
      → server_node ≤ 65535
      → All (HonestLink src) links
      → (resumed outfile mtu disk links).0 ≡ verified payload file
      → (svu_download_file true server_node expected_size mtu true disk outfile stats
          links).sidecar_file
        ≡ none
  unfolding svu_download_file
  svu_download_file_clears server_node expected_size mtu disk outfile stats links payload file s h
        done =
      let c = (resumed outfile mtu disk links).1 in
      rw (le→ltb 65535 server_node s)
        (subst (λ o. TurnFollows src disk (stop o c)) done (loop-Follows mtu disk outfile links h))
