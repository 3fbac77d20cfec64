-- ===== src/Par2/Repair/Verified.antt =====
-- What is on disk after an installation.
use par2engine.Base.{
  ℕ, zero, suc, ◌-◌, not, if◌then◌else◌, Bool, true, false, Bool-cases, inl, inr, List, [], ◌∷◌,
  length, take, replicate, get_elem?, length-append, length-take, length-replicate, Option, none,
  some, Result, ok, err, refuse, bind_ok, refuse_ok, ok_injective, ◌≡◌, ◌⊎◌, refl, sym, subst, ap,
  ◌∙◌, arith,
}
use par2engine.Par2.Names.{eq_bytes}
use par2engine.Par2.Names.Clean.{eq_bytes_iff}
use par2engine.Par2.FileDesc.{FileDescPacket}
use par2engine.Par2.Repair.Install.{
  File, Failures, InstallError, Installed, contents_of, truncate, check_outputs, rebuilt_files,
  finish_rebuilt_file, finish_rebuilt_files, close_outputs, prepare_rename, rename_files,
  prepare_install, install, wrong_hash, truncate_failed, sync_failed, hash_failed,
}

-- The contents are those that the description tells of.
abbrev pub IsVerified : (List ℕ → List ℕ) → FileDescPacket → List ℕ → Type 0
IsVerified md5 fd bs = (length bs ≡ fd.byte_count) × (md5 bs ≡ fd.hash)

-- Some protected file of the name is verified.
abbrev pub SomeVerified :
    (List ℕ → List ℕ) → List FileDescPacket → List ℕ → Option (List ℕ) → Type 0
SomeVerified md5 [] name found = ⊥
SomeVerified md5 (fd ∷ files) name found =
    ((fd.filename ≡ name) × ((bs : List ℕ) × (found ≡ some bs) × IsVerified md5 fd bs))
    ⊎ SomeVerified md5 files name found

abbrev pair_or :
    FileDescPacket × List ℕ → Option (FileDescPacket × List ℕ) → FileDescPacket × List ℕ
pair_or p none = p
pair_or p (some q) = q

module _ (io : Failures) (md5 : List ℕ → List ℕ) where
  length-truncate : (n : ℕ) (bs : List ℕ) → length (truncate n bs) ≡ n
  length-truncate n bs = omega (
    arith,
    length-append {0} (take n bs) (replicate (n - length bs) 0),
    length-take n bs,
    length-replicate {A = ℕ} (n - length bs) 0,
  )

  -- A finished file has its length and its hash.
  finished_ok :
      (fd : FileDescPacket) (bs got : List ℕ)
      → finish_rebuilt_file io md5 fd bs ≡ ok got
      → (truncate fd.byte_count bs ≡ got) × IsVerified md5 fd got
  unfolding finish_rebuilt_file
  finished_ok fd bs got run =
      let (u1, truncated, run1) =
        bind_ok (refuse (io.truncate_fails fd.filename) truncate_failed) _ got run in
      let (u2, synced, run2) =
        bind_ok (refuse (io.sync_fails fd.filename) sync_failed) _ got run1 in
      let (u3, hashed, run3) =
        bind_ok (refuse (io.read_fails fd.filename) hash_failed) _ got run2 in
      let (u4, tested, run4) =
        bind_ok (refuse (not (eq_bytes (md5 (truncate fd.byte_count bs)) fd.hash)) wrong_hash) _ got
          run3 in
      let same =
        refuse_ok (not (eq_bytes (md5 (truncate fd.byte_count bs)) fd.hash)) wrong_hash u4 tested in
      let e : truncate fd.byte_count bs ≡ got = ok_injective run4 in
      (
        e,
        subst (IsVerified md5 fd) e (
          length-truncate fd.byte_count bs,
          (eq_bytes_iff (md5 (truncate fd.byte_count bs)) fd.hash).0 (passed _ same),
        ),
      )
    where
      passed : (b : Bool) → not b ≡ false → b ≡ true
      passed b h = ground arith

  -- The files are verified, and are some of the protected ones.
  abbrev AllVerified : List FileDescPacket → List (FileDescPacket × List ℕ) → Type 0
  AllVerified files [] = Unit
  AllVerified files ((fd, bs) ∷ rebuilt) =
      ((name : List ℕ) → fd.filename ≡ name → SomeVerified md5 files name (some bs))
      × AllVerified files rebuilt

  more_verified :
      (fd : FileDescPacket) (files : List FileDescPacket) (rebuilt : List (FileDescPacket × List ℕ))
      → AllVerified files rebuilt
      → AllVerified (fd ∷ files) rebuilt
  more_verified fd files [] h = tt
  more_verified fd files ((f, bs) ∷ rebuilt) h =
      (λ name e. inr (h.0 name e), more_verified fd files rebuilt h.1)

  verified_lem :
      (files : List FileDescPacket) (outputs : List File) (rebuilt : List (FileDescPacket × List ℕ))
      → finish_rebuilt_files io md5 (rebuilt_files files outputs) ≡ ok rebuilt
      → AllVerified files rebuilt
  unfolding rebuilt_files finish_rebuilt_files
  verified_lem [] outputs rebuilt run = subst (AllVerified []) (ok_injective run) tt
  verified_lem (fd ∷ files) outputs rebuilt run =
      by_output (contents_of outputs fd.filename) run (verified_lem files outputs)
    where
      by_output :
          (found : Option (List ℕ))
          → finish_rebuilt_files io md5 (elim found [
            | none ↦ rebuilt_files files outputs
            | some bs ↦ (fd, bs) ∷ rebuilt_files files outputs
          ])
            ≡ ok rebuilt
          → ((rest : List (FileDescPacket × List ℕ))
              → finish_rebuilt_files io md5 (rebuilt_files files outputs) ≡ ok rest
              → AllVerified files rest)
          → AllVerified (fd ∷ files) rebuilt
      by_output none h ih = more_verified fd files rebuilt (ih rebuilt h)
      by_output (some bs) h ih =
          let (got, finished, h') = bind_ok (finish_rebuilt_file io md5 fd bs) _ rebuilt h in
          let (rest, others, e) =
            bind_ok (finish_rebuilt_files io md5 (rebuilt_files files outputs)) _ rebuilt h' in
          subst (AllVerified (fd ∷ files)) (ok_injective e) (
            λ name same. inl (same, (got, refl, (finished_ok fd bs got finished).1)),
            more_verified fd files rest (ih rest others),
          )

  -- What is under the name is as before, or a verified file.
  abbrev Kept : List FileDescPacket → List File → List ℕ → Installed → Type 0
  Kept files disk name r =
      (contents_of r.disk name ≡ contents_of disk name)
      ⊎ SomeVerified md5 files name (contents_of r.disk name)

  Kept-either :
      (files : List FileDescPacket) (disk : List File) (name : List ℕ)
      (p : Result InstallError (Unit {0})) (rest : Installed)
      → Kept files disk name rest
      → Kept files disk name
          (elim p [ err e ↦ record { disk = disk; error = some e } | ok u ↦ rest ])
  Kept-either files disk name (ok u) rest h = h
  Kept-either files disk name (err e) rest h = inl refl

  kept_under :
      (files : List FileDescPacket) (disk : List File) (name target bs : List ℕ)
      (found : Option (List ℕ))
      → (target ≡ name → SomeVerified md5 files name (some bs))
      → (found ≡ contents_of (record { name = target; contents = bs } ∷ disk) name)
      → (found ≡ contents_of disk name) ⊎ SomeVerified md5 files name found
  unfolding contents_of
  kept_under files disk name target bs found h same = elim (Bool-cases (eq_bytes target name)) [
    | inl here ↦ inr (
        subst (SomeVerified md5 files name) (sym (same ∙ put here))
          (h ((eq_bytes_iff target name).0 here)))
    | inr other ↦ inl (same ∙ past other)
  ]
    where
      put :
          eq_bytes target name ≡ true
          → (if eq_bytes target name then some bs else contents_of disk name) ≡ some bs
      put here = rw here

      past :
          eq_bytes target name ≡ false
          → (if eq_bytes target name then some bs else contents_of disk name)
            ≡ contents_of disk name
      past other = rw other

  renamed_lem :
      (files : List FileDescPacket) (rebuilt : List (FileDescPacket × List ℕ)) (disk : List File)
      (name : List ℕ)
      → AllVerified files rebuilt
      → Kept files disk name (rename_files io md5 rebuilt disk)
  unfolding rename_files
  renamed_lem files [] disk name h = inl refl
  renamed_lem files ((fd, bs) ∷ rebuilt) disk name h =
      let disk' = record { name = fd.filename; contents = bs } ∷ disk in
      Kept-either files disk name (prepare_rename io md5 disk fd.filename)
        (rename_files io md5 rebuilt disk')
        (elim (renamed_lem files rebuilt disk' name h.1) [
          | inl same ↦ kept_under files disk name fd.filename bs _ (h.0 name) same
          | inr verified ↦ inr verified
        ])

  -- After `install`, whether it returns an error or not, whichever operations fail and for any hash
  -- function, what is under a name is what was there before, or it has the byte count and the hash
  -- of some protected file of that name.
  pub install-safe :
      (needs_write : List (List ℕ)) (files : List FileDescPacket) (outputs disk : List File)
      (name : List ℕ)
      → (contents_of (install io md5 needs_write files outputs disk).disk name
          ≡ contents_of disk name)
        ⊎ SomeVerified md5 files name
            (contents_of (install io md5 needs_write files outputs disk).disk name)
  unfolding install prepare_install
  install-safe needs_write files outputs disk name =
      by_prepared (prepare_install io md5 needs_write files outputs) (λ rebuilt run.
        let (u, checked, run') = bind_ok (check_outputs needs_write outputs) _ rebuilt run in
        let (finished, all, run'') =
          bind_ok (finish_rebuilt_files io md5 (rebuilt_files files outputs)) _ rebuilt run' in
        let (v, closed, e) = bind_ok (close_outputs io md5 outputs) _ rebuilt run'' in
        subst (AllVerified files) (ok_injective e) (verified_lem files outputs finished all))
    where
      by_prepared :
          (p : Result InstallError (List (FileDescPacket × List ℕ)))
          → ((rebuilt : List (FileDescPacket × List ℕ))
              → p ≡ ok rebuilt
              → AllVerified files rebuilt)
          → Kept files disk name (elim p [
            | err e ↦ record { disk = disk; error = some e }
            | ok rebuilt ↦ rename_files io md5 rebuilt disk
          ])
      by_prepared (err e) h = inl refl
      by_prepared (ok rebuilt) h = renamed_lem files rebuilt disk name (h rebuilt refl)

  -- The rebuilt file at some place fails its hash.
  mismatch_err :
      (rebuilt : List (FileDescPacket × List ℕ)) (i : ℕ) (fd : FileDescPacket) (bs : List ℕ)
      (result : List (FileDescPacket × List ℕ))
      → get_elem? rebuilt i ≡ some (fd, bs)
      → (md5 (truncate fd.byte_count bs) ≡ fd.hash → ⊥)
      → finish_rebuilt_files io md5 rebuilt ≡ ok result
      → ⊥
  unfolding finish_rebuilt_files
  mismatch_err [] i fd bs result there wrong run = absurd (ground (arith, there))
  mismatch_err ((f, cs) ∷ rebuilt) zero fd bs result there wrong run =
      let (got, finished, run') = bind_ok (finish_rebuilt_file io md5 f cs) _ result run in
      let done = finished_ok f cs got finished in
      wrong (
        subst (λ (q : FileDescPacket × List ℕ). md5 (truncate q.0.byte_count q.1) ≡ q.0.hash)
          (ap (pair_or (f, cs)) there) (ap md5 done.0 ∙ done.1.1))
  mismatch_err ((f, cs) ∷ rebuilt) (suc i) fd bs result there wrong run =
      let (got, finished, run') = bind_ok (finish_rebuilt_file io md5 f cs) _ result run in
      let (rest, others, e) = bind_ok (finish_rebuilt_files io md5 rebuilt) _ result run' in
      mismatch_err rebuilt i fd bs rest there wrong others

  -- Where a rebuilt file, truncated to the byte count of its description, does not have the hash of
  -- it, `install` returns an error and leaves the directory as it was, whatever the other files
  -- are.
  pub install-mismatch :
      (needs_write : List (List ℕ)) (files : List FileDescPacket) (outputs disk : List File) (i : ℕ)
      (fd : FileDescPacket) (bs : List ℕ)
      → get_elem? (rebuilt_files files outputs) i ≡ some (fd, bs)
      → (md5 (truncate fd.byte_count bs) ≡ fd.hash → ⊥)
      → (e : InstallError) × (install io md5 needs_write files outputs disk
          ≡ record { disk = disk; error = some e })
  unfolding install prepare_install
  install-mismatch needs_write files outputs disk i fd bs there wrong =
      by_prepared (prepare_install io md5 needs_write files outputs) (λ rebuilt run.
        let (u, checked, run') = bind_ok (check_outputs needs_write outputs) _ rebuilt run in
        let (finished, all, run'') =
          bind_ok (finish_rebuilt_files io md5 (rebuilt_files files outputs)) _ rebuilt run' in
        mismatch_err (rebuilt_files files outputs) i fd bs finished there wrong all)
    where
      by_prepared :
          (p : Result InstallError (List (FileDescPacket × List ℕ)))
          → ((rebuilt : List (FileDescPacket × List ℕ)) → p ≡ ok rebuilt → ⊥)
          → (e : InstallError) × ((elim p [
            | err e ↦ record { disk = disk; error = some e }
            | ok rebuilt ↦ rename_files io md5 rebuilt disk
          ])
              ≡ record { disk = disk; error = some e })
      by_prepared (err e) h = (e, refl)
      by_prepared (ok rebuilt) h = absurd (h rebuilt refl)
