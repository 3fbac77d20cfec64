-- ===== src/Par2/Repair/Install.antt =====
-- par2/repair.go: the rebuilt files take the place of the damaged ones. The directory and the temp
-- files are association lists from names to contents; a temp file is listed under its target. Which
-- operations of the operating system fail is a parameter. Protected files are taken to have different
-- names, so that each goroutine has a temp file of its own, and handles are closed in the order of the
-- list. Permissions are left out.
use par2engine.Base.{
  ℕ, ◌-◌, not, ◌&&◌, if◌then◌else◌, Bool, true, false, List, [], ◌∷◌, ◌++◌, length, take, replicate,
  Option, none, some, Result, ok, err, ◌>>=◌, ◌>>◌, refuse,
}
use par2engine.Par2.Names.{eq_bytes}
use par2engine.Par2.FileDesc.{FileDescPacket}

pub record File : Type 0 where
  pub name : List ℕ
  pub contents : List ℕ

-- The operations that may fail, each on the file of some name. That a file does not exist is no
-- failure of `Stat` here.
pub record Failures : Type 0 where
  pub truncate_fails : List ℕ → Bool
  pub sync_fails : List ℕ → Bool
  pub read_fails : List ℕ → Bool
  pub close_fails : List ℕ → Bool
  pub stat_fails : List ℕ → Bool
  pub chmod_fails : List ℕ → Bool
  pub rename_fails : List ℕ → Bool

pub data InstallError : Type 0 where
  no_output truncate_failed sync_failed hash_failed wrong_hash : InstallError
  close_failed chmod_failed stat_failed rename_failed : InstallError

-- What is under a name.
unfoldable pub contents_of : List File → List ℕ → Option (List ℕ)
contents_of [] name = none
contents_of (f ∷ files) name =
    let rest = contents_of files name in if eq_bytes f.name name then some f.contents else rest

abbrev pub is_there : Option (List ℕ) → Bool
is_there none = false
is_there (some bs) = true

-- `Truncate`, which makes a shorter file longer.
abbrev pub truncate : ℕ → List ℕ → List ℕ
truncate n bs = take n bs ++ replicate (n - length bs) 0

-- What `install` leaves: the directory, and the error if there is one.
pub record Installed : Type 0 where
  pub disk : List File
  pub error : Option InstallError

-- `needsWrite` against the outputs.
unfoldable pub check_outputs : List (List ℕ) → List File → Result InstallError (Unit {0})
check_outputs [] outputs = ok tt
check_outputs (target ∷ targets) outputs = do
  refuse (not (is_there (contents_of outputs target))) no_output
  check_outputs targets outputs

-- The protected files that have an output, with what is in it.
unfoldable pub rebuilt_files : List FileDescPacket → List File → List (FileDescPacket × List ℕ)
rebuilt_files [] outputs = []
rebuilt_files (fd ∷ files) outputs = elim (contents_of outputs fd.filename) [
  | none ↦ rebuilt_files files outputs
  | some bs ↦ (fd, bs) ∷ rebuilt_files files outputs
]

module _ (io : Failures) (md5 : List ℕ → List ℕ) where
  -- `finishRebuiltFile`, which returns what is left in the temp file.
  unfoldable pub finish_rebuilt_file : FileDescPacket → List ℕ → Result InstallError (List ℕ)
  finish_rebuilt_file fd bs =
      let got = truncate fd.byte_count bs in
      refuse (io.truncate_fails fd.filename) truncate_failed
      >> (refuse (io.sync_fails fd.filename) sync_failed
          >> (refuse (io.read_fails fd.filename) hash_failed
              >> (refuse (not (eq_bytes (md5 got) fd.hash)) wrong_hash >> ok got)))

  -- `finishRebuiltFiles`; each error is kept by `errors.Join`, the first one here.
  unfoldable pub finish_rebuilt_files :
      List (FileDescPacket × List ℕ) → Result InstallError (List (FileDescPacket × List ℕ))
  finish_rebuilt_files [] = ok []
  finish_rebuilt_files ((fd, bs) ∷ rebuilt) = do
    got ← finish_rebuilt_file fd bs
    rest ← finish_rebuilt_files rebuilt
    ok ((fd, got) ∷ rest)

  unfoldable pub close_outputs : List File → Result InstallError (Unit {0})
  close_outputs [] = ok tt
  close_outputs (f ∷ outputs) = do
    refuse (io.close_fails f.name) close_failed
    close_outputs outputs

  -- The checks before a rename.
  unfoldable pub prepare_rename : List File → List ℕ → Result InstallError (Unit {0})
  prepare_rename disk name =
      refuse (io.stat_fails name) stat_failed
      >> (refuse (is_there (contents_of disk name) && io.chmod_fails name) chmod_failed
          >> refuse (io.rename_fails name) rename_failed)

  -- The renames, one file at a time.
  unfoldable pub rename_files : List (FileDescPacket × List ℕ) → List File → Installed
  rename_files [] disk = record { disk = disk; error = none }
  rename_files ((fd, bs) ∷ rebuilt) disk =
      let rest = rename_files rebuilt (record { name = fd.filename; contents = bs } ∷ disk) in
      elim (prepare_rename disk fd.filename) [
        | err e ↦ record { disk = disk; error = some e }
        | ok u ↦ rest
      ]

  -- What comes before the renames.
  unfoldable pub prepare_install :
      List (List ℕ)
      → List FileDescPacket
      → List File
      → Result InstallError (List (FileDescPacket × List ℕ))
  prepare_install needs_write protected_files outputs = do
    check_outputs needs_write outputs
    rebuilt ← finish_rebuilt_files (rebuilt_files protected_files outputs)
    close_outputs outputs
    ok rebuilt

  -- `install`
  unfoldable pub install : List (List ℕ) → List FileDescPacket → List File → List File → Installed
  install needs_write protected_files outputs disk =
      elim (prepare_install needs_write protected_files outputs) [
        | err e ↦ record { disk = disk; error = some e }
        | ok rebuilt ↦ rename_files rebuilt disk
      ]
