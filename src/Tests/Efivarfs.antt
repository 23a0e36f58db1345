-- ===== src/Tests/Efivarfs.antt =====
-- A directory of files as a function, and two variables in it.
use eos_payg.Base.{
  ℕ, ◌-◌, ◌≡◌, ◌≢◌, ltb, refl, true, false, Option, none, some, List, [], ◌∷◌, ◌&&◌, length, take,
  drop, if◌then◌else◌, arith,
}
use eos_payg.Efi.{
  Name, same_name, Efi, var_write, var_read, var_exists, eospayg_efi_name, full_efi_name,
}
use eos_payg.Efi.Names.{same_name_refl, other_name}
use eos_payg.Efi.Guards.{Access, accesses}
use eos_payg.Efi.Efivarfs.{Kernel, pk_size, opened, missing, efivarfs_ops, efivarfs_write}
use eos_payg.Efi.Efivarfs.Contents.{Documented, IsReliable}
use eos_payg.Base.Strings.{bytes}
use eos_payg.Efi.Init.{
  Opens, initial_globals, efi_init, efi_var_supported, efi_init-efi_var_supported,
}
use eos_payg.Efi.Boot.{global_variable_guid, efi_variables}
use eos_payg.Efi.Efivarfs.Sizes.{pk_size_lem}
use eos_payg.Efi.Efivarfs.Flags.{is_flag_set, is_there}
use eos_payg.Daemon.{Host, decide}
use eos_payg.Daemon.Firmware.{secure_boot_file, decide-contents}
use eos_payg.Tests.Daemon.{host}
use eos_payg.Efi.Efivarfs.Variables.{accesses-foreign, accesses-late, var_exists-var_read-var_write}

abbrev Files : Type 0
Files = Name → Option (List ℕ)

abbrev put : Name → Option (List ℕ) → Files → Files
put name bytes f other = if same_name name other then bytes else f other

abbrev kernel : Kernel Files
kernel = record {
  openat_read = λ name f. if is_there (f name) then opened else missing;
  openat_write = λ name excl f.
      if is_there (f name)
      then (if excl then (f, false) else (f, true))
      else (put name (some []) f, true);
  getflags = λ name f. true;
  setflags = λ name f. (f, true);
  read = λ name offset count f. elim (f name) [
    | none ↦ none
    | some bytes ↦ some (take count (drop offset bytes))
  ];
  fstat = λ name f. elim (f name) [ none ↦ none | some bytes ↦ some (length bytes) ];
  write = λ name buffer f. (put name (some buffer) f, some (length buffer));
  unlinkat = λ name f. if is_there (f name) then (put name none f, true) else (f, false);
  faccessat = λ name f. is_there (f name);
}

put_same : (name : Name) (bytes : Option (List ℕ)) (f : Files) → put name bytes f name ≡ bytes
put_same name bytes f = simp (same_name_refl name) refl

put_other :
    (name other : Name) (bytes : Option (List ℕ)) (f : Files)
    → name ≢ other
    → put name bytes f other ≡ f other
put_other name other bytes f differs = simp (other_name name other differs) refl

there_some : (o : Option (List ℕ)) → is_there o ≡ true → (bytes : List ℕ) × (o ≡ some bytes)
there_some none h = absurd (ground arith)
there_some (some bytes) h = (bytes, refl)

documented : Documented kernel
documented = record {
  contents = λ name f. f name;
  openat_read_opened = λ name f h. there_some (f name) (ground (arith, h));
  openat_read_missing = λ name f h. ground (arith, h);
  read_bytes = λ name offset count f bytes bs there done. ground (arith, there, done);
  fstat_size = λ name f bytes size there done. ground (arith, there, done);
  setflags_keeps = λ name other f. refl;
  openat_write_excl = λ name f h. ground (arith, h);
  openat_write_others =
      λ name other excl f differs. ground (arith, put_other name other (some []) f differs);
  openat_write_refused = λ name excl f h. ground (arith, h);
  write_whole = λ name buffer f ret h whole. put_same name (some buffer) f;
  write_others = λ name other buffer f differs. put_other name other (some buffer) f differs;
  unlinkat_done = λ name f h. ground (arith, h, put_same name none f);
  unlinkat_others = λ name other f differs. ground (arith, put_other name other none f differs);
  faccessat_exists = λ name f h. there_some (f name) h;
}

reliable : IsReliable kernel documented
unfolding documented
reliable = record {
  opens = λ name f bytes there. ground (arith, there);
  reads = λ name offset count f bytes there. ground (arith, there);
  sizes = λ name f bytes there. ground (arith, there);
  accesses = λ name f bytes there. ground (arith, there);
}

-- "active", and a file with a byte for its content.
abbrev active : Name
active = b'a' ∷ b'c' ∷ b't' ∷ b'i' ∷ b'v' ∷ b'e' ∷ []

abbrev no_files : Efi (efivarfs_ops kernel)
no_files = record { store = λ name. none; post_pivot = false }

abbrev pk : Name
pk = b'P' ∷ b'K' ∷ []

abbrev one_file : Efi (efivarfs_ops kernel)
one_file = record {
  store = put pk (some (7 ∷ 0 ∷ 0 ∷ 0 ∷ 9 ∷ [])) (λ name. none);
  post_pivot = true;
}

accesses-foreign_example :
    documented.contents pk
      (accesses
        (efivarfs_ops kernel)
        (Access.write active (1 ∷ []) ∷ Access.delete_fullname pk ∷ [])
        no_files).store
    ≡ none
unfolding documented
accesses-foreign_example =
    accesses-foreign kernel documented
      (Access.write active (1 ∷ []) ∷ Access.delete_fullname pk ∷ []) no_files pk refl

accesses-late_example :
    documented.contents pk
      (accesses
        (efivarfs_ops kernel)
        (Access.write active (1 ∷ []) ∷ Access.overwrite active (2 ∷ []) ∷ [])
        one_file).store
    ≡ some (7 ∷ 0 ∷ 0 ∷ 0 ∷ 9 ∷ [])
unfolding documented
accesses-late_example =
    accesses-late kernel documented
      (Access.write active (1 ∷ []) ∷ Access.overwrite active (2 ∷ []) ∷ []) one_file pk
      (7 ∷ 0 ∷ 0 ∷ 0 ∷ 9 ∷ []) refl refl refl

wrote : (var_write (efivarfs_ops kernel) active (1 ∷ []) no_files).1 ≡ true
unfolding var_write efivarfs_write
wrote = refl

var_exists-var_read-var_write_example :
    let e' = (var_write (efivarfs_ops kernel) active (1 ∷ []) no_files).0 in
    (var_exists (efivarfs_ops kernel) active e' ≡ true)
    × (var_read (efivarfs_ops kernel) active (some 1) e' ≡ some (1 ∷ []))
var_exists-var_read-var_write_example =
    var_exists-var_read-var_write kernel documented reliable active 1 [] (some 1) no_files refl
      wrote

-- A firmware with secure boot on and EOSPAYG_active set.
abbrev booted : Efi (efivarfs_ops kernel)
booted = record {
  store =
      put (full_efi_name global_variable_guid (bytes "SecureBoot")) (some (6 ∷ 0 ∷ 0 ∷ 0 ∷ 1 ∷ []))
        (put (eospayg_efi_name (bytes "active")) (some (7 ∷ 0 ∷ 0 ∷ 0 ∷ 1 ∷ [])) (λ name. none));
  post_pivot = false;
}

abbrev booted_host : Host
booted_host = record host { variables = efi_variables (efivarfs_ops kernel) 0 booted }

decide-contents_example : (decide (efivarfs_ops kernel) booted_host booted).enforcing_mode ≡ (
    is_flag_set (documented.contents (secure_boot_file kernel documented reliable) booted.store)
    && is_there (documented.contents (eospayg_efi_name (bytes "active")) booted.store))
unfolding documented full_efi_name eospayg_efi_name
decide-contents_example =
    decide-contents kernel documented reliable booted_host booted 0 refl refl refl refl

efi_init-efi_var_supported_example :
    let o : Opens = record { first = true; second = false; stream = true } in
    let first = efi_init false o initial_globals in
    let second = efi_init false o first.0 in
    (first.1 ≡ false) × (efi_var_supported first.0 ≡ first.1) × (second ≡ (first.0, true))
efi_init-efi_var_supported_example =
    efi_init-efi_var_supported false false (record { first = true; second = false; stream = true })
      (record { first = true; second = false; stream = true })

pk_size_lem_example :
    (documented.contents pk one_file.store ≡ none → pk_size kernel false pk one_file.store ≡ none)
    × ((bytes' : List ℕ)
        → documented.contents pk one_file.store ≡ some bytes'
        → pk_size kernel false pk one_file.store
          ≡ (if ltb (length bytes') 4 then none else some (length bytes' - 4)))
pk_size_lem_example = pk_size_lem kernel documented reliable pk one_file.store
