-- ===== src/Auth/Keys/Torn.antt =====
-- A key file of auth/src/keys.rs that holds no key.
use kaguya.Base.{
  String, Option, none, some, List, [], ◌∷◌, ok, err, ◌≡◌, arith, refl, eq_refl, ap, ◌∙◌, inl, inr,
  Option-cases,
}
use kaguya.Auth.Crates.{Crates}
use kaguya.Auth.Keys.Files.{
  Fault, next_fault, rsa_bits, Machine, key_path, create_dir_all, exists, read_to_string, write,
  generate_pem, from_pkcs8_pem, load_or_generate, boot,
}

module _ (c : Crates) where
  open c use {World, PrivateKey, generate, to_pkcs8_pem, from_pkcs8}

  -- The first write of the key may fail part way: then the file holds what was written.
  generate_pem_torn :
      (dir pem text : String) (fault : Fault) (later : List (Option Fault)) (s : Machine c)
      (private : PrivateKey)
      → (generate rsa_bits s.world).0 ≡ ok private
      → to_pkcs8_pem private ≡ ok pem
      → s.disk.faults ≡ some fault ∷ later
      → fault.left ≡ some text
      → ((generate_pem c dir s).0 ≡ err fault.error)
        × ((generate_pem c dir s).1.disk.files (key_path dir) ≡ some text)
  unfolding generate_pem write
  generate_pem_torn dir pem text fault later s private made pem_of faults left =
      (ground (arith, eq_refl (key_path dir)), ground (arith, eq_refl (key_path dir)))

  -- The metadata of the key file can be read: the call after `create_dir_all` does not fail.
  abbrev pub CanLook : Machine c → Type 0
  CanLook s = (next_fault (next_fault s.disk.faults).1).0 ≡ none

  load_or_generate_torn :
      (dir text why : String) (s : Machine c)
      → s.disk.files (key_path dir) ≡ some text
      → from_pkcs8 text ≡ err why
      → CanLook s
      → (e : String) × ((load_or_generate c dir s).0 ≡ err e)
        × ((load_or_generate c dir s).1.disk.files ≡ s.disk.files)
  unfolding load_or_generate from_pkcs8_pem create_dir_all exists read_to_string
  load_or_generate_torn dir text why s there bad looked =
      let after_look = (next_fault (next_fault s.disk.faults).1).1 in
      elim (Option-cases (next_fault s.disk.faults).0) [
        | inr (f, failed) ↦ (f.error, ground arith, ground arith)
        | inl done ↦ elim (Option-cases (next_fault after_look).0) [
          | inr (f, failed) ↦ (f.error, ground arith, ground arith)
          | inl read ↦ (why, ground arith, ground arith)
        ]
      ]

  -- A key file that holds no key stops the service for good, while its metadata can be read: every
  -- such start fails and leaves all files as they were, so that the next fails again.
  boot_torn :
      (dir text why : String) (s : Machine c)
      → s.disk.files (key_path dir) ≡ some text
      → from_pkcs8 text ≡ err why
      → CanLook s
      → (e : String) × ((boot c dir s).0 ≡ err e) × ((boot c dir s).1.disk.files ≡ s.disk.files)
  unfolding boot
  boot_torn dir text why s there bad looked =
      let (e, failed, kept) = load_or_generate_torn dir text why s there bad looked in
      (e, ground arith, ground arith)

  -- A first start whose write of the key fails part way (a full disk, say) leaves a file that is
  -- no key, if the part is none; and every later start fails at which the file's metadata can be
  -- read, whatever else std::fs answers, with the files as they were: the key is written in place,
  -- and what is there is never replaced at such a start.
  pub boot_interrupted :
      (dir pem text why : String) (fault : Fault) (later : List (Option Fault)) (s : Machine c)
      (private : PrivateKey) (next : Machine c)
      → s.disk.files (key_path dir) ≡ none
      → (generate rsa_bits s.world).0 ≡ ok private
      → to_pkcs8_pem private ≡ ok pem
      → s.disk.faults ≡ none ∷ none ∷ some fault ∷ later
      → fault.left ≡ some text
      → from_pkcs8 text ≡ err why
      → next.disk.files ≡ (boot c dir s).1.disk.files
      → CanLook next
      → ((boot c dir s).0 ≡ err fault.error)
        × (e : String) × ((boot c dir next).0 ≡ err e)
        × ((boot c dir next).1.disk.files ≡ (boot c dir s).1.disk.files)
  unfolding boot load_or_generate create_dir_all exists
  boot_interrupted dir pem text why fault later s private next missing made pem_of faults left bad
        same looked =
      let begun : Machine c = record s {
        disk = record { files = s.disk.files; faults = some fault ∷ later };
      } in
      let (failed, kept) =
        generate_pem_torn dir pem text fault later begun private made pem_of refl left in
      let all : boot c dir s ≡ (err fault.error, (generate_pem c dir begun).1) =
        ground (arith, failed) in
      let (e, again, unchanged) = boot_torn dir text why next (rw (same, all) kept) bad looked in
      (ap (λ r. r.0) all, e, again, unchanged ∙ same)

  -- Where the metadata of the key file cannot be read, the file is taken to be missing: a new key is
  -- written over the one that is there.
  load_or_generate_replaced :
      (dir pem : String) (fault : Fault) (s : Machine c) (private : PrivateKey)
      → (generate rsa_bits s.world).0 ≡ ok private
      → to_pkcs8_pem private ≡ ok pem
      → s.disk.faults ≡ none ∷ some fault ∷ []
      → (load_or_generate c dir s).1.disk.files (key_path dir) ≡ some pem
  unfolding load_or_generate create_dir_all exists generate_pem write
  load_or_generate_replaced dir pem fault s private made pem_of faults =
      ground (arith, eq_refl (key_path dir))
