-- ===== src/Auth/Keys/Boot.antt =====
-- The key of kaguya-auth over restarts (auth/src/keys.rs, auth/src/jwks.rs), and what loreserver
-- reads.
use Prim.Native.String.{◌++◌ as join}
use kaguya.Base.{
  trim_end_slashes, is_empty, String, true, false, ◌==◌, Option, some, [], ◌∷◌, Result, ok, ◌≡◌,
  inl, inr, arith, refl, sym, ◌∙◌, ap, eq_iff, eq_refl, insert, strip_prefix, strip_prefix-append,
  Result-cases, Option-cases, Bool-cases,
}
use kaguya.Auth.Crates.{Crates}
use kaguya.Auth.Keys.{Signer}
use kaguya.Auth.Keys.Origin.{from_pkcs8_pem-kid}
use kaguya.Auth.Keys.Files.{
  Disk, next_fault, create_dir_all, exists, read_to_string, write, join_path, key_path, jwks_path,
  rsa_bits, Machine, from_pkcs8_pem, generate_pem, load_or_generate, publish, boot,
}

pub create_dir_all-files : (dir : String) (d : Disk) → (create_dir_all dir d).1.files ≡ d.files
unfolding create_dir_all
create_dir_all-files dir d = elim (Option-cases (next_fault d.faults).0) [
  | inl done ↦ ground arith
  | inr (f, failed) ↦ ground arith
]

pub read_to_string-files :
    (path text : String) (d : Disk)
    → (read_to_string path d).0 ≡ ok text
    → (d.files path ≡ some text) × ((read_to_string path d).1.files ≡ d.files)
unfolding read_to_string
read_to_string-files path text d e = elim (Option-cases (next_fault d.faults).0) [
  | inr (f, failed) ↦ absurd (ground arith)
  | inl done ↦ elim (Option-cases (d.files path)) [
    | inl missing ↦ absurd (ground arith)
    | inr (found, there) ↦ (ground arith, ground arith)
  ]
]

write-files :
    (path text : String) (d : Disk)
    → (write path text d).0 ≡ ok tt
    → (write path text d).1.files ≡ insert path text d.files
unfolding write
write-files path text d e = elim (Option-cases (next_fault d.faults).0) [
  | inr (f, failed) ↦ absurd (ground arith)
  | inl done ↦ ground arith
]

join-differ : (dir p q : String) → (p == q) ≡ false → (join dir p == join dir q) ≡ false
join-differ dir p q ne = elim (Bool-cases (join dir p == join dir q)) [
  | inr differ ↦ differ
  | inl same ↦
      let path : join dir p ≡ join dir q = (eq_iff (join dir p) (join dir q)).0 same in
      let rest : ◌≡◌ {A = Option String} (some p) (some q) =
        sym (strip_prefix-append dir p) ∙ ap (strip_prefix dir) path ∙ strip_prefix-append dir q in
      absurd (ground (arith, eq_iff p q))
]

paths-differ : (dir : String) → (jwks_path dir == key_path dir) ≡ false
unfolding join_path
paths-differ dir = elim (Bool-cases (is_empty dir)) [
  | inl empty ↦ rw empty refl
  | inr full ↦ elim (Bool-cases (trim_end_slashes dir == dir)) [
    | inl bare ↦ rw (full, bare) (join-differ dir "/jwks.json" "/signing_key.pem" refl)
    | inr ends ↦ rw (full, ends) (join-differ dir "jwks.json" "signing_key.pem" refl)
  ]
]

module _ (c : Crates) where
  open c use {
    World, PrivateKey, generate, to_pkcs8_pem, from_pkcs8, from_rsa_pem, modulus, exponent,
    jwks_text,
  }

  -- a later moment, at which no call of std::fs fails
  abbrev pub quiet : (s : Machine c) → World → Machine c
  quiet s w = record { disk = record { files = s.disk.files; faults = [] }; world = w }

  -- the key file is there, and makes this signer
  pub record IsKept (dir : String) (signer : Signer c) (s : Machine c) : Type 0 where
    pub pem : String
    pub there : s.disk.files (key_path dir) ≡ some pem
    pub usable : from_pkcs8_pem c pem ≡ ok signer

  generate_pem-files :
      (dir pem : String) (s : Machine c)
      → (generate_pem c dir s).0 ≡ ok pem
      → (generate_pem c dir s).1.disk.files (key_path dir) ≡ some pem
  unfolding generate_pem
  generate_pem-files dir pem s e =
      let key = generate rsa_bits s.world in
      elim (Result-cases key.0) [
        | inr (_, failed) ↦ absurd (ground arith)
        | inl (private, generated) ↦ elim (Result-cases (to_pkcs8_pem private)) [
          | inr (_, failed) ↦ absurd (ground arith)
          | inl (pem', printed) ↦ elim (Result-cases (write (key_path dir) pem' s.disk).0) [
            | inr (_, failed) ↦ absurd (ground arith)
            | inl (_, written) ↦
                let files = write-files (key_path dir) pem' s.disk written in
                let same : ◌≡◌ {A = Result String String} (ok pem') (ok pem) =
                  rw (generated, printed, written) at e in
                rw (generated, printed, written, files, eq_refl (key_path dir)) cc
          ]
        ]
      ]

  load_or_generate-IsKept :
      (dir : String) (signer : Signer c) (s : Machine c)
      → (load_or_generate c dir s).0 ≡ ok signer
      → IsKept dir signer (load_or_generate c dir s).1
  unfolding load_or_generate exists
  load_or_generate-IsKept dir signer s e =
      let made = create_dir_all dir s.disk in
      let looked = exists (key_path dir) made.1 in
      let s' : Machine c = record s { disk = looked.1 } in
      elim (Result-cases made.0) [
        | inr (_, failed) ↦ absurd (ground arith)
        | inl (_, created) ↦ elim (Result-cases looked.0) [
          | inr (_, failed) ↦ absurd (ground arith)
          | inl (true, present) ↦ elim (Result-cases (read_to_string (key_path dir) looked.1).0) [
            | inr (_, failed) ↦ absurd (ground arith)
            | inl (pem, read) ↦
                let (there, same) = read_to_string-files (key_path dir) pem looked.1 read in
                record {
                  pem = pem;
                  there = rw (created, present, read) (rw same there);
                  usable = ground arith;
                }
          ]
          | inl (false, first) ↦ elim (Result-cases (generate_pem c dir s').0) [
            | inr (_, failed) ↦ absurd (ground arith)
            | inl (pem, generated) ↦
                let there = generate_pem-files dir pem s' generated in
                record {
                  pem = pem;
                  there = rw (created, first, generated) there;
                  usable = ground arith;
                }
          ]
        ]
      ]

  pub load_or_generate-again :
      (dir : String) (signer : Signer c) (s : Machine c) (w : World)
      → IsKept dir signer s
      → load_or_generate c dir (quiet s w) ≡ (ok signer, quiet s w)
  unfolding load_or_generate create_dir_all exists read_to_string
  load_or_generate-again dir signer s w kept =
      rw (kept.there, kept.there) (ap (λ r. (r, quiet s w)) kept.usable)

  pub boot-IsKept :
      (dir : String) (signer : Signer c) (s : Machine c)
      → (boot c dir s).0 ≡ ok signer
      → IsKept dir signer (boot c dir s).1
        × ((boot c dir s).1.disk.files (jwks_path dir) ≡ some (jwks_text (signer.own_jwk ∷ [])))
  unfolding boot publish
  boot-IsKept dir signer s e =
      let loaded = load_or_generate c dir s in
      elim (Result-cases loaded.0) [
        | inr (_, failed) ↦ absurd (ground arith)
        | inl (signer', is_loaded) ↦
            let text = jwks_text (signer'.own_jwk ∷ []) in
            elim (Result-cases (write (jwks_path dir) text loaded.1.disk).0) [
              | inr (_, failed) ↦ absurd (ground arith)
              | inl (_, written) ↦
                  let files = write-files (jwks_path dir) text loaded.1.disk written in
                  let same : ◌≡◌ {A = Result String (Signer c)} (ok signer') (ok signer) =
                    rw (is_loaded, written) at e in
                  let is_signer : signer' ≡ signer = cc in
                  let kept = load_or_generate-IsKept dir signer s (rw is_signer at is_loaded) in
                  rw (is_loaded, written)
                    (
                      record {
                        pem = kept.pem;
                        there = rw (files, paths-differ dir) kept.there;
                        usable = kept.usable;
                      },
                      rw (files, eq_refl (jwks_path dir), is_signer) refl,
                    )
            ]
      ]

  boot_kept :
      (dir : String) (signer : Signer c) (s : Machine c) (w : World)
      → IsKept dir signer s
      → s.disk.files (jwks_path dir) ≡ some (jwks_text (signer.own_jwk ∷ []))
      → ((boot c dir (quiet s w)).0 ≡ ok signer)
        × ((path : String) → (boot c dir (quiet s w)).1.disk.files path ≡ s.disk.files path)
  unfolding boot publish write
  boot_kept dir signer s w kept published =
      let loaded = load_or_generate-again dir signer s w kept in
      (
        rw loaded refl,
        λ path. rw loaded (elim (Bool-cases (jwks_path dir == path)) [
          | inl same ↦
              let here : jwks_path dir ≡ path = (eq_iff (jwks_path dir) path).0 same in
              rw same (sym published ∙ ap s.disk.files here)
          | inr other ↦ rw other refl
        ]),
      )

  -- When kaguya-auth has started, loreserver finds in `jwks.json` the one key of its signer, under
  -- the kid that the signer puts in its tokens. Started again on the same files, when no call of
  -- std::fs fails, it has the same signer, and every file is as it was.
  pub boot_again :
      (dir : String) (signer : Signer c) (s : Machine c) (w : World)
      → (boot c dir s).0 ≡ ok signer
      → ((boot c dir s).1.disk.files (jwks_path dir) ≡ some (jwks_text (signer.own_jwk ∷ [])))
        × (signer.own_jwk.kid ≡ signer.kid)
        × ((boot c dir (quiet (boot c dir s).1 w)).0 ≡ ok signer)
        × ((path : String)
            → (boot c dir (quiet (boot c dir s).1 w)).1.disk.files path
              ≡ (boot c dir s).1.disk.files path)
  boot_again dir signer s w e =
      let (kept, published) = boot-IsKept dir signer s e in
      let (same_signer, same_files) = boot_kept dir signer (boot c dir s).1 w kept published in
      (published, from_pkcs8_pem-kid c kept.pem signer kept.usable, same_signer, same_files)
