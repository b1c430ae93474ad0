-- ===== src/Auth/Keys/Files.antt =====
-- The files of kaguya-auth: `Signer::load_or_generate` of auth/src/keys.rs and `publish` of
-- auth/src/jwks.rs, which `main` calls one after the other. A file is its text at its path. Each
-- call of std::fs that can fail takes the next of `faults`: `none` if it is done, and otherwise the
-- error, with what a write that fails leaves in the file, if that is not what was there. When the
-- list is used up every call is done. Directories are not modelled.
use Prim.Native.String.{◌++◌ as join}
use kaguya.Base.{
  ℕ, String, Bool, true, false, Option, none, some, List, [], ◌∷◌, Result, ok, err, Prog, pure,
  lift, ◌>>=◌, ◌>>◌, HashMap, insert, if◌then◌else◌, is_empty, ◌==◌, trim_end_slashes,
}
use kaguya.Auth.Crates.{Crates, OwnJwk}
use kaguya.Auth.Keys.{Signer}

pub record Fault : Type 0 where
  pub error : String
  pub left : Option String

pub record Disk : Type 0 where
  pub files : HashMap String
  pub faults : List (Option Fault)

-- the next of the faults, and those after it
abbrev pub next_fault : List (Option Fault) → Option Fault × List (Option Fault)
next_fault [] = (none, [])
next_fault (f ∷ later) = (f, later)

unfoldable pub create_dir_all : String → Prog String Disk Unit
create_dir_all dir d =
    let (fault, later) = next_fault d.faults in
    elim fault [
      | none ↦ (ok tt, record d { faults = later })
      | some f ↦ (err f.error, record d { faults = later })
    ]

abbrev is_some : Option String → Bool
is_some none = false
is_some (some _) = true

-- `Path::exists`, which is false too when the metadata cannot be read
unfoldable pub exists : String → Prog String Disk Bool
exists path d =
    let (fault, later) = next_fault d.faults in
    elim fault [
      | none ↦ (ok (is_some (d.files path)), record d { faults = later })
      | some f ↦ (ok false, record d { faults = later })
    ]

abbrev text_of : Option String → Result String String
text_of none = err "No such file or directory"
text_of (some text) = ok text

unfoldable pub read_to_string : String → Prog String Disk String
read_to_string path d =
    let (fault, later) = next_fault d.faults in
    elim fault [
      | none ↦ (text_of (d.files path), record d { faults = later })
      | some f ↦ (err f.error, record d { faults = later })
    ]

abbrev leave : String → Option String → HashMap String → HashMap String
leave path none files = files
leave path (some text) files = insert path text files

-- `fs::write`
unfoldable pub write : String → String → Prog String Disk Unit
write path text d =
    let (fault, later) = next_fault d.faults in
    elim fault [
      | none ↦ (ok tt, record { files = insert path text d.files; faults = later })
      | some f ↦ (err f.error, record { files = leave path f.left d.files; faults = later })
    ]

abbrev pub rsa_bits : ℕ
rsa_bits = 2048

-- `Path::join` of a relative name: a separator is put in unless the path is empty or ends with one
unfoldable pub join_path : String → String → String
join_path dir name =
    if is_empty dir
    then name
    else if trim_end_slashes dir == dir
    then join dir (join "/" name)
    else join dir name

-- `dir.join(KEY_FILE)` and `dir.join(JWKS_FILE)`
abbrev pub key_path : String → String
key_path dir = join_path dir "signing_key.pem"

abbrev pub jwks_path : String → String
jwks_path dir = join_path dir "jwks.json"

unfoldable pub build_jwk : String → String → String → OwnJwk
build_jwk kid n e = record { kty = "RSA"; key_use = "sig"; alg = "RS256"; kid = kid; n = n; e = e }

-- the canonical text that `thumbprint` digests
unfoldable pub canonical : String → String → String
canonical n e = join "{\"e\":\"" (join e (join "\",\"kty\":\"RSA\",\"n\":\"" (join n "\"}")))

module _ (c : Crates) where
  open c use {
    World, PrivateKey, EncodingKey, generate, to_pkcs8_pem, from_pkcs8, modulus, exponent, sha256,
    from_rsa_pem, jwks_text,
  }

  -- the files and the outside world
  pub record Machine : Type 0 where
    pub disk : Disk
    pub world : World

  abbrev pub on_disk : {A : Type 0} → Prog String Disk A → Prog String Machine A
  on_disk m s = let (r, d) = m s.disk in (r, record s { disk = d })

  abbrev in_world : {A : Type 0} → Prog String World A → Prog String Machine A
  in_world m s = let (r, w) = m s.world in (r, record s { world = w })

  unfoldable pub thumbprint : String → String → String
  unfolding canonical
  thumbprint n e = sha256 (canonical n e)

  unfoldable pub from_pkcs8_pem : String → Result String (Signer c)
  unfolding thumbprint build_jwk
  from_pkcs8_pem pem = elim (from_pkcs8 pem) [
    | err e ↦ err e
    | ok private ↦ elim (from_rsa_pem pem) [
      | err e ↦ err e
      | ok encoding_key ↦
          let n = modulus private in
          let e = exponent private in
          let kid = thumbprint n e in
          ok (record { encoding_key = encoding_key; kid = kid; own_jwk = build_jwk kid n e })
    ]
  ]

  -- the branch of the first run
  unfoldable pub generate_pem : String → Prog String Machine String
  generate_pem dir = do
    private ← in_world (generate rsa_bits)
    pem ← lift (to_pkcs8_pem private)
    on_disk (write (key_path dir) pem)
    pure pem

  unfoldable pub load_or_generate : String → Prog String Machine (Signer c)
  load_or_generate dir = do
    on_disk (create_dir_all dir)
    present ← on_disk (exists (key_path dir))
    pem ← if present then on_disk (read_to_string (key_path dir)) else generate_pem dir
    lift (from_pkcs8_pem pem)

  -- `jwks::publish`
  unfoldable pub publish : String → OwnJwk → Prog String Machine Unit
  publish dir own_jwk = on_disk (write (jwks_path dir) (jwks_text (own_jwk ∷ [])))

  -- the two calls of `main`
  unfoldable pub boot : String → Prog String Machine (Signer c)
  boot dir = do signer ← load_or_generate dir; publish dir signer.own_jwk; pure signer
