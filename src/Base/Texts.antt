-- ===== src/Base/Texts.antt =====
-- The functions of Rust's `str` that the services use, and a format of numbers, on native texts.
use Prim.Native.Char.{code}
use Prim.Native.Nat.{ℕ, zero, suc, ◌/◌, ◌%◌}
use Prim.Native.String.{String, slice, ◌++◌ as join}
use mathlib.Core.Path.{◌≡◌, ap}
use mathlib.Core.Bool.{Bool}
use mathlib.Core.Option.{Option, none, some}
use native.Mathlib.Omega.{arith}
use text.Mathlib.Text.{◌==◌}
use text.Mathlib.TextLemmas.{nil-append, cons-append}
use native.Mathlib.Decide.{ℕ_discrete}
use mathlib.Core.Logic.{ite}
use kaguya.Base.Tests.{if◌then◌else◌}

abbrev pub is_empty : String → Bool
is_empty s = s == ""

-- `trim_end_matches('/')`
unfoldable pub trim_end_slashes : String → String
trim_end_slashes String.[] = ""
trim_end_slashes (String.◌∷◌ c s) =
    let rest = trim_end_slashes s in
    if is_empty rest
    then ite (ℕ_discrete (code c) b'/') "" (String.◌∷◌ c rest)
    else String.◌∷◌ c rest

-- `strip_prefix`
unfoldable pub strip_prefix : String → String → Option String
strip_prefix String.[] s = some s
strip_prefix (String.◌∷◌ c p) String.[] = none
strip_prefix (String.◌∷◌ c p) (String.◌∷◌ d s) =
    ite (ℕ_discrete (code c) (code d)) (strip_prefix p s) none

pub strip_prefix-append : (p s : String) → strip_prefix p (join p s) ≡ some s
unfolding strip_prefix
strip_prefix-append String.[] s = ap some (nil-append s)
strip_prefix-append (String.◌∷◌ c p) s = rw cons-append (ground (arith, strip_prefix-append p s))

pub trim_end_slashes-append_slash :
    (s : String) → trim_end_slashes (join s "/") ≡ trim_end_slashes s
unfolding trim_end_slashes
trim_end_slashes-append_slash String.[] = ground arith
trim_end_slashes-append_slash (String.◌∷◌ c s) =
    rw cons-append (ground (arith, trim_end_slashes-append_slash s))

-- `{:0nx}` of a number of at most n hexadecimal digits
unfoldable pub hex_text : ℕ → ℕ → String
hex_text zero d = ""
hex_text (suc n) d = join (hex_text n (d / 16)) (slice "0123456789abcdef" (d % 16) (suc (d % 16)))

abbrev pub unwrap_or : Option String → String → String
unwrap_or none other = other
unwrap_or (some v) other = v
