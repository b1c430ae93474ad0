-- ===== src/Web/Cookies.antt =====
-- The cookies of web/src/main.rs.
pub mod RoundTrip
use Prim.Native.Char.{Char, code}
use Prim.Native.String.{◌++◌ as join, slice}
use mathlib.Core.Logic.{ite}
use native.Mathlib.Decide.{ℕ_discrete}
use kaguya.Base.{
  ℕ, zero, suc, ◌+◌, ◌/◌, ◌%◌, String, Bool, true, false, ◌&&◌, ◌||◌, ◌==◌, not, Option, none, some,
  List, [], ◌∷◌, map, ltb, is_empty, strip_prefix, if◌then◌else◌,
}

abbrev pub cookie : String
cookie = "kw_session"

-- `char::is_whitespace` on the characters that a header text can hold (`to_str` gives a text only
-- for visible ASCII, the space and the tab)
abbrev pub is_whitespace : Char → Bool
is_whitespace c = (ltb 8 (code c) && ltb (code c) 14) || (ltb 31 (code c) && ltb (code c) 33)

unfoldable pub trim_start : String → String
trim_start String.[] = ""
trim_start (String.◌∷◌ c s) =
    let rest = trim_start s in if is_whitespace c then rest else String.◌∷◌ c s

unfoldable pub trim_end : String → String
trim_end String.[] = ""
trim_end (String.◌∷◌ c s) =
    let rest = trim_end s in if is_empty rest && is_whitespace c then "" else String.◌∷◌ c rest

unfoldable pub trim : String → String
unfolding trim_start trim_end
trim s = trim_end (trim_start s)

abbrev pub onto_head : Char → List String → List String
onto_head c [] = String.◌∷◌ c "" ∷ []
onto_head c (part ∷ parts) = String.◌∷◌ c part ∷ parts

abbrev pub is_semicolon : Char → Bool
is_semicolon c = ltb 58 (code c) && ltb (code c) 60

-- `split(';')`
unfoldable pub split : String → List String
split String.[] = "" ∷ []
split (String.◌∷◌ c s) =
    let parts = split s in if is_semicolon c then "" ∷ parts else onto_head c parts

abbrev pub first_some : Option String → Option String → Option String
first_some (some a) later = some a
first_some none later = later

-- `find_map(|kv| kv.strip_prefix(&prefix))`
unfoldable pub find_prefixed : String → List String → Option String
find_prefixed prefix [] = none
find_prefixed prefix (kv ∷ kvs) = first_some (strip_prefix prefix kv) (find_prefixed prefix kvs)

-- `session_id`, of the text of the cookie header, if there is one
unfoldable pub session_id : Option String → Option String
unfolding trim split find_prefixed
session_id none = none
session_id (some header) = find_prefixed (join cookie "=") (map trim (split header))

-- `{n}` of a number that is not negative and below 10 ^ 20
decimal_from : ℕ → ℕ → String
decimal_from zero n = ""
decimal_from (suc fuel) n =
    let shown : String = slice "0123456789" (n % 10) (n % 10 + 1) in
    let more : String = join (decimal_from fuel (n / 10)) shown in if ltb n 10 then shown else more

unfoldable pub decimal : ℕ → String
unfolding decimal_from
decimal n = decimal_from 20 n

abbrev pub attributes : String
attributes = " HttpOnly; Secure; SameSite=Lax; Path=/; Max-Age="

unfoldable pub session_cookie : String → ℕ → String
session_cookie id max_age =
    join (join (join cookie "=") id) (join ";" (join attributes (decimal max_age)))

unfoldable pub clear_cookie : String
clear_cookie = join (join cookie "=") (join ";" (join attributes "0"))
