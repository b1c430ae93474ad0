-- ===== src/Web/Cookies/RoundTrip.antt =====
-- The cookie that web/src/main.rs sets is the one that it finds again.
use Prim.Native.String.{String, ◌++◌ as join}
use text.Mathlib.TextLemmas.{nil-append, cons-append}
use kaguya.Base.{
  ℕ, ◌≡◌, false, none, some, List, [], ◌∷◌, map, arith, refl, strip_prefix, strip_prefix-append,
  AllDigits,
}
use kaguya.Web.Cookies.{
  cookie, is_whitespace, is_semicolon, trim_start, trim_end, trim, split, find_prefixed, session_id,
  session_cookie, attributes, decimal,
}

-- A text with no semicolon and no white space, as the identifiers of sessions are.
abbrev pub IsPlain : String → Type 0
IsPlain String.[] = Unit
IsPlain (String.◌∷◌ c s) = (is_semicolon c ≡ false) × (is_whitespace c ≡ false) × IsPlain s

-- the random identifiers are plain
pub AllDigits-IsPlain : (s : String) → AllDigits s → IsPlain s
AllDigits-IsPlain String.[] p = tt
AllDigits-IsPlain (String.◌∷◌ c s) (digit, p) = (ground arith, ground arith, AllDigits-IsPlain s p)

IsPlain-join : (s t : String) → IsPlain s → IsPlain t → IsPlain (join s t)
IsPlain-join String.[] t p q = rw nil-append q
IsPlain-join (String.◌∷◌ c s) t (a, b, p) q = rw cons-append (a, b, IsPlain-join s t p q)

split-plain : (s : String) → IsPlain s → split s ≡ s ∷ []
unfolding split
split-plain String.[] p = refl
split-plain (String.◌∷◌ c s) p = rw (split-plain s p.2, p.0)

trim_end-plain : (s : String) → IsPlain s → trim_end s ≡ s
unfolding trim_end
trim_end-plain String.[] p = refl
trim_end-plain (String.◌∷◌ c s) p = ground (arith, trim_end-plain s p.2)

trim_start-plain : (s : String) → IsPlain s → trim_start s ≡ s
unfolding trim_start
trim_start-plain String.[] p = refl
trim_start-plain (String.◌∷◌ c s) p = rw p.1

trim-plain : (s : String) → IsPlain s → trim s ≡ s
unfolding trim
trim-plain s p = rw (trim_start-plain s p) (trim_end-plain s p)

trim_space : (s : String) → IsPlain s → trim (join " " s) ≡ s
unfolding trim trim_start
trim_space s p = rw (cons-append, nil-append) (rw (trim_start-plain s p) (trim_end-plain s p))

-- a plain text and a semicolon before other parts
split-append : (s t : String) → IsPlain s → split (join s (join ";" t)) ≡ s ∷ split t
unfolding split
split-append String.[] t p = rw (nil-append, cons-append, nil-append)
split-append (String.◌∷◌ c s) t p = rw cons-append (rw (split-append s t p.2, p.0))

prefix-IsPlain : IsPlain (join cookie "=")
prefix-IsPlain = (
  refl,
  refl,
  (
    refl,
    refl,
    (
      refl,
      refl,
      (
        refl,
        refl,
        (
          refl,
          refl,
          (refl, refl, (refl, refl, (refl, refl, (refl, refl, (refl, refl, (refl, refl, tt)))))),
        ),
      ),
    ),
  ),
)

find_alone :
    (id : String)
    → IsPlain id
    → find_prefixed (join cookie "=") (map trim (split (join (join cookie "=") id))) ≡ some id
unfolding find_prefixed
find_alone id p =
    let plain = IsPlain-join (join cookie "=") id prefix-IsPlain p in
    rw (split-plain _ plain)
      (rw (trim-plain _ plain) (rw (strip_prefix-append (join cookie "=") id)))

split_space : (s : String) → IsPlain s → split (join " " s) ≡ join " " s ∷ []
unfolding split
split_space s p = rw (cons-append, nil-append) (rw (split-plain s p))

find_behind :
    (other id : String)
    → IsPlain id
    → IsPlain other
    → strip_prefix (join cookie "=") other ≡ none
    → find_prefixed
        (join cookie "=")
        (map trim (split (join other (join ";" (join " " (join (join cookie "=") id))))))
      ≡ some id
unfolding find_prefixed
find_behind other id p q unlike =
    let plain = IsPlain-join (join cookie "=") id prefix-IsPlain p in
    rw (split-append other (join " " (join (join cookie "=") id)) q, split_space _ plain)
      (rw (trim-plain other q, trim_space _ plain)
        (rw (unlike, strip_prefix-append (join cookie "=") id)))

-- The cookie that the service sets comes back as the identifier that it was set for: the part of
-- `session_cookie` before its first semicolon, which browsers send back, is what `session_id` reads
-- it from, alone or behind another cookie (a semicolon and a space between them) that has not its
-- name.
pub session_id-session_cookie :
    (id other : String) (max_age : ℕ)
    → IsPlain id
    → IsPlain other
    → strip_prefix (join cookie "=") other ≡ none
    → (pair : String) × (later : List String) × (split (session_cookie id max_age) ≡ pair ∷ later)
      × (session_id (some pair) ≡ some id)
      × (session_id (some (join other (join ";" (join " " pair)))) ≡ some id)
unfolding session_id session_cookie
session_id-session_cookie id other max_age p q unlike =
    let pair = join (join cookie "=") id in
    let plain = IsPlain-join (join cookie "=") id prefix-IsPlain p in
    (
      pair,
      split (join attributes (decimal max_age)),
      split-append pair (join attributes (decimal max_age)) plain,
      find_alone id p,
      find_behind other id p q unlike,
    )
