-- ===== src/Web/Hex.antt =====
-- `hex` and `from_hex` of web/src/lore.rs, over bytes: a text is its UTF-8 bytes.
pub mod RoundTrip
use kaguya.Base.{
  ℕ, zero, suc, ◌+◌, ◌-◌, ◌*◌, ◌/◌, ◌%◌, Bool, true, false, ◌&&◌, ◌||◌, not, Option, none, some,
  List, [], ◌∷◌, ltb, if◌then◌else◌, length,
}

-- an answer, an error, or a panic
pub data Outcome (A : Type 0) : Type 0 where
  ok : A → Outcome A
  err : Outcome A
  panic : Outcome A

-- a digit of `{b:02x}`
unfoldable pub digit : ℕ → ℕ
digit d = if ltb d 10 then 48 + d else 87 + d

unfoldable pub hex : List ℕ → List ℕ
unfolding digit
hex [] = []
hex (b ∷ bytes) = digit (b / 16) ∷ digit (b % 16) ∷ hex bytes

-- `char::to_digit(16)`
unfoldable pub to_digit : ℕ → Option ℕ
to_digit c =
    if ltb 47 c && ltb c 58
    then some (c - 48)
    else if ltb 96 c && ltb c 103
    then some (c - 87)
    else if ltb 64 c && ltb c 71
    then some (c - 55)
    else none

abbrev join_digits : Option ℕ → Option ℕ → Option ℕ
join_digits (some h) (some l) = some (h * 16 + l)
join_digits _ _ = none

-- `u8::from_str_radix(s, 16)` on a text of two bytes: a leading `+` is a sign
unfoldable pub from_str_radix : ℕ → ℕ → Option ℕ
unfolding to_digit
from_str_radix a b =
    if not (ltb a 43) && not (ltb 43 a) then to_digit b else join_digits (to_digit a) (to_digit b)

-- a byte inside a character, at which a `str` cannot be cut
abbrev pub is_continuation : ℕ → Bool
is_continuation b = not (ltb b 128) && ltb b 192

-- `&s[i..i + 2]` panics if the second cut falls inside a character; the first is that of the
-- round before
abbrev cuts_character : List ℕ → Bool
cuts_character [] = false
cuts_character (b ∷ rest) = is_continuation b

abbrev and_push : Option ℕ → Outcome (List ℕ) → Outcome (List ℕ)
and_push none rest = err
and_push (some b) (ok bytes) = ok (b ∷ bytes)
and_push (some b) err = err
and_push (some b) panic = panic

-- the iterator, collected: the first error ends it
unfoldable pub from_pairs : List ℕ → Outcome (List ℕ)
unfolding from_str_radix
from_pairs [] = ok []
from_pairs (a ∷ []) = err
from_pairs (a ∷ b ∷ rest) =
    let more = from_pairs rest in
    if cuts_character rest then panic else and_push (from_str_radix a b) more

unfoldable pub from_hex : List ℕ → Outcome (List ℕ)
unfolding from_pairs
from_hex s = if ltb 0 (length s % 2) then err else from_pairs s
