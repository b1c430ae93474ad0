-- ===== src/Web/Hex/RoundTrip.antt =====
-- `from_hex` undoes `hex` (web/src/lore.rs), and takes more than that.
use kaguya.Base.{
  ℕ, ◌*◌, ◌/◌, ◌%◌, ◌≤◌, ◌<◌, ◌≡◌, true, false, some, List, [], ◌∷◌, length, All, arith, refl,
}
use kaguya.Web.Hex.{
  ok, panic, digit, hex, to_digit, from_str_radix, from_pairs, from_hex, is_continuation,
  cuts_character,
}

abbrev pub IsByte : ℕ → Type 0
IsByte b = b < 256

to_digit-digit : (d : ℕ) → d < 16 → to_digit (digit d) ≡ some d
unfolding to_digit digit
to_digit-digit d h = ground arith

digit_bounds : (d : ℕ) → d < 16 → (48 ≤ digit d) × (digit d < 103)
unfolding digit
digit_bounds d h = ground arith

from_str_radix-digits :
    (b : ℕ) → b < 256 → from_str_radix (digit (b / 16)) (digit (b % 16)) ≡ some b
unfolding from_str_radix
from_str_radix-digits b h =
    let high : b / 16 < 16 = omega arith in
    let low : b % 16 < 16 = omega arith in
    ground
      (arith, to_digit-digit (b / 16) high, to_digit-digit (b % 16) low, digit_bounds (b / 16) high)

pub length-hex : (bytes : List ℕ) → length (hex bytes) ≡ 2 * length bytes
unfolding hex
length-hex [] = refl
length-hex (b ∷ bytes) = omega (arith, length-hex bytes)

uncut-hex : (bytes : List ℕ) → All IsByte bytes → cuts_character (hex bytes) ≡ false
unfolding hex
uncut-hex [] h = refl
uncut-hex (b ∷ bytes) h =
    let high : b / 16 < 16 = omega arith in ground (arith, digit_bounds (b / 16) high)

from_pairs_step :
    (a b x : ℕ) (rest ys : List ℕ)
    → cuts_character rest ≡ false
    → from_str_radix a b ≡ some x
    → from_pairs rest ≡ ok ys
    → from_pairs (a ∷ b ∷ rest) ≡ ok (x ∷ ys)
unfolding from_pairs
from_pairs_step a b x rest ys uncut read more = rw (uncut, more, read)

from_pairs-hex : (bytes : List ℕ) → All IsByte bytes → from_pairs (hex bytes) ≡ ok bytes
unfolding hex
from_pairs-hex [] h = unfold from_pairs in refl
from_pairs-hex (b ∷ bytes) h =
    from_pairs_step (digit (b / 16)) (digit (b % 16)) b (hex bytes) bytes (uncut-hex bytes h.1)
      (from_str_radix-digits b h.0) (from_pairs-hex bytes h.1)

-- The identifier of a repository, printed in hexadecimal, is read back as the same bytes.
pub from_hex-hex : (bytes : List ℕ) → All IsByte bytes → from_hex (hex bytes) ≡ ok bytes
unfolding from_hex
from_hex-hex bytes h =
    let even : length (hex bytes) % 2 ≡ 0 = omega (arith, length-hex bytes) in
    rw even (from_pairs-hex bytes h)

-- A plus sign is taken for a digit: for each digit, `+` and that digit are read as the byte that
-- `0` and the digit spell.
pub from_hex_plus :
    (d : ℕ) → d < 16 → from_hex (b'+' ∷ digit d ∷ []) ≡ from_hex (b'0' ∷ digit d ∷ [])
unfolding from_hex from_pairs from_str_radix to_digit digit
from_hex_plus d h = ground arith

-- A text whose second character begins on its second byte and goes on is not refused: it panics,
-- if its length is even.
pub from_hex_panic :
    (a b c : ℕ) (rest : List ℕ)
    → is_continuation c ≡ true
    → length rest % 2 ≡ 1
    → from_hex (a ∷ b ∷ c ∷ rest) ≡ panic
unfolding from_hex from_pairs
from_hex_panic a b c rest inside odd = ground arith
