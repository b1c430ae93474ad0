-- ===== src/Base/Hex.antt =====
-- Numbers printed in hexadecimal: what is read back, and the characters that show.
use Prim.Native.Nat.{ℕ, zero, suc, ◌+◌, ◌*◌, ◌/◌, ◌%◌, ◌^◌, ◌<◌, ◌-◌}
use Prim.Native.Char.{Char, code}
use Prim.Native.String.{String, slice, ◌++◌ as join}
use mathlib.Core.Path.{◌≡◌, refl, ap, sym, ◌∙◌}
use mathlib.Core.Bool.{Bool, true, false, not, ◌&&◌}
use native.Mathlib.Omega.{arith}
use text.Mathlib.TextLemmas.{nil-append, cons-append}
use native.Mathlib.Nat.{pow-suc}
use kaguya.Base.Tests.{ltb, if◌then◌else◌}
unfoldable use kaguya.Base.Texts.{hex_text}

-- the value of a digit, as its character's number gives it
abbrev digit_value : ℕ → ℕ
digit_value c = if ltb c 58 then c - 48 else c - 87

read_hex : ℕ → String → ℕ
read_hex acc String.[] = acc
read_hex acc (String.◌∷◌ c s) = read_hex (acc * 16 + digit_value (code c)) s

-- a lower-case hexadecimal digit
abbrev pub IsLowerHex : Char → Type 0
IsLowerHex c = (47 < code c) × (code c < 103) × (not (ltb 57 (code c) && ltb (code c) 97) ≡ true)

abbrev pub AllDigits : String → Type 0
AllDigits String.[] = Unit
AllDigits (String.◌∷◌ c s) = IsLowerHex c × AllDigits s

abbrev digit_text : ℕ → String
digit_text d = slice "0123456789abcdef" d (suc d)

is_digit_text : ℕ → String → Bool
is_digit_text d String.[] = false
is_digit_text d (String.◌∷◌ c String.[]) =
    (not (ltb (digit_value (code c)) d) && not (ltb d (digit_value (code c))))
    && ((ltb 47 (code c) && ltb (code c) 103) && not (ltb 57 (code c) && ltb (code c) 97))
is_digit_text d _ = false

-- the test passes at every number below the bound
passes : (ℕ → Bool) → ℕ → Bool
passes test zero = true
passes test (suc bound) = passes test bound && test bound

passes_at : (test : ℕ → Bool) (bound d : ℕ) → passes test bound ≡ true → d < bound → test d ≡ true
unfolding passes
passes_at test zero d every below = absurd (omega arith)
passes_at test (suc bound) d every below = ground (arith, passes_at test bound d)

digit_texts : passes (λ d. is_digit_text d (digit_text d)) 16 ≡ true
unfolding passes is_digit_text
digit_texts = refl

digit_cases :
    (d : ℕ) (s : String)
    → is_digit_text d s ≡ true
    → (c : Char) × (s ≡ String.◌∷◌ c String.[]) × (digit_value (code c) ≡ d) × IsLowerHex c
unfolding is_digit_text
digit_cases d String.[] h = cc
digit_cases d (String.◌∷◌ c String.[]) h = (c, refl, ground arith, ground arith)
digit_cases d (String.◌∷◌ c (String.◌∷◌ _ _)) h = cc

digit_lem :
    (d : ℕ)
    → d < 16
    → (c : Char) × (digit_text d ≡ String.◌∷◌ c String.[])
      × (digit_value (code c) ≡ d)
      × IsLowerHex c
digit_lem d lt = digit_cases d (digit_text d) (passes_at _ 16 d digit_texts lt)

read_hex-join : (acc : ℕ) (s t : String) → read_hex acc (join s t) ≡ read_hex (read_hex acc s) t
unfolding read_hex
read_hex-join acc String.[] t = rw nil-append
read_hex-join acc (String.◌∷◌ c s) t =
    rw cons-append (read_hex-join (acc * 16 + digit_value (code c)) s t)

read_hex-hex_text : (width n : ℕ) → n < 16 ^ width → read_hex 0 (hex_text width n) ≡ n
unfolding hex_text read_hex
read_hex-hex_text zero n lt = omega arith
read_hex-hex_text (suc width) n lt =
    let (c, shown, value, _) = digit_lem (n % 16) (omega arith) in
    let bound : 16 ^ suc width ≡ 16 ^ width * 16 = pow-suc 16 width in
    let before = read_hex-hex_text width (n / 16) (omega arith) in
    rw (read_hex-join, before, shown) (omega arith)

-- Numbers in range that are printed alike are the same.
pub hex_text-inj :
    (width m n : ℕ) → m < 16 ^ width → n < 16 ^ width → hex_text width m ≡ hex_text width n → m ≡ n
hex_text-inj width m n lt lt' same =
    sym (read_hex-hex_text width m lt) ∙ ap (read_hex 0) same ∙ read_hex-hex_text width n lt'

AllDigits-join : (s t : String) → AllDigits s → AllDigits t → AllDigits (join s t)
AllDigits-join String.[] t p q = rw nil-append q
AllDigits-join (String.◌∷◌ c s) t (d, p) q = rw cons-append (d, AllDigits-join s t p q)

pub hex_text-AllDigits : (width n : ℕ) → AllDigits (hex_text width n)
unfolding hex_text
hex_text-AllDigits zero n = tt
hex_text-AllDigits (suc width) n =
    let (c, shown, _, digit) = digit_lem (n % 16) (omega arith) in
    let last : AllDigits (digit_text (n % 16)) = rw shown (digit, tt) in
    AllDigits-join (hex_text width (n / 16)) (digit_text (n % 16))
      (hex_text-AllDigits width (n / 16)) last
