-- ===== src/Encoding/BigInt.antt =====
-- math/big: SetBytes and Bytes (big endian, no leading zero), SetString in base 16, and %x.
use nakamato_blockchain.Base.{
  ℕ, zero, suc, ◌+◌, ◌*◌, ◌/◌, ◌%◌, ◌<◌, ◌≤◌, ◌≡◌, refl, true, false, Option, none, some, List, [],
  ◌∷◌, arith, ◌==◌, if◌then◌else◌, length, All, ◌∙◌, ap,
}
use nakamato_blockchain.Base.Int.{ℤ, pos, negsuc}
use nakamato_blockchain.Base.Text.{Str}
use nakamato_blockchain.Encoding.Hex.{hex_digit, digit_value, encode, digit_value-hex_digit, IsByte}

-- `acc` followed by the bytes, as one number.
unfoldable pub set_bytes_from : ℕ → List ℕ → ℕ
set_bytes_from acc [] = acc
set_bytes_from acc (b ∷ bs) = set_bytes_from (acc * 256 + b) bs

unfoldable pub set_bytes : List ℕ → ℕ
unfolding set_bytes_from
set_bytes bs = set_bytes_from 0 bs

-- The digits of a number in a base, before those of `acc`; the fuel bounds their number.
unfoldable pub digits_from : ℕ → ℕ → ℕ → List ℕ → List ℕ
digits_from base zero n acc = acc
digits_from base (suc f) n acc = elim (n == 0) [
  | true ↦ acc
  | false ↦ digits_from base f (n / base) ((n % base) ∷ acc)
]

unfoldable pub bytes : ℕ → List ℕ
unfolding digits_from
bytes n = digits_from 256 n n []

-- The value of a run of hexadecimal characters after `acc`; every character must be one.
unfoldable pub parse_digits : ℕ → Str → Option ℕ
parse_digits acc [] = some acc
parse_digits acc (c ∷ s) = elim (digit_value c) [
  | none ↦ none
  | some v ↦ parse_digits (acc * 16 + v) s
]

-- At least one digit is wanted.
unfoldable pub parse_unsigned : Str → Option ℕ
parse_unsigned [] = none
parse_unsigned (c ∷ s) = parse_digits 0 (c ∷ s)

abbrev pub negate : ℕ → ℤ
negate zero = pos 0
negate (suc n) = negsuc n

abbrev signed : (ℕ → ℤ) → Option ℕ → Option ℤ
signed f none = none
signed f (some n) = some (f n)

-- `z.SetString(s, 16)`: an optional sign, then digits.
unfoldable pub parse_hex : Str → Option ℤ
parse_hex [] = none
parse_hex (c ∷ s) =
    if c == b'-'
    then signed negate (parse_unsigned s)
    else if c == b'+'
    then signed pos (parse_unsigned s)
    else signed pos (parse_unsigned (c ∷ s))

abbrev hex_chars : List ℕ → Str
hex_chars [] = []
hex_chars (v ∷ vs) = hex_digit v ∷ hex_chars vs

-- `%x` of a natural number.
unfoldable pub format_ℕ : ℕ → Str
unfolding digits_from hex_digit
format_ℕ zero = b'0' ∷ []
format_ℕ (suc n) = hex_chars (digits_from 16 (suc n) (suc n) [])

unfoldable pub format_hex : ℤ → Str
unfolding format_ℕ
format_hex (pos n) = format_ℕ n
format_hex (negsuc n) = b'-' ∷ format_ℕ (suc n)

-- The bytes of a number, then more, read from the left.
set_bytes_from-digits_from :
    (f n : ℕ) (bs : List ℕ)
    → n ≤ f
    → set_bytes_from 0 (digits_from 256 f n bs) ≡ set_bytes_from n bs
unfolding digits_from set_bytes_from
set_bytes_from-digits_from zero n bs h = ground arith
set_bytes_from-digits_from (suc f) n bs h =
    ground (arith, set_bytes_from-digits_from f (n / 256) ((n % 256) ∷ bs))

pub set_bytes-bytes : (n : ℕ) → set_bytes (bytes n) ≡ n
unfolding set_bytes bytes set_bytes_from
set_bytes-bytes n = set_bytes_from-digits_from n n [] (omega arith)

parse_digits-cons :
    (acc c v : ℕ) (s : Str)
    → digit_value c ≡ some v
    → parse_digits acc (c ∷ s) ≡ parse_digits (acc * 16 + v) s
unfolding parse_digits
parse_digits-cons acc c v s h = rw (h, parse_digits)

parse_digits-encode :
    (acc : ℕ) (bs : List ℕ)
    → All IsByte bs
    → parse_digits acc (encode bs) ≡ some (set_bytes_from acc bs)
unfolding encode set_bytes_from
parse_digits-encode acc [] h = unfold parse_digits in refl
parse_digits-encode acc (b ∷ bs) h =
    parse_digits-cons acc (hex_digit (b / 16)) (b / 16) _ (digit_value-hex_digit _ (omega arith))
    ∙ parse_digits-cons _ (hex_digit (b % 16)) (b % 16) _ (digit_value-hex_digit _ (omega arith))
    ∙ parse_digits-encode ((acc * 16 + b / 16) * 16 + b % 16) bs h.1
    ∙ ap (λ n. some (set_bytes_from n bs)) (omega arith)

hex_digit_no_sign :
    (v : ℕ) → v < 16 → ((hex_digit v == b'-') ≡ false) × ((hex_digit v == b'+') ≡ false)
unfolding hex_digit
hex_digit_no_sign v h = ground arith

-- Text with no sign in front is read as a natural number.
parse_hex-unsigned :
    (c : ℕ) (s : Str) (n : ℕ)
    → (c == b'-') ≡ false
    → (c == b'+') ≡ false
    → parse_digits 0 (c ∷ s) ≡ some n
    → parse_hex (c ∷ s) ≡ some (pos n)
unfolding parse_hex parse_unsigned
parse_hex-unsigned c s n minus plus e = ground arith

-- The text of some bytes is read back as the number that they stand for.
pub parse_hex-encode :
    (bs : List ℕ)
    → 0 < length bs
    → All IsByte bs
    → parse_hex (encode bs) ≡ some (pos (set_bytes bs))
parse_hex-encode [] h k = absurd (omega arith)
parse_hex-encode (b ∷ bs) h k =
    let (minus, plus) = hex_digit_no_sign (b / 16) (omega arith) in
    let e = parse_digits-encode 0 (b ∷ bs) k in
    unfold encode set_bytes in
    parse_hex-unsigned (hex_digit (b / 16)) (hex_digit (b % 16) ∷ encode bs) _ minus plus e
