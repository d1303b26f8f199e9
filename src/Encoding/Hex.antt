-- ===== src/Encoding/Hex.antt =====
-- encoding/hex: EncodeToString writes lower case, DecodeString reads both cases.
use nakamato_blockchain.Base.{
  ℕ, ◌+◌, ◌-◌, ◌*◌, ◌/◌, ◌%◌, ◌<◌, ◌≡◌, refl, ◌&&◌, Option, none, some, List, [], ◌∷◌, arith, ltb,
  leb, if◌then◌else◌, length, All,
}
use nakamato_blockchain.Base.Text.{Str}
use nakamato_blockchain.Types.{odd_length, invalid_byte, Result, ok, err, ◌>>=◌}

-- The character of a value below 16.
unfoldable pub hex_digit : ℕ → ℕ
hex_digit v = if ltb v 10 then v + b'0' else v - 10 + b'a'

-- The value of a hexadecimal character.
unfoldable pub digit_value : ℕ → Option ℕ
digit_value c =
    if leb b'0' c && leb c b'9'
    then some (c - b'0')
    else if leb b'a' c && leb c b'f'
    then some (c - b'a' + 10)
    else if leb b'A' c && leb c b'F'
    then some (c - b'A' + 10)
    else none

unfoldable pub encode : List ℕ → Str
encode [] = []
encode (b ∷ bs) = hex_digit (b / 16) ∷ hex_digit (b % 16) ∷ encode bs

abbrev byte_of : Option ℕ → Option ℕ → Result ℕ
byte_of none _ = err invalid_byte
byte_of (some h) none = err invalid_byte
byte_of (some h) (some l) = ok (h * 16 + l)

-- An odd character that is no digit is an invalid byte, also at the end.
unfoldable pub decode : Str → Result (List ℕ)
unfolding digit_value
decode [] = ok []
decode (c ∷ []) = elim (digit_value c) [ none ↦ err invalid_byte | some _ ↦ err odd_length ]
decode (c ∷ d ∷ s) =
    let rest = decode s in
    byte_of (digit_value c) (digit_value d) >>= λ b. rest >>= λ bs. ok (b ∷ bs)

abbrev pub IsByte : ℕ → Type 0
IsByte b = b < 256

pub digit_value-hex_digit : (v : ℕ) → v < 16 → digit_value (hex_digit v) ≡ some v
unfolding digit_value hex_digit
digit_value-hex_digit v h = ground arith

pub decode-encode : (bs : List ℕ) → All IsByte bs → decode (encode bs) ≡ ok bs
unfolding decode encode
decode-encode [] h = refl
decode-encode (b ∷ bs) h =
    rw
      (
        digit_value-hex_digit (b / 16) (omega arith),
        digit_value-hex_digit (b % 16) (omega arith),
        decode-encode bs h.1,
      )
      (ground arith)

pub length-encode : (bs : List ℕ) → length (encode bs) ≡ 2 * length bs
unfolding encode
length-encode [] = refl
length-encode (b ∷ bs) = omega (arith, length-encode bs)
