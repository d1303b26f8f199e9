-- ===== src/Encoding/Decimal.antt =====
-- Decimal text, as `strconv.ParseInt` reads it and `%d` writes it.
use nakamato_blockchain.Base.{
  ℕ, zero, suc, ◌+◌, ◌-◌, ◌*◌, true, false, ◌&&◌, Option, none, some, List, [], ◌∷◌, if◌then◌else◌,
  ltb, leb, ◌==◌,
}
use nakamato_blockchain.Base.Int.{ℤ, pos, negsuc, int64_half}
use nakamato_blockchain.Base.Text.{Str}
use nakamato_blockchain.Encoding.BigInt.{negate, digits_from}

-- The value of a run of decimal digits after `acc`; every character must be one.
unfoldable pub decimal_from : ℕ → Str → Option ℕ
decimal_from acc [] = some acc
decimal_from acc (c ∷ s) = elim (leb b'0' c && leb c b'9') [
  | true ↦ decimal_from (acc * 10 + (c - b'0')) s
  | false ↦ none
]

-- At least one digit is wanted.
abbrev decimal : Str → Option ℕ
decimal [] = none
decimal (c ∷ s) = decimal_from 0 (c ∷ s)

abbrev in_range : ℕ → (ℕ → ℤ) → Option ℕ → Option ℤ
in_range limit f none = none
in_range limit f (some n) = if ltb n limit then some (f n) else none

-- `strconv.ParseInt(s, 10, 64)`; none is an error.
unfoldable pub parse_int : Str → Option ℤ
unfolding decimal_from
parse_int [] = none
parse_int (c ∷ s) =
    if c == b'-'
    then in_range (suc int64_half) negate (decimal s)
    else if c == b'+'
    then in_range int64_half pos (decimal s)
    else in_range int64_half pos (decimal (c ∷ s))

abbrev decimal_chars : List ℕ → Str
decimal_chars [] = []
decimal_chars (v ∷ vs) = (b'0' + v) ∷ decimal_chars vs

abbrev digits_of : ℕ → List ℕ
digits_of zero = 0 ∷ []
digits_of (suc n) = digits_from 10 (suc n) (suc n) []

-- `%d`
unfoldable pub format_int : ℤ → Str
unfolding digits_from
format_int (pos n) = decimal_chars (digits_of n)
format_int (negsuc n) = b'-' ∷ decimal_chars (digits_of (suc n))
