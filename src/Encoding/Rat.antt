-- ===== src/Encoding/Rat.antt =====
-- math/big's Rat as a fraction with a positive denominator, not reduced. Reducing changes neither a
-- value nor the quotient of the two parts rounded down, which is all that the program reads.
use nakamato_blockchain.Base.{ℕ, zero, suc, ◌+◌, ◌*◌, ◌/◌, Option, none, some}
use nakamato_blockchain.Base.Int.{ℤ, pos, negsuc, pos_part, neg_part, sub_ℕ}
use nakamato_blockchain.Encoding.BigInt.{negate}

pub record Rat : Type 0 where
  pub num : ℤ
  pub den : ℕ

infixl 70 ◌*ℤ◌
unfoldable pub ◌*ℤ◌ : ℤ → ℤ → ℤ
a *ℤ b =
    sub_ℕ (pos_part a * pos_part b + neg_part a * neg_part b)
      (pos_part a * neg_part b + neg_part a * pos_part b)

abbrev pub of_ℤ : ℤ → Rat
of_ℤ a = record { num = a; den = 1 }

-- 1 / d, of a d that is not zero; of zero there is none.
unfoldable pub reciprocal : ℤ → Option Rat
reciprocal (pos zero) = none
reciprocal (pos (suc n)) = some (record { num = pos 1; den = suc n })
reciprocal (negsuc n) = some (record { num = negsuc 0; den = suc n })

unfoldable pub add : Rat → Rat → Rat
unfolding ◌*ℤ◌
add a b = record {
  num =
      sub_ℕ (pos_part a.num * b.den + pos_part b.num * a.den)
        (neg_part a.num * b.den + neg_part b.num * a.den);
  den = a.den * b.den;
}

unfoldable pub mul : Rat → Rat → Rat
unfolding ◌*ℤ◌
mul a b = record { num = a.num *ℤ b.num; den = a.den * b.den }

abbrev inverse : ℤ → ℕ → Option Rat
inverse (pos zero) den = none
inverse (pos (suc n)) den = some (record { num = pos den; den = suc n })
inverse (negsuc n) den = some (record { num = negate den; den = suc n })

-- `Inv`; none is the panic on zero.
unfoldable pub inv : Rat → Option Rat
inv a = inverse a.num a.den

-- `Div` of numerator and denominator: rounded down, since the denominator is positive.
unfoldable pub floor : Rat → ℤ
floor a = elim a.num [ pos n ↦ pos (n / a.den) | negsuc n ↦ negsuc (n / a.den) ]
