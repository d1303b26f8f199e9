-- ===== src/Crypto/Padding.antt =====
-- A signature whose s has fewer significant bytes than r is split in the wrong place.
use nakamato_blockchain.Base.{
  ℕ, zero, suc, ◌+◌, ◌*◌, ◌/◌, ◌≤◌, ◌<◌, ◌≡◌, refl, sym, some, List, [], ◌∷◌, ◌++◌, arith, length,
  take, drop, length-append, length-drop, ◌∙◌, ap,
}
use nakamato_blockchain.Base.Text.{Str}
use nakamato_blockchain.Types.{ok}
use nakamato_blockchain.Encoding.Hex.{encode, decode}
use nakamato_blockchain.Encoding.BigInt.{set_bytes, set_bytes_from, bytes, set_bytes-bytes}
use nakamato_blockchain.Crypto.{
  Primitives, parse_private_key, parse_public_key, sign, verify_signature,
}
use nakamato_blockchain.Crypto.Signature.{sign-eq, verify_signature-eq, decode_signature}

set_bytes_from-append :
    (acc : ℕ) (xs ys : List ℕ)
    → set_bytes_from acc (xs ++ ys) ≡ set_bytes_from (set_bytes_from acc xs) ys
unfolding set_bytes_from
set_bytes_from-append acc [] ys = refl
set_bytes_from-append acc (x ∷ xs) ys = set_bytes_from-append (acc * 256 + x) xs ys

le-set_bytes_from : (acc : ℕ) (xs : List ℕ) → acc ≤ set_bytes_from acc xs
unfolding set_bytes_from
le-set_bytes_from acc [] = omega arith
le-set_bytes_from acc (x ∷ xs) = omega (arith, le-set_bytes_from (acc * 256 + x) xs)

mul-le-set_bytes_from : (acc : ℕ) (xs : List ℕ) → 0 < length xs → acc * 256 ≤ set_bytes_from acc xs
unfolding set_bytes_from
mul-le-set_bytes_from acc [] h = absurd (omega arith)
mul-le-set_bytes_from acc (x ∷ xs) h = omega (arith, le-set_bytes_from (acc * 256 + x) xs)

take-append-drop : (n : ℕ) (xs ys : List ℕ) → n ≤ length xs → take n (xs ++ ys) ++ drop n xs ≡ xs
take-append-drop zero xs ys h = refl
take-append-drop (suc n) [] ys h = absurd (omega arith)
take-append-drop (suc n) (x ∷ xs) ys h = ap (◌∷◌ x) (take-append-drop n xs ys (omega arith))

-- A proper prefix of the bytes of r stands for a smaller number.
set_bytes-take_lt :
    (n r : ℕ) (ys : List ℕ) → n < length (bytes r) → 0 < r → set_bytes (take n (bytes r ++ ys)) < r
unfolding set_bytes
set_bytes-take_lt n r ys h positive =
    let front : List ℕ = take n (bytes r ++ ys) in
    let back : List ℕ = drop n (bytes r) in
    let e : set_bytes_from (set_bytes_from 0 front) back ≡ r =
      sym (set_bytes_from-append 0 front back)
      ∙ ap (set_bytes_from 0) (take-append-drop n (bytes r) ys (omega arith))
      ∙ set_bytes-bytes r in
    omega (
      arith,
      e,
      mul-le-set_bytes_from (set_bytes_from 0 front) back (omega (arith, length-drop n (bytes r))),
    )

length-bytes_pos : (r : ℕ) → 0 < length (bytes r) → 0 < r
unfolding bytes
length-bytes_pos zero h = absurd (omega arith)
length-bytes_pos (suc r) h = omega arith

-- Where both keys and the hash parse and signing draws numbers r and s of which s has fewer
-- significant bytes than r, `VerifySignature` hands ECDSA, as the first number, one that is smaller
-- than r.
pub verify_signature-short_s :
    (p : Primitives) (random r s : ℕ) (hash private_str public_str : Str) (hash_bytes : List ℕ)
    (private_key : p.PrivateKey) (public_key : p.PublicKey)
    → parse_private_key p private_str ≡ ok private_key
    → parse_public_key p public_str ≡ ok public_key
    → decode hash ≡ ok hash_bytes
    → p.ecdsa_sign random private_key hash_bytes ≡ some (r, s)
    → length (bytes s) < length (bytes r)
    → (signature : Str) × (r' : ℕ) × (s' : ℕ) × (sign p random hash private_str ≡ ok signature)
      × (verify_signature p hash signature public_str
          ≡ ok (p.ecdsa_verify public_key hash_bytes r' s'))
      × (r' < r)
verify_signature-short_s p random r s hash a b h k l pa pb ph signed short =
    let both : List ℕ = bytes r ++ bytes s in
    let n : ℕ = length both / 2 in
    (
      encode both,
      set_bytes (take n both),
      set_bytes (drop n both),
      sign-eq p random r s hash a b h k l pa pb ph signed,
      verify_signature-eq p random r s hash a b h k l pa pb ph signed both (decode_signature r s),
      set_bytes-take_lt n r (bytes s) (omega (arith, length-append (bytes r) (bytes s)))
          (length-bytes_pos r (omega arith)),
    )
