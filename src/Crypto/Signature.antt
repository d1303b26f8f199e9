-- ===== src/Crypto/Signature.antt =====
-- A signature made by `sign` and read back by `verify_signature`.
use nakamato_blockchain.Base.{
  ℕ, zero, suc, ◌+◌, ◌/◌, ◌%◌, ◌≤◌, ◌≡◌, refl, true, some, List, [], ◌∷◌, ◌++◌, arith, length, take,
  drop, All, All-append, length-append, take-length_append, drop-length_append, ◌∙◌,
}
use nakamato_blockchain.Base.Text.{Str}
use nakamato_blockchain.Types.{ok}
use nakamato_blockchain.Encoding.Hex.{encode, decode, decode-encode, IsByte}
use nakamato_blockchain.Encoding.BigInt.{set_bytes, bytes, set_bytes-bytes, digits_from}
use nakamato_blockchain.Crypto.{
  Primitives, parse_private_key, parse_public_key, sign, verify_signature,
}

digits_from-IsByte :
    (f n : ℕ) (acc : List ℕ) → All IsByte acc → All IsByte (digits_from 256 f n acc)
unfolding digits_from
digits_from-IsByte zero n acc h = h
digits_from-IsByte (suc f) n acc h =
    ground (arith, digits_from-IsByte f (n / 256) ((n % 256) ∷ acc))

bytes-IsByte : (n : ℕ) → All IsByte (bytes n)
unfolding bytes
bytes-IsByte n = digits_from-IsByte n n [] tt

-- The bytes of r and s come back from the text of the signature.
pub decode_signature : (r s : ℕ) → decode (encode (bytes r ++ bytes s)) ≡ ok (bytes r ++ bytes s)
decode_signature r s =
    decode-encode _ (All-append IsByte (bytes r) (bytes s) (bytes-IsByte r) (bytes-IsByte s))

-- The halves meet where r has as many bytes as s, or one less.
halves :
    (xs ys : List ℕ)
    → length xs ≤ length ys
    → length ys ≤ length xs + 1
    → let n = length (xs ++ ys) / 2 in (take n (xs ++ ys) ≡ xs) × (drop n (xs ++ ys) ≡ ys)
halves xs ys h k =
    let e : length (xs ++ ys) / 2 ≡ length xs = omega (arith, length-append xs ys) in
    (rw e (take-length_append xs ys), rw e (drop-length_append xs ys))

module _ (p : Primitives) (random r s : ℕ) (hash private_str public_str : Str) (hash_bytes : List ℕ)
    (private_key : p.PrivateKey) (public_key : p.PublicKey)
    (private_parsed : parse_private_key p private_str ≡ ok private_key)
    (public_parsed : parse_public_key p public_str ≡ ok public_key)
    (hash_decoded : decode hash ≡ ok hash_bytes)
    (signed : p.ecdsa_sign random private_key hash_bytes ≡ some (r, s)) where
  pub sign-eq : sign p random hash private_str ≡ ok (encode (bytes r ++ bytes s))
  unfolding sign
  sign-eq = rw (private_parsed, hash_decoded, signed)

  pub verify_signature-eq :
      (xs : List ℕ)
      → decode (encode xs) ≡ ok xs
      → let n = length xs / 2 in
        verify_signature p hash (encode xs) public_str
        ≡ ok (p.ecdsa_verify public_key hash_bytes (set_bytes (take n xs)) (set_bytes (drop n xs)))
  unfolding verify_signature
  verify_signature-eq xs e = rw (public_parsed, hash_decoded, e)

  -- What `crypto.Sign` returns for a private key, `crypto.VerifySignature` accepts under a public
  -- key for which ECDSA accepts the signed numbers r and s, where both keys and the hash parse, and
  -- s has as many significant bytes as r or one more.
  pub sign-verify_signature :
      length (bytes r) ≤ length (bytes s)
      → length (bytes s) ≤ length (bytes r) + 1
      → p.ecdsa_verify public_key hash_bytes r s ≡ true
      → (signature : Str) × (sign p random hash private_str ≡ ok signature)
        × (verify_signature p hash signature public_str ≡ ok true)
  sign-verify_signature h k accepts =
      let split = halves (bytes r) (bytes s) h k in
      (
        encode (bytes r ++ bytes s),
        sign-eq,
        verify_signature-eq _ (decode_signature r s)
            ∙ rw (split.0, split.1, set_bytes-bytes r, set_bytes-bytes s, accepts) refl,
      )
