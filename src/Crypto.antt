-- ===== src/Crypto.antt =====
-- internal/crypto: hash.go, key.go, sign.go. SHA-256, JSON, base64, X.509 and ECDSA are the fields of
-- `Primitives`; hexadecimal text and big integers are those of Encoding.
pub mod Signature
pub mod Padding
use nakamato_blockchain.Base.{
  ℕ, ◌+◌, ◌/◌, ◌≡◌, Bool, true, false, Option, none, some, List, [], ◌∷◌, ◌++◌, length, take, drop,
}
use nakamato_blockchain.Base.Int.{ℤ}
use nakamato_blockchain.Base.Text.{Str, codes}
use nakamato_blockchain.Types.{
  Transaction, BlockHeader, Error, invalid_key, not_marshalled, not_signed, Result, ok, err, panic,
  ◌>>=◌,
}
use nakamato_blockchain.Encoding.Hex.{encode, decode}
use nakamato_blockchain.Encoding.BigInt.{set_bytes, bytes, parse_hex}

-- The values that the program hands to `Hash`.
pub data Hashable : Type 0 where
  text : Str → Hashable
  block_header : BlockHeader → Hashable
  transaction : Transaction → Hashable

pub record Primitives : Type 1 where
  pub PrivateKey : Type 0
  pub PublicKey : Type 0
  -- `json.Marshal`; none is an error
  pub marshal : Hashable → Option (List ℕ)
  -- `sha256.Sum256`
  pub sha256 : List ℕ → List ℕ
  -- `base64.StdEncoding`
  pub base64_encode : List ℕ → Str
  pub base64_decode : Str → Option (List ℕ)
  -- `x509.ParseECPrivateKey`
  pub parse_ec_private_key : List ℕ → Option PrivateKey
  -- `x509.ParsePKIXPublicKey`; the inner none is a key of another kind than ECDSA
  pub parse_pkix_public_key : List ℕ → Option (Option PublicKey)
  -- `ecdsa.Sign`, by what it draws from the random source
  pub ecdsa_sign : ℕ → PrivateKey → List ℕ → Option (ℕ × ℕ)
  -- `ecdsa.Verify`
  pub ecdsa_verify : PublicKey → List ℕ → ℕ → ℕ → Bool
  -- what `SetString` leaves in a big integer when it refuses the text
  pub unparsed : Str → ℤ

abbrev or_error {ℓ} : {A : Type ℓ} → Option A → Error → Result A
or_error none e = err e
or_error (some a) e = ok a

module _ (p : Primitives) where
  unfoldable pub hash_of : Hashable → Result Str
  hash_of v = or_error (p.marshal v) not_marshalled >>= λ json. ok (encode (p.sha256 json))

  unfoldable pub key_to_addr : Str → Str
  key_to_addr pub_key = elim (p.base64_decode pub_key) [
    | none ↦ codes "Invalid public key format"
    | some key_bytes ↦ p.base64_encode (0 ∷ take 20 (p.sha256 key_bytes))
  ]

  unfoldable pub parse_private_key : Str → Result p.PrivateKey
  parse_private_key s = or_error (p.base64_decode s) invalid_key >>= λ b.
      or_error (p.parse_ec_private_key b) invalid_key

  unfoldable pub parse_public_key : Str → Result p.PublicKey
  parse_public_key s = or_error (p.base64_decode s) invalid_key >>= λ b.
      or_error (p.parse_pkix_public_key b) invalid_key >>= λ k. or_error k invalid_key

  -- The signature is the bytes of r, then those of s.
  unfoldable pub sign : ℕ → Str → Str → Result Str
  unfolding parse_private_key
  sign random hash private_key_str = parse_private_key private_key_str >>= λ private_key.
      decode hash >>= λ hash_bytes.
      or_error (p.ecdsa_sign random private_key hash_bytes) not_signed >>= λ rs.
      ok (encode (bytes rs.0 ++ bytes rs.1))

  -- The first half of the signature is read as r, the rest as s.
  unfoldable pub verify_signature : Str → Str → Str → Result Bool
  unfolding parse_public_key
  verify_signature hash signature public_key_str = parse_public_key public_key_str >>= λ public_key.
      decode hash >>= λ hash_bytes. decode signature >>= λ sig_bytes.
      let r_len = length sig_bytes / 2 in
      ok (
        p.ecdsa_verify public_key hash_bytes (set_bytes (take r_len sig_bytes))
          (set_bytes (drop r_len sig_bytes)))

  -- `z.SetString(s, 16)`, its second result dropped.
  unfoldable pub set_string : Str → ℤ
  set_string s = elim (parse_hex s) [ none ↦ p.unparsed s | some z ↦ z ]
