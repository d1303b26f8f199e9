-- ===== src/Client/Signing.antt =====
-- What a key pair is, and that what is signed with the one key verifies under the other.
use nakamato_blockchain.Base.{ℕ, ◌+◌, ◌≤◌, ◌≡◌, refl, sym, ap, true, some, List, arith, length, ◌∙◌}
use nakamato_blockchain.Base.Int.{ℤ}
use nakamato_blockchain.Base.Text.{Str}
use nakamato_blockchain.Types.{Utxo, Transaction, ok}
use nakamato_blockchain.Encoding.Hex.{encode, decode, decode-encode}
use nakamato_blockchain.Encoding.BigInt.{bytes}
use nakamato_blockchain.Crypto.{
  Primitives, transaction, hash_of, parse_private_key, parse_public_key,
}
use nakamato_blockchain.Crypto.Signature.{sign-verify_signature}
use nakamato_blockchain.Block.Work.{HasDigests}
use nakamato_blockchain.Transaction
use nakamato_blockchain.Transaction.{verify_content, new_transaction}

-- A private key that parses, with the public key that belongs to it: ECDSA signs with the one, and what
-- it signs it accepts under the other.
pub record IsKeyPair (p : Primitives) (random : ℕ) (private_str public_str : Str) : Type 0 where
  pub private_key : p.PrivateKey
  pub public_key : p.PublicKey
  pub private_parsed : parse_private_key p private_str ≡ ok private_key
  pub public_parsed : parse_public_key p public_str ≡ ok public_key
  pub signs : (h : List ℕ) → (r s : ℕ) × (p.ecdsa_sign random private_key h ≡ some (r, s))
  pub accepts :
      (h : List ℕ) (r s : ℕ)
      → p.ecdsa_sign random private_key h ≡ some (r, s)
      → p.ecdsa_verify public_key h r s ≡ true

-- The two numbers of the signature of this transaction come apart again in the middle: s has as many
-- significant bytes as r or one more.
abbrev pub Splits : (p : Primitives) → ℕ → p.PrivateKey → Transaction → Type 0
Splits p random private_key tx =
    (json : List ℕ) (r s : ℕ)
    → p.marshal (transaction tx) ≡ some json
    → p.ecdsa_sign random private_key (p.sha256 json) ≡ some (r, s)
    → (length (bytes r) ≤ length (bytes s)) × (length (bytes s) ≤ length (bytes r) + 1)

-- `json.Marshal` of a transaction never fails.
abbrev pub IsMarshalled : Primitives → Type 0
IsMarshalled p = (tx : Transaction) → (json : List ℕ) × (p.marshal (transaction tx) ≡ some json)

pub new_transaction-content :
    (p : Primitives) (now : ℤ) (inputs : List Utxo) (sender receiver : Str) (amount : ℤ)
    (tx : Transaction)
    → new_transaction p now inputs sender receiver amount ≡ ok tx
    → (verify_content p tx ≡ true) × (tx.content.sender_pub_key ≡ sender)
unfolding new_transaction
new_transaction-content p now inputs sender receiver amount tx h = ground arith

pub content-signed :
    (p : Primitives) (tx : Transaction) (signature hash : Str)
    → verify_content p (record tx { signature = signature; hash = hash }) ≡ verify_content p tx
unfolding verify_content
content-signed p tx signature hash = refl

pub both-verify :
    (p : Primitives) (tx : Transaction)
    → verify_content p tx ≡ true
    → Transaction.verify_signature p tx ≡ true
    → Transaction.verify p tx ≡ true
unfolding Transaction.verify
both-verify p tx h k = ground (arith, h, k)

-- Signing with a key pair succeeds, and what was signed verifies where its signature splits.
pub sign_verifies :
    (p : Primitives) (random : ℕ) (tx : Transaction) (private_str sender : Str)
    (k : IsKeyPair p random private_str sender)
    → sender ≡ tx.content.sender_pub_key
    → Splits p random k.private_key tx
    → HasDigests p
    → IsMarshalled p
    → verify_content p tx ≡ true
    → (signature hash : Str) × (Transaction.sign p random tx private_str
        ≡ (ok tt, record tx { signature = signature; hash = hash }))
      × (Transaction.verify p (record tx { signature = signature; hash = hash }) ≡ true)
sign_verifies p random tx private_str sender k from splits digests marshalled content =
    let (json, e) = marshalled tx in
    let digest = p.sha256 json in
    let hash = encode digest in
    let decoded : decode hash ≡ ok digest = decode-encode digest (digests json).0 in
    let (r, s, signs) = k.signs digest in
    let (not_shorter, not_longer) = splits json r s e signs in
    let (signature, made, verified) =
      sign-verify_signature p random r s hash private_str tx.content.sender_pub_key digest
        k.private_key k.public_key k.private_parsed
        (ap (parse_public_key p) (sym from) ∙ k.public_parsed) decoded signs not_shorter not_longer
        (k.accepts digest r s signs) in
    let hashed : hash_of p (transaction tx) ≡ ok hash = unfold hash_of in rw e in
    (
      signature,
      hash,
      unfold Transaction.sign in rw (hashed, made),
      both-verify p (record tx { signature = signature; hash = hash })
          (content-signed p tx signature hash ∙ content)
          (unfold Transaction.verify_signature in rw verified),
    )
