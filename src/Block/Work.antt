-- ===== src/Block/Work.antt =====
-- Proof of work: the digest of the header, read as a number, lies below the difficulty.
use nakamato_blockchain.Base.{
  ℕ, ◌<◌, ◌≡◌, true, none, some, inl, inr, ◌⊎◌, List, arith, length, All, Option-cases,
}
use nakamato_blockchain.Base.Int.{pos}
use nakamato_blockchain.Types.{Block}
use nakamato_blockchain.Encoding.Hex.{encode, IsByte}
use nakamato_blockchain.Encoding.BigInt.{set_bytes, parse_hex, parse_hex-encode}
use nakamato_blockchain.Crypto.{Primitives, block_header, hash_of, set_string}
use nakamato_blockchain.Block.{verify_hash, verify}
use nakamato_blockchain.Block.Validity.{IsValid, verified-IsValid}

-- A digest is a non-empty run of bytes (SHA-256 gives 32).
abbrev pub HasDigests : Primitives → Type 0
HasDigests p = (json : List ℕ) → All IsByte (p.sha256 json) × (0 < length (p.sha256 json))

set_string-hex :
    (p : Primitives) (s : List ℕ) (n : ℕ) → parse_hex s ≡ some (pos n) → set_string p s ≡ pos n
unfolding set_string
set_string-hex p s n h = ground arith

-- A verified block carries work: its hash is the text of a digest of its header which, read as a
-- big-endian number, is smaller than its difficulty. The difficulty is the text of a natural
-- number, and a digest is one or more bytes.
pub verify-work :
    (p : Primitives) (b : Block) (difficulty : ℕ)
    → HasDigests p
    → parse_hex b.header.difficulty ≡ some (pos difficulty)
    → verify p b ≡ true
    → (json : List ℕ) × (p.marshal (block_header b.header) ≡ some json)
      × (b.hash ≡ encode (p.sha256 json))
      × (set_bytes (p.sha256 json) < difficulty)
verify-work p b difficulty digests parsed h = go (Option-cases (p.marshal (block_header b.header)))
  where
    v : IsValid p b
    v = verified-IsValid p b h

    go :
        (p.marshal (block_header b.header) ≡ none)
          ⊎ ((json : List ℕ) × (p.marshal (block_header b.header) ≡ some json))
        → (json : List ℕ) × (p.marshal (block_header b.header) ≡ some json)
          × (b.hash ≡ encode (p.sha256 json))
          × (set_bytes (p.sha256 json) < difficulty)
    go (inl e) = absurd (unfold hash_of in ground (arith, v.header_hashed))
    go (inr (json, e)) =
        let (bytes, some_byte) = digests json in
        let text : b.hash ≡ encode (p.sha256 json) =
          unfold hash_of in ground (arith, v.header_hashed) in
        let number : set_string p b.hash ≡ pos (set_bytes (p.sha256 json)) =
          rw text (set_string-hex p _ _ (parse_hex-encode (p.sha256 json) some_byte bytes)) in
        let target = set_string-hex p b.header.difficulty difficulty parsed in
        (json, e, text, unfold verify_hash in ground (arith, v.worked))
