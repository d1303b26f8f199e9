-- ===== src/Examples/Parts.antt =====
-- Signatures, messages, the pool and the peers on the data of the tests.
use nakamato_blockchain.Base.{ℕ, ◌≡◌, ◌⊎◌, refl, true, Option, none, some, [], ◌∷◌, arith}
use nakamato_blockchain.Base.Text.{Str, codes}
use nakamato_blockchain.Types.{ok}
use nakamato_blockchain.Encoding.Hex.{decode, digit_value}
use nakamato_blockchain.Encoding.BigInt.{bytes, digits_from}
use nakamato_blockchain.Crypto.{parse_private_key, parse_public_key, sign, verify_signature}
use nakamato_blockchain.Crypto.Signature.{sign-verify_signature}
use nakamato_blockchain.TransactionPool.{TransactionPool}
use nakamato_blockchain.Base.Dict.{lookup}
use nakamato_blockchain.PeerManager.{new_peer_manager, is_host_port, add_peers}
use nakamato_blockchain.PeerManager.Peers.{add_peers-lookup}
use nakamato_blockchain.Examples.{toy, pay}

private_parsed : parse_private_key toy (codes "k") ≡ ok 1
unfolding parse_private_key
private_parsed = refl

public_parsed : parse_public_key toy (codes "k") ≡ ok 1
unfolding parse_public_key
public_parsed = refl

aa_decoded : decode (codes "aa") ≡ ok (170 ∷ [])
unfolding decode digit_value
aa_decoded = refl

sign-verify_signature_example :
    (signature : Str) × (sign toy 0 (codes "aa") (codes "k") ≡ ok signature)
    × (verify_signature toy (codes "aa") signature (codes "k") ≡ ok true)
sign-verify_signature_example =
    sign-verify_signature toy 0 300 1000 (codes "aa") (codes "k") (codes "k") (170 ∷ []) 1 1
      private_parsed public_parsed aa_decoded refl (unfold bytes digits_from in omega arith)
      (unfold bytes digits_from in omega arith) refl

abbrev pool : TransactionPool
pool = record { transactions = (codes "bb", pay) ∷ [] }

-- Every address answers with connection 3.
abbrev split_any : Str → Option (Str × Str)
split_any s = some (s, s)

abbrev dial_any : Str → Option ℕ
dial_any s = some 3

add_peers-lookup_example :
    let after = add_peers split_any dial_any new_peer_manager (codes "a:1, b:2" ∷ []) in
    ((lookup (codes "a:1") after.peer_clients ≡ lookup (codes "a:1") new_peer_manager.peer_clients)
      ⊎ ((conn : ℕ) × (lookup (codes "a:1") new_peer_manager.peer_clients ≡ none)
          × (lookup (codes "a:1") after.peer_clients ≡ some conn)
          × (dial_any (codes "a:1") ≡ some conn)
          × (is_host_port (split_any (codes "a:1")) ≡ true)))
    × (after.blacklisted ≡ new_peer_manager.blacklisted)
    × (after.invalid_count ≡ new_peer_manager.invalid_count)
add_peers-lookup_example =
    add_peers-lookup split_any dial_any (codes "a:1, b:2" ∷ []) new_peer_manager (codes "a:1")
