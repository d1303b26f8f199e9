-- ===== src/Transaction/Forgery.antt =====
-- What a signature binds.
use nakamato_blockchain.Base.{◌≡◌, true, and-eq-true}
use nakamato_blockchain.Types.{TransactionContent, Transaction}
use nakamato_blockchain.Crypto.{Primitives}
use nakamato_blockchain.Transaction.{verify_content, verify_signature, verify}

-- `Transaction.Verify` does not tie the hash to the content: the content of a verified transaction
-- can be replaced by any other that names the same sender key and that `VerifyContent` accepts, and
-- the result verifies under the old hash and signature.
pub verify_forged :
    (p : Primitives) (tx : Transaction) (content : TransactionContent)
    → verify p tx ≡ true
    → content.sender_pub_key ≡ tx.content.sender_pub_key
    → verify_content p (record tx { content = content }) ≡ true
    → verify p (record tx { content = content }) ≡ true
unfolding verify verify_signature
verify_forged p tx content h same fits =
    rw (fits, same) (and-eq-true (verify_content p tx) (verify_signature p tx) h).1
