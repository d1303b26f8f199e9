-- ===== src/Network/Transactions.antt =====
-- A transaction on its way through a network.
use nakamato_blockchain.Base.{
  ℕ, ◌≡◌, refl, ap, ◌∙◌, Bool, true, false, some, List, [], map, arith, get_elem?,
}
use nakamato_blockchain.Base.Text.{Str}
use nakamato_blockchain.Base.Dict.{lookup-insert}
use nakamato_blockchain.Types.{Transaction, ok, err, duplicate_transaction}
use nakamato_blockchain.Crypto.{Primitives}
use nakamato_blockchain.Transaction
use nakamato_blockchain.TransactionPool
use nakamato_blockchain.Blockchain
use nakamato_blockchain.Convert.{convert_transaction_to_grpc}
use nakamato_blockchain.Convert.RoundTrip.{FitsTransaction, transaction_round_trip}
use nakamato_blockchain.Server.{
  BlockchainServer, Message, submit_transaction, list_peer_clients, broadcast_transaction,
  handle_transaction_submission,
}
use nakamato_blockchain.Server.Incoming
use nakamato_blockchain.Network.{set, handle, receive}
use nakamato_blockchain.Network.Gossip.{Gossip, receive-handle}

-- The call that brings the transaction to node i.
abbrev pub call : Transaction → ℕ → Message
call tx i = submit_transaction i (convert_transaction_to_grpc tx)

-- The pool of the node has the transaction.
abbrev pub knows : Transaction → BlockchainServer → Bool
knows tx s = TransactionPool.has_transaction s.tx_pool tx.hash

-- A transaction that verifies and that the messages can carry.
pub record IsSound (p : Primitives) (tx : Transaction) : Type 0 where
  pub verified : Transaction.verify p tx ≡ true
  pub fits : FitsTransaction tx

-- The chain of the node does not have the transaction.
abbrev pub IsNew : Transaction → BlockchainServer → Type 0
IsNew tx s = Blockchain.has_transaction s.blockchain tx.hash ≡ false

-- The pool of the node does not have the transaction.
abbrev pub IsUnknown : Transaction → BlockchainServer → Type 0
IsUnknown tx s = knows tx s ≡ false

-- The node with the transaction in its pool.
abbrev pub pooled : Transaction → BlockchainServer → BlockchainServer
pooled tx s = record s { tx_pool = (TransactionPool.add_transaction s.tx_pool tx).1 }

module _ (p : Primitives) (tx : Transaction) (sound : IsSound p tx) where
  pub pooled-knows : (s : BlockchainServer) → knows tx (pooled tx s) ≡ true
  unfolding TransactionPool.has_transaction TransactionPool.add_transaction
  pooled-knows s = ground (arith, lookup-insert tx.hash tx.hash tx s.tx_pool.transactions)

  module _ (nodes : List BlockchainServer) (peer : Str) (i : ℕ) (s : BlockchainServer)
      (at_i : get_elem? nodes i ≡ some s) (new : IsNew tx s) where
    pub receive-pooled :
        knows tx s ≡ true → receive p nodes peer (call tx i) ≡ some (set i s nodes, [])
    unfolding handle Incoming.submit_transaction handle_transaction_submission
    receive-pooled known =
        receive-handle p nodes peer (call tx i) s _ at_i (
          ap (handle_transaction_submission p s) (transaction_round_trip tx sound.fits) ∙ submitted)
      where
        submitted :
            handle_transaction_submission p s tx
            ≡ record { result = err duplicate_transaction; server = s; sent = [] }
        submitted = ground (arith, new, sound.verified, known)

    pub receive-unpooled :
        knows tx s ≡ false
        → receive p nodes peer (call tx i)
          ≡ some (set i (pooled tx s) nodes, map (call tx) (list_peer_clients s.peer_manager))
    unfolding handle Incoming.submit_transaction handle_transaction_submission broadcast_transaction
    receive-unpooled unknown =
        receive-handle p nodes peer (call tx i) s _ at_i (
          ap (handle_transaction_submission p s) (transaction_round_trip tx sound.fits) ∙ submitted)
      where
        submitted : handle_transaction_submission p s tx ≡ record {
          result = ok true;
          server = pooled tx s;
          sent = map (call tx) (list_peer_clients s.peer_manager);
        }
        submitted = ground (arith, new, sound.verified, unknown)

  abbrev pub transaction_gossip : Gossip p
  transaction_gossip = record {
    call = call tx;
    knows = knows tx;
    taking = pooled tx;
    IsReady = IsNew tx;
    taking-knows = λ s _ _. pooled-knows s;
    taking-IsReady = λ s new _. new;
    taking-peers = λ s. refl;
    call-receiver = λ i. refl;
    receive-known = receive-pooled;
    receive-taken = receive-unpooled;
  }
