-- ===== src/Client/Ui/Report.antt =====
-- The status that the menu reports, when a node of this program answers.
use nakamato_blockchain.Base.{
  ◌≡◌, refl, Option, some, List, ◌∷◌, arith, if◌then◌else◌, Bool-cases, inl, inr,
}
use nakamato_blockchain.Base.Int.{ℤ, pos}
use nakamato_blockchain.Base.Text.{Str, Str-discrete}
use nakamato_blockchain.PeerManager.{trim_space}
use nakamato_blockchain.Convert.{TransactionStatus}
use nakamato_blockchain.Server.{BlockchainServer}
use nakamato_blockchain.Server.Incoming.{get_transaction_status, transaction_status}
use nakamato_blockchain.Client.Ui.{status_error, is_confirmed, handle_check_status}

-- The answers of a node, at whatever address.
abbrev pub node_answers : BlockchainServer → Str → Str → ℤ → Option TransactionStatus
node_answers s miner_addr hash k = some (transaction_status s hash k)

-- What `handleCheckStatus` reports when a node of this program answers is that the transaction is
-- confirmed, if the node finds it so for three blocks, and an error if not: never that it is not
-- yet confirmed, since the node's response then has an error text.
pub handle_check_status-node :
    (s : BlockchainServer) (miner : Str) (miners : List Str) (tx_hash : Str)
    → handle_check_status (node_answers s) (miner ∷ miners) tx_hash ≡ (
        if get_transaction_status s (trim_space tx_hash) (pos 3)
        then is_confirmed
        else status_error)
unfolding handle_check_status transaction_status Str-discrete
handle_check_status-node s miner miners tx_hash =
    elim (Bool-cases (get_transaction_status s (trim_space tx_hash) (pos 3))) [
      | inl yes_ ↦ rw yes_ refl
      | inr no_ ↦ rw no_ (ground arith)
    ]
