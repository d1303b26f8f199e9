-- ===== src/Client/Ui.antt =====
-- cmd/clientui/main.go: the menu. What the user types is a parameter, and so are the answers of the
-- miner: none for a failed call. What the program prints is a value.
pub mod Payment
pub mod Report
pub mod Menu
pub mod Sending
pub mod Session
use nakamato_blockchain.Base.{
  ℕ, zero, suc, ◌+◌, ◌-◌, ◌*◌, ◌≤◌, ◌<◌, ◌≡◌, ◌≢◌, refl, sym, ap, Bool, true, false, ◌&&◌, Option,
  none, some, List, [], ◌∷◌, ◌++◌, arith, ◌∙◌, if◌then◌else◌, ltb, leb, ◌==◌,
}
use nakamato_blockchain.Base.Int.{
  ℤ, pos, negsuc, pos_part, neg_part, IsInt64, int64_half, ltb_ℤ, leb_ℤ,
}
use nakamato_blockchain.Base.Text.{Str, codes, str_eq}
use nakamato_blockchain.Base.Dict.{Dict, lookup}
use nakamato_blockchain.Types.{
  Utxo, Transaction, Error, invalid_amount, key_not_found, not_sent, Result, ok, err, panic, ◌>>=◌,
}
use nakamato_blockchain.Encoding.Decimal.{parse_int}
use nakamato_blockchain.Crypto.{Primitives, key_to_addr}
use nakamato_blockchain.Transaction.{sum_amounts}
use nakamato_blockchain.UtxoSet
use nakamato_blockchain.UtxoSet.{UtxoSet}
use nakamato_blockchain.PeerManager.{trim_space}
use nakamato_blockchain.Convert.{GrpcTransaction, TransactionStatus, convert_transaction_to_grpc}
use nakamato_blockchain.Client.{Client, Draw, create_for, pick_miner, grpc_port}

-- What the user types.
pub record Request : Type 0 where
  pub sender : Str
  pub recipient : Str
  pub amount : Str

-- What the call takes from the clock, the random source and the miner.
pub record Chance : Type 0 where
  pub now : ℤ
  pub random : ℕ
  pub miner : ℕ
  pub delivered : Bool

abbrev updated :
    Client
    → List (Str × GrpcTransaction)
    → Transaction
    → Result (Unit {0}) × UtxoSet
    → Result Str × Client
updated c sent tx (ok _, u) = (ok tx.hash, record { utxo_set = u; sent = sent })
updated c sent tx (err e, u) = (err e, record { utxo_set = u; sent = sent })
updated c sent tx (panic, u) = (panic, record { utxo_set = u; sent = sent })

-- Sends, and updates the set if the miner took the transaction.
unfoldable pub deliver : Primitives → Bool → Client → Transaction → Str → Result Str × Client
deliver p delivered c tx ip =
    let sent = c.sent ++ (ip ++ grpc_port, convert_transaction_to_grpc tx) ∷ [] in
    if delivered
    then updated c sent tx (UtxoSet.add_transaction p c.utxo_set tx)
    else (err not_sent, record c { sent = sent })

abbrev deliver_to : Primitives → Bool → Client → Transaction → Result Str → Result Str × Client
deliver_to p delivered c tx (ok ip) = deliver p delivered c tx ip
deliver_to p delivered c tx (err e) = (err e, c)
deliver_to p delivered c tx panic = (panic, c)

abbrev deliver_created :
    Primitives → List Str → Client → Chance → Result Transaction → Result Str × Client
deliver_created p miner_ips c d (ok tx) =
    deliver_to p d.delivered c tx (pick_miner miner_ips d.miner)
deliver_created p miner_ips c d (err e) = (err e, c)
deliver_created p miner_ips c d panic = (panic, c)

abbrev with_amount : Option ℤ → (ℤ → Result Str × Client) → Client → Result Str × Client
with_amount none f c = (err invalid_amount, c)
with_amount (some a) f c = if leb_ℤ a (pos 0) then (err invalid_amount, c) else f a

abbrev with_key : Option Str → (Str → Result Str × Client) → Client → Result Str × Client
with_key none f c = (err key_not_found, c)
with_key (some k) f c = f k

-- The result is the hash of the transaction that was sent.
unfoldable pub handle_send_transaction :
    Primitives → Dict Str → List Str → Client → Request → Chance → Result Str × Client
handle_send_transaction p key_map miner_ips c r d =
    let sender = trim_space r.sender in
    with_amount (parse_int (trim_space r.amount))
      (λ amount.
        with_key (lookup sender key_map)
          (λ private_key. deliver_created p miner_ips c d (
            create_for p d.now d.random c.utxo_set sender private_key (trim_space r.recipient)
              amount))
          c)
      c

-- The balance that is printed for a key.
unfoldable pub handle_get_balance : Primitives → Client → Str → ℤ
handle_get_balance p c pub_key =
    sum_amounts (pos 0) (UtxoSet.get c.utxo_set (key_to_addr p (trim_space pub_key)))

-- A response with an error text is an error.
unfoldable pub check_transaction_status :
    (Str → Str → ℤ → Option TransactionStatus) → Str → Str → ℤ → Option Bool
check_transaction_status answer tx_hash miner_addr k = elim (answer miner_addr tx_hash k) [
  | none ↦ none
  | some resp ↦ if str_eq resp.error [] then some resp.confirmed else none
]

-- What `handleCheckStatus` prints.
pub data StatusReport : Type 0 where
  no_miners status_error is_confirmed not_confirmed : StatusReport

abbrev reported : Option Bool → StatusReport
reported none = status_error
reported (some true) = is_confirmed
reported (some false) = not_confirmed

-- The first miner is asked, for three blocks.
unfoldable pub handle_check_status :
    (Str → Str → ℤ → Option TransactionStatus) → List Str → Str → StatusReport
unfolding check_transaction_status
handle_check_status answer [] tx_hash = no_miners
handle_check_status answer (miner ∷ _) tx_hash =
    reported (check_transaction_status answer (trim_space tx_hash) (miner ++ grpc_port) (pos 3))
