-- ===== src/Client/Ui/Payment.antt =====
-- A payment that the user asks for.
use nakamato_blockchain.Base.{ℕ, ◌≤◌, ◌<◌, ◌≡◌, true, some, List, [], ◌∷◌, ◌++◌, arith, All}
use nakamato_blockchain.Base.Int.{pos, int64_half}
use nakamato_blockchain.Base.Text.{Str}
use nakamato_blockchain.Base.Dict.{Dict, lookup}
use nakamato_blockchain.Types.{Utxo, Transaction, ok}
use nakamato_blockchain.Encoding.Decimal.{parse_int}
use nakamato_blockchain.Crypto.{Primitives, key_to_addr}
use nakamato_blockchain.Block.Work.{HasDigests}
use nakamato_blockchain.Transaction.{new_transaction}
use nakamato_blockchain.Transaction.Value.{value}
use nakamato_blockchain.Transaction.Create.{IsSpendable}
use nakamato_blockchain.UtxoSet
use nakamato_blockchain.UtxoSet.{UtxoSet, get, get_utxos}
use nakamato_blockchain.PeerManager.{trim_space}
use nakamato_blockchain.Convert.{convert_transaction_to_grpc}
use nakamato_blockchain.Client.{Client, pick_miner, grpc_port}
use nakamato_blockchain.Client.Signing.{IsKeyPair, Splits, IsMarshalled}
use nakamato_blockchain.Client.Created.{IsCreated, create_for_succeeds}
use nakamato_blockchain.Client.Ui.{Request, Chance, deliver, handle_send_transaction}

module _ (p : Primitives) (key_map : Dict Str) (miner_ips : List Str) (c : Client) (r : Request)
    (d : Chance) (amount : ℕ) (private_str ip : Str)
    (typed : parse_int (trim_space r.amount) ≡ some (pos amount))
    (known : lookup (trim_space r.sender) key_map ≡ some private_str)
    (picked : pick_miner miner_ips d.miner ≡ ok ip) (delivered : d.delivered ≡ true)
    (k : IsKeyPair p d.random private_str (trim_space r.sender)) (digests : HasDigests p)
    (marshalled : IsMarshalled p)
    (splits : (chosen : List Utxo) (draft : Transaction)
      → get_utxos c.utxo_set (key_to_addr p (trim_space r.sender)) (pos amount) ≡ ok chosen
      → new_transaction p d.now chosen (trim_space r.sender) (trim_space r.recipient) (pos amount)
        ≡ ok draft
      → Splits p d.random k.private_key draft)
    (spendable : All
      (IsSpendable (key_to_addr p (trim_space r.sender)))
      (get c.utxo_set (key_to_addr p (trim_space r.sender))))
    (small : value (get c.utxo_set (key_to_addr p (trim_space r.sender))) < int64_half)
    (positive : 0 < amount)
    (enough : amount ≤ value (get c.utxo_set (key_to_addr p (trim_space r.sender)))) where
  -- Where the user types a positive amount that the sender's spendable UTXOs cover, worth less than
  -- 2 ^ 63 together, and the sender's key is known, and a miner is picked and takes the
  -- transaction, `handleSendTransaction` creates the payment, sends it to this miner, updates its
  -- set and reports the hash. Both keys parse, ECDSA signs with the private one and accepts under
  -- the sender's what it signs, s of this signature has as many significant bytes as r or one more,
  -- a digest is one or more bytes, and JSON of a transaction never fails.
  pub handle_send_transaction_pays :
      (tx : Transaction) × IsCreated p c.utxo_set
        (trim_space r.sender)
        (trim_space r.recipient)
        amount
        tx
      × (handle_send_transaction p key_map miner_ips c r d ≡ (
        ok tx.hash,
        record {
          utxo_set = (UtxoSet.add_transaction p c.utxo_set tx).1;
          sent = c.sent ++ (ip ++ grpc_port, convert_transaction_to_grpc tx) ∷ [];
        },
      ))
  unfolding handle_send_transaction deliver
  handle_send_transaction_pays =
      let (tx, made, created) =
        create_for_succeeds p d.now d.random c.utxo_set (trim_space r.sender) private_str
          (trim_space r.recipient) amount k digests marshalled splits spendable small positive
          enough in
      (tx, created, ground (arith, typed, known, picked, delivered, made, positive, created.taken))
