-- ===== src/Client.antt =====
-- cmd/client/main.go, and the functions of it that cmd/clientui/main.go repeats. What a file holds is a
-- parameter, by its decoded entries: none if it cannot be opened or decoded. The client's own UTXO set
-- and what it has sent are its state; the lock makes each call one step.
pub mod Signing
pub mod Prefix
pub mod Created
pub mod Rounds
pub mod Ui
pub mod Total
pub mod Start
pub mod Running
pub mod Balances
use nakamato_blockchain.Base.{
  ℕ, ◌+◌, ◌%◌, Bool, Option, none, some, List, [], ◌∷◌, ◌++◌, ◌==◌, length, get_elem?,
  if◌then◌else◌,
}
use nakamato_blockchain.Base.Int.{ℤ, pos}
use nakamato_blockchain.Base.Text.{Str, codes, str_eq}
use nakamato_blockchain.Base.Dict.{Dict, lookup, insert}
use nakamato_blockchain.Types.{
  Utxo, Transaction, Error, file_not_read, Result, ok, err, panic, ◌>>=◌,
}
use nakamato_blockchain.Crypto.{Primitives, key_to_addr}
use nakamato_blockchain.Transaction
use nakamato_blockchain.Transaction.{new_transaction}
use nakamato_blockchain.UtxoSet
use nakamato_blockchain.UtxoSet.{UtxoSet, add_utxo, get_utxos}
use nakamato_blockchain.Convert.{GrpcTransaction, convert_transaction_to_grpc}

-- An entry of the file of first UTXOs.
pub record UtxoEntry : Type 0 where
  pub public_key : Str
  pub utxos : List Utxo

pub record KeyPair : Type 0 where
  pub public_key : Str
  pub private_key : Str

unfoldable pub key_map_from : Dict Str → List KeyPair → Dict Str
key_map_from d [] = d
key_map_from d (k ∷ ks) = key_map_from (insert k.public_key k.private_key d) ks

unfoldable pub read_key_map : Option (List KeyPair) → Result (Dict Str)
unfolding key_map_from
read_key_map none = err file_not_read
read_key_map (some key_pairs) = ok (key_map_from [] key_pairs)

-- The UTXOs of one entry, put under the address of the entry's key whatever address they name.
unfoldable pub populate_entry : Str → UtxoSet → List Utxo → UtxoSet
populate_entry address u [] = u
populate_entry address u (x ∷ xs) =
    populate_entry address (add_utxo u (record x { address = address })) xs

unfoldable pub populate_entries : Primitives → UtxoSet → List UtxoEntry → UtxoSet
unfolding populate_entry
populate_entries p u [] = u
populate_entries p u (e ∷ es) =
    populate_entries p (populate_entry (key_to_addr p e.public_key) u e.utxos) es

unfoldable pub populate_initial_utxo_set :
    Primitives → UtxoSet → Option (List UtxoEntry) → Result (Unit {0}) × UtxoSet
populate_initial_utxo_set p u none = (err file_not_read, u)
populate_initial_utxo_set p u (some entries) = (ok tt, populate_entries p u entries)

abbrev pub signed : Result (Unit {0}) × Transaction → Result Transaction
signed (ok _, tx) = ok tx
signed (err e, tx) = err e
signed (panic, tx) = panic

-- Selects, creates and signs. An error that is wrapped stays the error that it wraps.
unfoldable pub create_for : Primitives → ℤ → ℕ → UtxoSet → Str → Str → Str → ℤ → Result Transaction
create_for p now random u sender_pub_key private_key receiver_pub_key amount =
    get_utxos u (key_to_addr p sender_pub_key) amount >>= λ selected_utxos.
    new_transaction p now selected_utxos sender_pub_key receiver_pub_key amount >>= λ tx.
    signed (Transaction.sign p random tx private_key)

-- What one round of the loop takes from the clock, the random source, the order in which the keys are
-- visited, and the miner's answer.
pub record Draw : Type 0 where
  pub now : ℤ
  pub random : ℕ
  pub amount : ℕ
  pub miner : ℕ
  pub recipients : List Str
  pub delivered : Bool

-- `rand.Int63n(5) + 1`
abbrev pub amount_of : Draw → ℕ
amount_of d = d.amount % 5 + 1

unfoldable pub create_transaction :
    Primitives → Draw → UtxoSet → Str → Str → Str → Result Transaction
unfolding create_for
create_transaction p d u sender_pub_key private_key receiver_pub_key =
    create_for p d.now d.random u sender_pub_key private_key receiver_pub_key (pos (amount_of d))

-- The first key of the visit that is not the sender's, or the empty text.
unfoldable pub other_key : Str → List Str → Str
other_key sender [] = []
other_key sender (k ∷ ks) = let rest = other_key sender ks in if str_eq k sender then rest else k

-- `keyMap[k]`: the empty text for a missing key.
abbrev pub or_empty_text : Option Str → Str
or_empty_text none = []
or_empty_text (some s) = s

-- `minerIPs[rand.Intn(len(minerIPs))]`, by the number drawn; a panic if there is none.
unfoldable pub pick_miner : List Str → ℕ → Result Str
pick_miner ips drawn =
    if length ips == 0
    then panic
    else elim (get_elem? ips (drawn % length ips)) [ none ↦ panic | some ip ↦ ok ip ]

abbrev pub grpc_port : Str
grpc_port = codes ":50051"

pub record Client : Type 0 where
  pub utxo_set : UtxoSet
  pub sent : List (Str × GrpcTransaction)

-- The transaction goes out to the miner. If the miner takes it, the client's set follows; where that
-- fails, what was changed stays.
unfoldable pub send_and_update : Primitives → Bool → Client → Transaction → Str → Client
send_and_update p delivered c tx ip =
    let sent = c.sent ++ (ip ++ grpc_port, convert_transaction_to_grpc tx) ∷ [] in
    if delivered
    then record { utxo_set = (UtxoSet.add_transaction p c.utxo_set tx).1; sent = sent }
    else record c { sent = sent }

-- One round of the loop of `createAndSendTransactions`. A panic ends the program.
unfoldable pub send_round : Primitives → Dict Str → List Str → Client → Str → Draw → Result Client
unfolding other_key
send_round p key_map miner_ips c sender d = elim (UtxoSet.get c.utxo_set (key_to_addr p sender)) [
  | [] ↦ ok c
  | _ ∷ _ ↦
      elim (create_transaction p d c.utxo_set sender (or_empty_text (lookup sender key_map))
        (other_key sender d.recipients)) [
          | err _ ↦ ok c
          | panic ↦ panic
          | ok tx ↦
              pick_miner miner_ips d.miner >>= λ ip. ok (send_and_update p d.delivered c tx ip)
        ]
]

-- The keys in the order of the visit, each with what its round draws.
unfoldable pub create_and_send_transactions :
    Primitives → Dict Str → List Str → Client → List (Str × Draw) → Result Client
create_and_send_transactions p key_map miner_ips c [] = ok c
create_and_send_transactions p key_map miner_ips c ((sender, d) ∷ rounds) =
    send_round p key_map miner_ips c sender d >>= λ c'.
    create_and_send_transactions p key_map miner_ips c' rounds
