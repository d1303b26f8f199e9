-- ===== src/Examples/Wallet.antt =====
-- A client on the data of the tests.
use nakamato_blockchain.Base.{
  ◌≡◌, ◌≤◌, ◌+◌, ℕ, subst, length, Option, refl, true, false, some, [], ◌∷◌, ◌++◌, arith, All,
  ℕ_discrete, if◌then◌else◌,
}
use nakamato_blockchain.Base.Int.{pos, ℤ-discrete}
use nakamato_blockchain.Base.Text.{Str, Str-discrete, codes}
use nakamato_blockchain.Base.Dict.{Dict, lookup}
use nakamato_blockchain.Types.{Transaction, ok}
use nakamato_blockchain.Encoding.BigInt.{bytes, digits_from}
use nakamato_blockchain.Encoding.Decimal.{parse_int, decimal_from}
use nakamato_blockchain.Crypto.{key_to_addr, parse_private_key, parse_public_key}
use nakamato_blockchain.Transaction.Value.{value}
use nakamato_blockchain.Transaction.Create.{IsSpendable}
use nakamato_blockchain.UtxoSet
use nakamato_blockchain.UtxoSet.{get, check_transaction}
use nakamato_blockchain.Blockchain
use nakamato_blockchain.Blockchain.{any_block, any_hash}
use nakamato_blockchain.TransactionPool
use nakamato_blockchain.TransactionPool.{new_transaction_pool}
use nakamato_blockchain.PeerManager.{trim_space, trim_left, trim_right, is_space}
use nakamato_blockchain.Convert.{convert_transaction_to_grpc}
use nakamato_blockchain.Server.Incoming.{submit_transaction, get_transaction_status}
use nakamato_blockchain.Client.{Client, Draw, create_for, pick_miner, grpc_port}
use nakamato_blockchain.Client.Signing.{IsKeyPair, IsMarshalled}
use nakamato_blockchain.Client.Created.{IsCreated, create_for_succeeds, created_pooled}
use nakamato_blockchain.Client.Ui.{
  Request, Chance, is_confirmed, status_error, handle_send_transaction, handle_check_status,
}
use nakamato_blockchain.Client.Ui.Payment.{handle_send_transaction_pays}
use nakamato_blockchain.Client.Ui.Report.{node_answers, handle_check_status-node}
use nakamato_blockchain.Examples.{toy, home, coin, one_coin}
use nakamato_blockchain.Examples.Chain.{toy-HasDigests}
use nakamato_blockchain.Examples.Node.{node}

abbrev pub me : Str
me = codes "key"

abbrev pub you : Str
you = codes "you"

my_keys : IsKeyPair toy 0 (codes "secret") me
unfolding parse_private_key parse_public_key
my_keys = record {
  private_key = 1;
  public_key = 1;
  private_parsed = refl;
  public_parsed = refl;
  signs = λ _. (300, 1000, refl);
  accepts = λ _ _ _ _. refl;
}

-- The two numbers of every signature have two bytes.
pub two_bytes :
    (r s : ℕ)
    → ◌≡◌ {A = Option (ℕ × ℕ)} (some (300, 1000)) (some (r, s))
    → (length (bytes r) ≤ length (bytes s)) × (length (bytes s) ≤ length (bytes r) + 1)
unfolding bytes digits_from
two_bytes r s e =
    let first : 300 ≡ r = cc e in
    let second : 1000 ≡ s = cc e in
    subst
      (λ (x : ℕ). (length (bytes x) ≤ length (bytes s)) × (length (bytes s) ≤ length (bytes x) + 1))
      first
      (subst
        (λ (y : ℕ).
          (length (bytes 300) ≤ length (bytes y)) × (length (bytes y) ≤ length (bytes 300) + 1))
        second (omega arith, omega arith))

toy-IsMarshalled : IsMarshalled toy
toy-IsMarshalled tx = (_, refl)

pub my_coins : get one_coin (key_to_addr toy me) ≡ coin 0 10 ∷ []
unfolding get lookup key_to_addr Str-discrete ℤ-discrete ℕ_discrete
my_coins = refl

my_address : key_to_addr toy me ≡ home
unfolding key_to_addr
my_address = refl

pub my_coins-IsSpendable :
    All (IsSpendable (key_to_addr toy me)) (get one_coin (key_to_addr toy me))
my_coins-IsSpendable = rw my_coins (rw my_address ((omega arith, (λ e. cc), refl), tt))

ten : value (get one_coin (key_to_addr toy me)) ≡ 10
ten = rw my_coins (unfold value in refl)

my_creation :
    (tx : Transaction) × (create_for toy (pos 1) 0 one_coin me (codes "secret") you (pos 4) ≡ ok tx)
    × IsCreated toy one_coin me you 4 tx
my_creation =
    create_for_succeeds toy (pos 1) 0 one_coin me (codes "secret") you 4 my_keys toy-HasDigests
      toy-IsMarshalled (λ _ _ _ _ _ r s _. two_bytes r s) my_coins-IsSpendable (omega (arith, ten))
      (omega arith) (omega (arith, ten))

-- What the client has made of its coin.
abbrev my_payment : Transaction
my_payment = my_creation.0

unknown_hash : TransactionPool.has_transaction node.tx_pool my_payment.hash ≡ false
unfolding TransactionPool.has_transaction new_transaction_pool lookup
unknown_hash = refl

new_hash : Blockchain.has_transaction node.blockchain my_payment.hash ≡ false
unfolding Blockchain.has_transaction any_block any_hash
new_hash = refl

created_pooled_example :
    ((submit_transaction toy node (convert_transaction_to_grpc my_payment)).result ≡ ok true)
    × (TransactionPool.get
          (submit_transaction toy node (convert_transaction_to_grpc my_payment)).server.tx_pool
          my_payment.hash
        ≡ ok my_payment)
    × (check_transaction toy one_coin my_payment ≡ true)
created_pooled_example =
    created_pooled toy (pos 1) 0 one_coin me (codes "secret") you 4 my_payment my_keys
      toy-HasDigests toy-IsMarshalled (λ _ _ _ _ _ r s _. two_bytes r s) my_coins-IsSpendable
      (omega (arith, ten)) (omega arith) my_creation.1 node (rw my_coins (omega arith, tt))
      unknown_hash new_hash

abbrev my_key_map : Dict Str
my_key_map = (me, codes "secret") ∷ []

abbrev my_client : Client
my_client = record { utxo_set = one_coin; sent = [] }

abbrev my_draw : Draw
my_draw = record {
  now = pos 1;
  random = 0;
  amount = 3;
  miner = 0;
  recipients = me ∷ you ∷ [];
  delivered = true;
}

abbrev my_request : Request
my_request = record { sender = codes " key"; recipient = you; amount = codes "4 " }

abbrev my_chance : Chance
my_chance = record { now = pos 1; random = 0; miner = 0; delivered = true }

sender_trimmed : trim_space (codes " key") ≡ me
unfolding trim_space trim_left trim_right is_space Str-discrete ℕ_discrete
sender_trimmed = refl

amount_read : parse_int (trim_space (codes "4 ")) ≡ some (pos 4)
unfolding parse_int decimal_from trim_space trim_left trim_right is_space Str-discrete ℕ_discrete
amount_read = refl

key_known : lookup (trim_space (codes " key")) my_key_map ≡ some (codes "secret")
key_known = rw sender_trimmed (unfold lookup Str-discrete ℕ_discrete in refl)

picked : pick_miner (codes "m" ∷ []) 0 ≡ ok (codes "m")
unfolding pick_miner
picked = refl

handle_send_transaction_pays_example :
    (tx : Transaction) × IsCreated toy one_coin (trim_space (codes " key")) (trim_space you) 4 tx
    × (handle_send_transaction toy my_key_map (codes "m" ∷ []) my_client my_request my_chance ≡ (
      ok tx.hash,
      record {
        utxo_set = (UtxoSet.add_transaction toy one_coin tx).1;
        sent = (codes "m" ++ grpc_port, convert_transaction_to_grpc tx) ∷ [];
      },
    ))
handle_send_transaction_pays_example =
    handle_send_transaction_pays toy my_key_map (codes "m" ∷ []) my_client my_request my_chance 4
      (codes "secret") (codes "m") amount_read key_known picked refl (rw sender_trimmed my_keys)
      toy-HasDigests toy-IsMarshalled (λ _ _ _ _ _ r s _. two_bytes r s)
      (rw sender_trimmed my_coins-IsSpendable) (rw sender_trimmed (omega (arith, ten)))
      (omega arith) (rw sender_trimmed (omega (arith, ten)))

handle_check_status-node_example :
    handle_check_status (node_answers node) (codes "m" ∷ []) (codes "bb") ≡ (
      if get_transaction_status node (trim_space (codes "bb")) (pos 3)
      then is_confirmed
      else status_error)
handle_check_status-node_example = handle_check_status-node node (codes "m") [] (codes "bb")
