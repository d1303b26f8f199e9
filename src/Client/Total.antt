-- ===== src/Client/Total.antt =====
-- With a miner to send to, the client's loop never panics.
use nakamato_blockchain.Base.{
  ℕ, zero, suc, ◌%◌, ◌<◌, ◌≡◌, ◌≢◌, refl, some, List, [], ◌∷◌, arith, length, get_elem?,
}
use nakamato_blockchain.Base.Int.{ℤ}
use nakamato_blockchain.Base.Text.{Str}
use nakamato_blockchain.Base.Dict.{Dict, lookup}
use nakamato_blockchain.Types.{
  Utxo, Transaction, Outcome, returned, failed, panicked, outcome, Result, ok, panic,
}
use nakamato_blockchain.Encoding.Hex.{decode}
use nakamato_blockchain.Crypto
use nakamato_blockchain.Crypto.{Primitives, Hashable, hash_of, key_to_addr, parse_private_key}
use nakamato_blockchain.Transaction
use nakamato_blockchain.Transaction.{new_transaction}
use nakamato_blockchain.UtxoSet
use nakamato_blockchain.UtxoSet.{UtxoSet, get_utxos}
use nakamato_blockchain.Client.{
  Client, Draw, signed, create_for, create_transaction, other_key, or_empty_text, pick_miner,
  send_and_update, send_round, create_and_send_transactions,
}
use nakamato_blockchain.Client.Rounds.{Advanced, create_and_send_transactions-Advanced}

decode-ne-panic : (s : Str) → decode s ≢ panic
unfolding decode
decode-ne-panic [] h = cc
decode-ne-panic (c ∷ []) h = ground (arith, h)
decode-ne-panic (c ∷ d ∷ s) h = ground (arith, h, decode-ne-panic s)

hash_of-ne-panic : (p : Primitives) (v : Hashable) → hash_of p v ≢ panic
unfolding hash_of
hash_of-ne-panic p v h = ground (arith, h)

parse_private_key-ne-panic : (p : Primitives) (s : Str) → parse_private_key p s ≢ panic
unfolding parse_private_key
parse_private_key-ne-panic p s h = ground (arith, h)

sign-ne-panic :
    (p : Primitives) (random : ℕ) (hash private_str : Str)
    → Crypto.sign p random hash private_str ≢ panic
unfolding Crypto.sign
sign-ne-panic p random hash private_str h =
    ground (arith, h, parse_private_key-ne-panic p private_str, decode-ne-panic hash)

signed-ne-panic :
    (p : Primitives) (random : ℕ) (tx : Transaction) (private_str : Str)
    → signed (Transaction.sign p random tx private_str) ≢ panic
unfolding Transaction.sign
signed-ne-panic p random tx private_str h = go (outcome (hash_of p (Crypto.transaction tx)))
  where
    go : Outcome (hash_of p (Crypto.transaction tx)) → ⊥
    go (returned k e) = ground (arith, h, e, sign-ne-panic p random k private_str)
    go (failed r e) = ground (arith, h, e)
    go (panicked e) = hash_of-ne-panic p (Crypto.transaction tx) e

get_utxos-ne-panic : (u : UtxoSet) (a : Str) (amount : ℤ) → get_utxos u a amount ≢ panic
unfolding get_utxos
get_utxos-ne-panic u a amount h = ground (arith, h)

new_transaction-ne-panic :
    (p : Primitives) (now : ℤ) (inputs : List Utxo) (sender receiver : Str) (amount : ℤ)
    → new_transaction p now inputs sender receiver amount ≢ panic
unfolding new_transaction
new_transaction-ne-panic p now inputs sender receiver amount h = ground (arith, h)

pub create_for-ne-panic :
    (p : Primitives) (now : ℤ) (random : ℕ) (u : UtxoSet) (sender private_str receiver : Str)
    (amount : ℤ)
    → create_for p now random u sender private_str receiver amount ≢ panic
unfolding create_for
create_for-ne-panic p now random u sender private_str receiver amount h =
    go (outcome (get_utxos u (key_to_addr p sender) amount))
  where
    drafted :
        (us : List Utxo)
        → get_utxos u (key_to_addr p sender) amount ≡ ok us
        → Outcome (new_transaction p now us sender receiver amount)
        → ⊥
    drafted us e (returned tx g) = signed-ne-panic p random tx private_str (ground (arith, h, e, g))
    drafted us e (failed r g) = ground (arith, h, e, g)
    drafted us e (panicked g) = new_transaction-ne-panic p now us sender receiver amount g

    go : Outcome (get_utxos u (key_to_addr p sender) amount) → ⊥
    go (returned us e) = drafted us e (outcome (new_transaction p now us sender receiver amount))
    go (failed r e) = ground (arith, h, e)
    go (panicked e) = get_utxos-ne-panic u (key_to_addr p sender) amount e

get_elem?-lt {ℓ} :
    {A : Type ℓ} (xs : List A) (i : ℕ) → i < length xs → (x : A) × (get_elem? xs i ≡ some x)
get_elem?-lt [] i h = absurd (omega arith)
get_elem?-lt (x ∷ xs) zero h = (x, refl)
get_elem?-lt (x ∷ xs) (suc i) h = get_elem?-lt xs i (omega arith)

pub pick_miner-returns :
    (ips : List Str) (drawn : ℕ) → 0 < length ips → (ip : Str) × (pick_miner ips drawn ≡ ok ip)
unfolding pick_miner
pick_miner-returns ips drawn h =
    let (ip, e) = get_elem?-lt ips (drawn % length ips) (grind arith) in (ip, ground (arith, h, e))

send_round-returns :
    (p : Primitives) (key_map : Dict Str) (ips : List Str) (c : Client) (sender : Str) (d : Draw)
    → 0 < length ips
    → (c' : Client) × (send_round p key_map ips c sender d ≡ ok c')
unfolding send_round create_transaction
send_round-returns p key_map ips c sender d h =
    held (UtxoSet.get c.utxo_set (key_to_addr p sender)) refl
  where
    private_str : Str
    private_str = or_empty_text (lookup sender key_map)

    created : Result Transaction
    created = create_transaction p d c.utxo_set sender private_str (other_key sender d.recipients)

    sending :
        (x : Utxo) (xs : List Utxo)
        → UtxoSet.get c.utxo_set (key_to_addr p sender) ≡ x ∷ xs
        → Outcome created
        → (c' : Client) × (send_round p key_map ips c sender d ≡ ok c')
    sending x xs e (returned tx g) =
        let (ip, f) = pick_miner-returns ips d.miner h in
        (send_and_update p d.delivered c tx ip, ground (arith, e, g, f))
    sending x xs e (failed r g) = (c, ground (arith, e, g))
    sending x xs e (panicked g) = absurd (
        create_for-ne-panic p d.now d.random c.utxo_set sender private_str
          (other_key sender d.recipients) _ g)

    held :
        (us : List Utxo)
        → UtxoSet.get c.utxo_set (key_to_addr p sender) ≡ us
        → (c' : Client) × (send_round p key_map ips c sender d ≡ ok c')
    held [] e = (c, ground (arith, e))
    held (x ∷ xs) e = sending x xs e (outcome created)

create_and_send_transactions-returns :
    (p : Primitives) (key_map : Dict Str) (ips : List Str) (c : Client) (rounds : List (Str × Draw))
    → 0 < length ips
    → (c' : Client) × (create_and_send_transactions p key_map ips c rounds ≡ ok c')
unfolding create_and_send_transactions
create_and_send_transactions-returns p key_map ips c [] h = (c, refl)
create_and_send_transactions-returns p key_map ips c ((sender, d) ∷ rounds) h =
    let (m, e) = send_round-returns p key_map ips c sender d h in
    let (c', g) = create_and_send_transactions-returns p key_map ips m rounds h in (c', rw e g)

-- With at least one miner, the loop of the command-line client ends without a panic, whatever keys,
-- UTXOs, draws and answers it meets. Its set is then worth no more than before, and each message
-- that was added went to the gRPC port of one of the miners.
pub create_and_send_transactions_advances :
    (p : Primitives) (key_map : Dict Str) (ips : List Str) (c : Client) (rounds : List (Str × Draw))
    → 0 < length ips
    → (c' : Client) × (create_and_send_transactions p key_map ips c rounds ≡ ok c')
      × Advanced ips c c'
create_and_send_transactions_advances p key_map ips c rounds h =
    let (c', e) = create_and_send_transactions-returns p key_map ips c rounds h in
    (c', e, create_and_send_transactions-Advanced p key_map ips c c' rounds e)
