-- ===== src/UtxoSet.antt =====
-- internal/blockchain/utxo.go. A method that changes the set returns its result and the set as it
-- then stands, after an error too.
pub mod Counting
pub mod Spending
pub mod Supply
pub mod Worth
pub mod Blocks
pub mod Removal
pub mod Selection
use mathlib.Core.List.{reverse}
use nakamato_blockchain.Base.{
  ℕ, zero, suc, ◌+◌, Bool, true, false, Option, none, some, List, [], ◌∷◌, ◌++◌, holds,
  if◌then◌else◌,
}
use nakamato_blockchain.Base.Int.{ℤ, pos, ◌+ℤ◌, ltb_ℤ, leb_ℤ, wrap64}
use nakamato_blockchain.Base.Text.{Str}
use nakamato_blockchain.Base.Dict.{Dict, lookup, insert}
use nakamato_blockchain.Types.{
  Utxo, Utxo-discrete, Transaction, Block, Error, utxo_not_found, invalid_transaction,
  invalid_transaction_in_block, remove_failed, not_enough_funds, Result, ok, err, panic,
}
use nakamato_blockchain.Crypto.{Primitives}
use nakamato_blockchain.Transaction
use nakamato_blockchain.Transaction.{sum_amounts, get_utxo}

-- The UTXOs of each address.
pub record UtxoSet : Type 0 where
  pub utxos : Dict (List Utxo)

-- `ut == utxo`
abbrev pub utxo_eq : Utxo → Utxo → Bool
utxo_eq a b = holds (Utxo-discrete a b)

unfoldable pub new_utxo_set : UtxoSet
new_utxo_set = record { utxos = [] }

abbrev or_empty : Option (List Utxo) → List Utxo
or_empty none = []
or_empty (some us) = us

unfoldable pub get : UtxoSet → Str → List Utxo
get u address = or_empty (lookup address u.utxos)

-- The loop of `CheckUTXO`.
unfoldable pub any_equal : Utxo → List Utxo → Bool
any_equal x [] = false
any_equal x (y ∷ ys) = let rest = any_equal x ys in if utxo_eq y x then true else rest

unfoldable pub check_utxo : UtxoSet → Utxo → Bool
unfolding any_equal
check_utxo u x = any_equal x (get u x.address)

unfoldable pub check_inputs : UtxoSet → List Utxo → Bool
check_inputs u [] = true
check_inputs u (x ∷ xs) = let rest = check_inputs u xs in if check_utxo u x then rest else false

unfoldable pub check_transaction : Primitives → UtxoSet → Transaction → Bool
check_transaction p u tx =
    if Transaction.verify p tx then check_inputs u tx.content.input_utxos else false

unfoldable pub add_utxo : UtxoSet → Utxo → UtxoSet
add_utxo u x = record { utxos = insert x.address (get u x.address ++ x ∷ []) u.utxos }

-- The list without the first UTXO that equals x.
unfoldable pub remove_first : Utxo → List Utxo → List Utxo
remove_first x [] = []
remove_first x (y ∷ ys) = let rest = remove_first x ys in if utxo_eq y x then ys else y ∷ rest

unfoldable pub remove_utxo : UtxoSet → Utxo → Result (Unit {0}) × UtxoSet
remove_utxo u x =
    if check_utxo u x
    then (ok tt, record { utxos = insert x.address (remove_first x (get u x.address)) u.utxos })
    else (err utxo_not_found, u)

-- A loop that stops at the first error; what is done stays done.
unfoldable pub for_each {ℓ} :
    {A : Type ℓ}
    → (UtxoSet → A → Result (Unit {0}) × UtxoSet)
    → UtxoSet
    → List A
    → Result (Unit {0}) × UtxoSet
for_each f u [] = (ok tt, u)
for_each f u (x ∷ xs) = elim ((f u x).0) [
  | ok _ ↦ for_each f (f u x).1 xs
  | err e ↦ (err e, (f u x).1)
  | panic ↦ (panic, (f u x).1)
]

-- `utxo, _ := tx.GetUTXO(i)`: the zero UTXO on an error.
abbrev or_zero : Result Utxo → Utxo
or_zero (ok x) = x
or_zero (err _) = record { tx_id = []; index = pos 0; amount = pos 0; address = [] }
or_zero panic = record { tx_id = []; index = pos 0; amount = pos 0; address = [] }

-- `for i := range outputs`, from index i, with as many rounds as outputs are left.
unfoldable pub add_outputs : Transaction → ℕ → List Utxo → UtxoSet → UtxoSet
add_outputs tx i [] u = u
add_outputs tx i (_ ∷ rest) u =
    add_outputs tx (suc i) rest (add_utxo u (or_zero (get_utxo tx (pos i))))

unfoldable pub add_utxos : UtxoSet → List Utxo → UtxoSet
add_utxos u [] = u
add_utxos u (x ∷ xs) = add_utxos (add_utxo u x) xs

module _ (p : Primitives) where
  unfoldable pub add_transaction : UtxoSet → Transaction → Result (Unit {0}) × UtxoSet
  add_transaction u tx =
      if check_transaction p u tx
      then (let (r, u') = for_each remove_utxo u tx.content.input_utxos in
          elim r [
            | ok _ ↦ (ok tt, add_outputs tx 0 tx.content.output_utxos u')
            | err e ↦ (err e, u')
            | panic ↦ (panic, u')
          ])
      else (err invalid_transaction, u)

  unfoldable pub check_transactions : UtxoSet → List Transaction → Bool
  check_transactions u [] = true
  check_transactions u (tx ∷ txs) =
      let rest = check_transactions u txs in if check_transaction p u tx then rest else false

  unfoldable pub add_block : UtxoSet → Block → Result (Unit {0}) × UtxoSet
  add_block u b =
      if check_transactions u b.content.transactions
      then for_each add_transaction u b.content.transactions
      else (err invalid_transaction_in_block, u)

-- One round of `RemoveBlock`: the outputs go, the inputs come back.
unfoldable pub remove_transaction : UtxoSet → Transaction → Result (Unit {0}) × UtxoSet
remove_transaction u tx =
    let (r, u') = for_each remove_utxo u tx.content.output_utxos in
    elim r [
      | ok _ ↦ (ok tt, add_utxos u' tx.content.input_utxos)
      | err e ↦ (err remove_failed, u')
      | panic ↦ (panic, u')
    ]

-- From the last transaction to the first.
unfoldable pub remove_block : UtxoSet → Block → Result (Unit {0}) × UtxoSet
unfolding remove_transaction
remove_block u b = for_each remove_transaction u (reverse b.content.transactions)

unfoldable pub balance : UtxoSet → Str → ℤ
balance u address = sum_amounts (pos 0) (get u address)

-- The loop of `GetUTXOs`: takes UTXOs until the total reaches the amount.
unfoldable pub select : ℤ → ℤ → List Utxo → List Utxo
select amount total [] = []
select amount total (x ∷ xs) =
    let rest = select amount (wrap64 (total +ℤ x.amount)) xs in
    if leb_ℤ amount total then [] else x ∷ rest

unfoldable pub get_utxos : UtxoSet → Str → ℤ → Result (List Utxo)
unfolding balance select
get_utxos u address amount =
    if ltb_ℤ (balance u address) amount
    then err not_enough_funds
    else ok (select amount (pos 0) (get u address))
