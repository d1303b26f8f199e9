-- ===== src/UtxoSet/Worth.antt =====
-- The money at one address.
use nakamato_blockchain.Base.{
  ℕ, suc, ◌+◌, ◌≡◌, refl, true, List, [], ◌∷◌, ◌++◌, arith, drop, drop-eq-cons, if◌then◌else◌,
}
use nakamato_blockchain.Base.Int.{pos, pos_part}
use nakamato_blockchain.Base.Text.{Str, str_eq}
use nakamato_blockchain.Types.{Utxo, Transaction, ok}
use nakamato_blockchain.Crypto.{Primitives}
use nakamato_blockchain.Transaction.{get_utxo}
use nakamato_blockchain.Transaction.Value.{value}
use nakamato_blockchain.UtxoSet.{
  UtxoSet, get, any_equal, check_utxo, remove_first, add_utxo, remove_utxo, for_each, add_outputs,
  add_transaction,
}
use nakamato_blockchain.UtxoSet.Counting.{get-insert, for_each-cons, for_each-cons_ok}
use nakamato_blockchain.UtxoSet.Spending.{add_transaction_ok}
use nakamato_blockchain.UtxoSet.Supply.{value-append, value-remove_first}

-- What the UTXOs that stand at an address are worth, as an unbounded sum.
unfoldable pub worth : UtxoSet → Str → ℕ
worth u a = value (get u a)

-- What the UTXOs that name the address are worth.
unfoldable pub value_at : Str → List Utxo → ℕ
value_at a [] = 0
value_at a (x ∷ xs) = (if str_eq a x.address then pos_part x.amount else 0) + value_at a xs

worth-add_utxo :
    (u : UtxoSet) (x : Utxo) (a : Str)
    → worth (add_utxo u x) a ≡ worth u a + (if str_eq a x.address then pos_part x.amount else 0)
unfolding worth add_utxo value
worth-add_utxo u x a = ground (
  arith,
  get-insert u x.address a (get u x.address ++ x ∷ []),
  value-append (get u x.address) (x ∷ []),
)

worth-remove_utxo :
    (u : UtxoSet) (x : Utxo) (a : Str)
    → (remove_utxo u x).0 ≡ ok tt
    → worth (remove_utxo u x).1 a + (if str_eq a x.address then pos_part x.amount else 0)
      ≡ worth u a
unfolding worth remove_utxo check_utxo
worth-remove_utxo u x a h =
    let found : any_equal x (get u x.address) ≡ true = ground arith in
    rw (found, remove_utxo)
      (ground (
        arith,
        get-insert u x.address a (remove_first x (get u x.address)),
        value-remove_first x (get u x.address) found,
      ))

worth-remove_inputs :
    (xs : List Utxo) (u : UtxoSet) (a : Str)
    → (for_each remove_utxo u xs).0 ≡ ok tt
    → worth (for_each remove_utxo u xs).1 a + value_at a xs ≡ worth u a
unfolding value_at
worth-remove_inputs [] u a h = unfold for_each in omega arith
worth-remove_inputs (x ∷ xs) u a h =
    let done = for_each-cons_ok remove_utxo u x xs h in
    let step = for_each-cons remove_utxo u x xs done in
    rw step (
      omega (
        arith,
        worth-remove_utxo u x a done,
        worth-remove_inputs xs (remove_utxo u x).1 a (rw step at h),
      ))

worth-add_outputs :
    (tx : Transaction) (i : ℕ) (rest : List Utxo) (u : UtxoSet) (a : Str)
    → drop i tx.content.output_utxos ≡ rest
    → worth (add_outputs tx i rest u) a ≡ worth u a + value_at a rest
unfolding add_outputs value_at
worth-add_outputs tx i [] u a h = omega arith
worth-add_outputs tx i (x ∷ rest) u a h =
    let (here, next) = drop-eq-cons i tx.content.output_utxos x rest h in
    let e : get_utxo tx (pos i) ≡ ok (record x { tx_id = tx.hash }) =
      unfold get_utxo in ground arith in
    let stamp : Utxo = record x { tx_id = tx.hash } in
    rw e (
      omega (
        arith,
        worth-add_outputs tx (suc i) rest (add_utxo u stamp) a next,
        worth-add_utxo u stamp a,
      ))

-- When `UTXOSet.AddTransaction` succeeds, every address has lost what its inputs were worth and
-- gained what its outputs are worth.
pub add_transaction-worth :
    (p : Primitives) (u : UtxoSet) (tx : Transaction) (a : Str)
    → (add_transaction p u tx).0 ≡ ok tt
    → worth (add_transaction p u tx).1 a + value_at a tx.content.input_utxos
      ≡ worth u a + value_at a tx.content.output_utxos
add_transaction-worth p u tx a h =
    let (_, removes, e) = add_transaction_ok p u tx h in
    rw e (
      omega (
        arith,
        worth-add_outputs tx 0 tx.content.output_utxos
            (for_each remove_utxo u tx.content.input_utxos).1 a refl,
        worth-remove_inputs tx.content.input_utxos u a removes,
      ))
