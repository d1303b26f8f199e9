-- ===== src/Examples/Money.antt =====
-- Transactions and the UTXO set on the data of the tests.
use nakamato_blockchain.Base.{◌+◌, ◌≤◌, ◌≡◌, ◌↔◌, refl, true, [], ◌∷◌, arith, ℕ_discrete}
use nakamato_blockchain.Base.Int.{wrap64, ◌+ℤ◌, ℤ-discrete}
use nakamato_blockchain.Base.Text.{Str-discrete, codes}
use nakamato_blockchain.Base.Dict.{lookup}
use nakamato_blockchain.Types.{Utxo, Utxo-discrete, Transaction, Block, ok, err, remove_failed}
use nakamato_blockchain.Encoding.Hex.{decode, digit_value}
use nakamato_blockchain.Crypto
use nakamato_blockchain.Crypto.{parse_public_key, key_to_addr, hash_of}
use nakamato_blockchain.Transaction
use nakamato_blockchain.Transaction.{
  verify_inputs, verify_outputs, verify_content, all_from, leftover_from, get_utxo, sum_amounts,
  new_transaction,
}
use nakamato_blockchain.Transaction.Value.{value}
use nakamato_blockchain.Transaction.Forgery.{verify_forged}
use nakamato_blockchain.UtxoSet.{
  get, any_equal, check_utxo, check_inputs, check_transaction, remove_first, remove_utxo, for_each,
  add_transaction, check_transactions, add_block, remove_block,
}
use nakamato_blockchain.UtxoSet.Counting.{occurrences, count}
use nakamato_blockchain.UtxoSet.Spending.{add_transaction_succeeds}
use nakamato_blockchain.UtxoSet.Supply.{supply}
use nakamato_blockchain.UtxoSet.Blocks.{spent, made, add_block_effect, add_block-supply}
use nakamato_blockchain.UtxoSet.Removal.{IsStamped, remove_block-add_block}
use nakamato_blockchain.Examples.{
  toy, coin, output, spends, pay, pay_again, one_coin, block_of, hash_at, pay_block,
}

pub pay-verified : Transaction.verify toy pay ≡ true
unfolding Transaction.verify Transaction.verify_signature Crypto.verify_signature parse_public_key
    decode digit_value verify_content verify_inputs verify_outputs all_from leftover_from
    key_to_addr wrap64 ◌+ℤ◌ Str-discrete ℤ-discrete ℕ_discrete
pay-verified = refl

pub add_pay : (add_transaction toy one_coin pay).0 ≡ ok tt
unfolding add_transaction check_transaction check_inputs check_utxo any_equal get remove_utxo
    for_each remove_first lookup Utxo-discrete Transaction.verify Transaction.verify_signature
    Crypto.verify_signature parse_public_key decode digit_value verify_content verify_inputs
    verify_outputs all_from leftover_from key_to_addr wrap64 ◌+ℤ◌ Str-discrete ℤ-discrete ℕ_discrete
add_pay = refl

again-content : verify_content toy (record pay { content = pay_again.content }) ≡ true
unfolding verify_content verify_inputs verify_outputs all_from leftover_from key_to_addr wrap64 ◌+ℤ◌
    Str-discrete ℤ-discrete ℕ_discrete
again-content = refl

verify_forged_example : Transaction.verify toy (record pay { content = pay_again.content }) ≡ true
verify_forged_example = verify_forged toy pay pay_again.content pay-verified refl again-content

ten : value (coin 0 10 ∷ []) ≡ 10
unfolding value
ten = refl

add_transaction_succeeds_example : ((add_transaction toy one_coin pay).0 ≡ ok tt) ↔ (
    (Transaction.verify toy pay ≡ true)
    × ((y : Utxo) → occurrences y pay.content.input_utxos ≤ count y one_coin))
add_transaction_succeeds_example = add_transaction_succeeds toy one_coin pay

-- Lists its one coin twice.
abbrev twice : Transaction
twice = spends (codes "dd") (coin 0 10 ∷ coin 0 10 ∷ []) (output 0 20 ∷ [])

add_pay_block : (add_block toy one_coin pay_block).0 ≡ ok tt
unfolding add_block check_transactions add_transaction check_transaction check_inputs check_utxo
    any_equal get remove_utxo for_each remove_first lookup Utxo-discrete Transaction.verify
    Transaction.verify_signature Crypto.verify_signature parse_public_key decode digit_value
    verify_content verify_inputs verify_outputs all_from leftover_from key_to_addr wrap64 ◌+ℤ◌
    Str-discrete ℤ-discrete ℕ_discrete
add_pay_block = refl

add_block_effect_example :
    count (coin 0 10) (add_block toy one_coin pay_block).1
      + occurrences (coin 0 10) (spent (pay ∷ []))
    ≡ count (coin 0 10) one_coin + occurrences (coin 0 10) (made (pay ∷ []))
add_block_effect_example = add_block_effect toy one_coin pay_block add_pay_block (coin 0 10)

add_block-supply_example : supply (add_block toy one_coin pay_block).1 ≤ supply one_coin
add_block-supply_example = add_block-supply toy one_coin pay_block (ground arith)

-- Its two transactions spend the one coin.
abbrev double_block : Block
double_block = block_of 1 [] [] (hash_at 1) (pay ∷ pay_again ∷ [])

one_coin-IsStamped : IsStamped one_coin
unfolding count occurrences get lookup
one_coin-IsStamped y e = ground arith

remove_block-add_block_example :
    remove_block (add_block toy one_coin pay_block).1 pay_block
    ≡ (err remove_failed, (add_block toy one_coin pay_block).1)
remove_block-add_block_example =
    remove_block-add_block toy one_coin pay_block [] pay one_coin-IsStamped add_pay_block
      ((λ e. cc), tt) refl (λ e. cc)
