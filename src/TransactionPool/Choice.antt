-- ===== src/TransactionPool/Choice.antt =====
-- `GetUpToNTransactions` against its description.
use nakamato_blockchain.Base.{
  ℕ, zero, suc, ◌+◌, ◌≡◌, refl, ap, List, [], ◌∷◌, arith, take, if◌then◌else◌, ◌∙◌,
}
use nakamato_blockchain.Base.Int.{pos}
use nakamato_blockchain.Types.{Transaction}
use nakamato_blockchain.Crypto.{Primitives}
use nakamato_blockchain.UtxoSet.{UtxoSet, check_transaction}
use nakamato_blockchain.TransactionPool.{choose, get_up_to_n_transactions}

-- The transactions that the set admits, in their order.
unfoldable pub admitted : Primitives → UtxoSet → List Transaction → List Transaction
admitted p u [] = []
admitted p u (tx ∷ txs) =
    let rest = admitted p u txs in if check_transaction p u tx then tx ∷ rest else rest

choose-take :
    (p : Primitives) (u : UtxoSet) (n count : ℕ) (order : List Transaction)
    → choose p u (pos (n + count)) count order ≡ take n (admitted p u order)
unfolding choose admitted
choose-take p u zero count [] = refl
choose-take p u zero count (tx ∷ order) = ground arith
choose-take p u (suc n) count [] = refl
choose-take p u (suc n) count (tx ∷ order) =
    let e : choose p u (pos (suc n + count)) (suc count) order ≡ take n (admitted p u order) =
      ap (λ k. choose p u (pos k) (suc count) order) (omega arith)
      ∙ choose-take p u n (suc count) order in
    ground (arith, e, choose-take p u (suc n) count order)

-- In whatever order the map is visited, `GetUpToNTransactions` returns the first n transactions of
-- the visit that pass `CheckTransaction` on the set.
pub get_up_to_n_transactions-take :
    (p : Primitives) (n : ℕ) (u : UtxoSet) (order : List Transaction)
    → get_up_to_n_transactions p (pos n) u order ≡ take n (admitted p u order)
get_up_to_n_transactions-take p n u order =
    unfold get_up_to_n_transactions in
    ap (λ k. choose p u (pos k) 0 order) (omega arith) ∙ choose-take p u n 0 order
