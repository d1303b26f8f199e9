-- ===== src/Server/Amounts.antt =====
-- The amounts in the blocks that a node makes: those of the transactions that it was given.
use nakamato_blockchain.Base.{
  ℕ, suc, ◌≡◌, refl, sym, subst, ◌∙◌, some, List, [], ◌∷◌, All, arith, Bool-cases, Option-cases,
  inl, inr, ◌||◌,
}
use nakamato_blockchain.Base.Int.{ℤ, pos, leb_ℤ, eq_ℤ}
use nakamato_blockchain.Base.Text.{Str}
use nakamato_blockchain.Types.{Transaction, Block, ok, err, panic}
use nakamato_blockchain.Crypto.{Primitives}
use nakamato_blockchain.Block.{calculate_hash, verify_hash}
use nakamato_blockchain.UtxoSet.{UtxoSet, check_transaction}
use nakamato_blockchain.UtxoSet.Blocks.{HasInt64Outputs}
use nakamato_blockchain.Blockchain.{create_block}
use nakamato_blockchain.TransactionPool.{choose, get_up_to_n_transactions}
use nakamato_blockchain.Server.Mining.{corrupt_first, falsified, create_block_with_transactions}
use nakamato_blockchain.Server.Search.{View, Try, wait_for_block, next_candidate, search, hash_text}
use nakamato_blockchain.Server.Search.Ready.{next_candidate_cases}
use nakamato_blockchain.Server.Round.{create_block-IsCreatedOn}

-- The output amounts of a block are int64 values.
abbrev pub HasInt64Block : Block → Type 0
HasInt64Block b = All HasInt64Outputs b.content.transactions

-- Those of the transactions that are visited.
abbrev pub HasInt64View : View → Type 0
HasInt64View v = All HasInt64Outputs v.order

abbrev pub HasInt64Try : Try → Type 0
HasInt64Try t = All HasInt64View t.views

choose-All :
    (p : Primitives) (u : UtxoSet) (n : ℤ) (count : ℕ) (order : List Transaction)
    → All HasInt64Outputs order
    → All HasInt64Outputs (choose p u n count order)
unfolding choose
choose-All p u n count [] h = tt
choose-All p u n count (tx ∷ order) (h, hs) = elim (Bool-cases (leb_ℤ n (pos count))) [
  | inl full ↦ rw (choose, full) tt
  | inr more ↦ elim (Bool-cases (check_transaction p u tx)) [
    | inl fits ↦ rw (choose, more, fits) (h, choose-All p u n (suc count) order hs)
    | inr bad ↦ rw (choose, more, bad) (choose-All p u n count order hs)
  ]
]

corrupt_first-HasInt64Outputs :
    (txs : List Transaction) → All HasInt64Outputs txs → All HasInt64Outputs (corrupt_first txs)
corrupt_first-HasInt64Outputs [] h = tt
corrupt_first-HasInt64Outputs (tx ∷ txs) h = h

pub falsified-HasInt64Block :
    (mode : ℤ) (b : Block) → HasInt64Block b → HasInt64Block (falsified mode b)
unfolding falsified
falsified-HasInt64Block mode b h = elim (Bool-cases (eq_ℤ mode (pos 1))) [
  | inl one ↦ rw (falsified, one) (corrupt_first-HasInt64Outputs b.content.transactions h)
  | inr other ↦ elim (Bool-cases (eq_ℤ mode (pos 4) || eq_ℤ mode (pos 2))) [
    | inl two ↦ rw (falsified, other, two) h
    | inr honest ↦ rw (falsified, other, honest) h
  ]
]

created-HasInt64Block :
    (p : Primitives) (v : View) (b : Block)
    → HasInt64View v
    → create_block_with_transactions p v.now v.server v.order ≡ some (ok b)
    → HasInt64Block b
unfolding create_block_with_transactions
created-HasInt64Block p v b h e = go (get_up_to_n_transactions p (pos 1) u v.order) refl
  where
    u : UtxoSet
    u = v.server.blockchain.utxo_set

    visited : All HasInt64Outputs (get_up_to_n_transactions p (pos 1) u v.order)
    visited = unfold get_up_to_n_transactions in choose-All p u (pos 1) 0 v.order h

    go :
        (txs : List Transaction)
        → get_up_to_n_transactions p (pos 1) u v.order ≡ txs
        → HasInt64Block b
    go [] f = absurd (ground (arith, e, f))
    go (tx ∷ txs) f =
        let created : create_block p v.now v.server.blockchain (tx ∷ txs) ≡ ok b =
          ground (arith, e, f) in
        let made = create_block-IsCreatedOn p v.now v.server.blockchain (tx ∷ txs) b created in
        subst (All HasInt64Outputs) (f ∙ sym made.holds_txs) visited

pub wait_for_block-HasInt64Block :
    (p : Primitives) (views : List View) (b : Block)
    → All HasInt64View views
    → wait_for_block p views ≡ some (ok b)
    → HasInt64Block b
unfolding wait_for_block
wait_for_block-HasInt64Block p [] b h e = absurd (ground (arith, e))
wait_for_block-HasInt64Block p (v ∷ vs) b (h, hs) e =
    elim (Option-cases (create_block_with_transactions p v.now v.server v.order)) [
      | inl f ↦ wait_for_block-HasInt64Block p vs b hs (ground (arith, e, f))
      | inr (r, f) ↦ created-HasInt64Block p v b h (ground (arith, e, f))
    ]

next_candidate-HasInt64Block :
    (p : Primitives) (b c : Block) (t : Try)
    → HasInt64Try t
    → HasInt64Block b
    → next_candidate p b t ≡ some (ok c)
    → HasInt64Block c
next_candidate-HasInt64Block p b c t h k e = elim (next_candidate_cases p b c t e) [
  | inl same ↦ subst HasInt64Block same k
  | inr waited ↦ wait_for_block-HasInt64Block p t.views c h waited
]

pub search-HasInt64Block :
    (p : Primitives) (b c : Block) (hash : Str) (tries : List Try)
    → All HasInt64Try tries
    → HasInt64Block b
    → search p b tries ≡ some (ok (c, hash))
    → HasInt64Block c
unfolding search
search-HasInt64Block p b c hash [] h k e =
    elim (Bool-cases (verify_hash p b (hash_text (calculate_hash p b)))) [
      | inl f ↦ let same : b ≡ c = ground (arith, e, f) in subst HasInt64Block same k
      | inr f ↦ absurd (ground (arith, e, f))
    ]
search-HasInt64Block p b c hash (t ∷ ts) (h, hs) k e =
    elim (Bool-cases (verify_hash p b (hash_text (calculate_hash p b)))) [
      | inl f ↦ let same : b ≡ c = ground (arith, e, f) in subst HasInt64Block same k
      | inr f ↦ elim (Option-cases (next_candidate p b t)) [
        | inl g ↦ absurd (ground (arith, e, f, g))
        | inr (ok d, g) ↦
            search-HasInt64Block p d c hash ts hs (next_candidate-HasInt64Block p b d t h k g)
              (ground (arith, e, f, g))
        | inr (err x, g) ↦ absurd (ground (arith, e, f, g))
        | inr (panic, g) ↦ absurd (ground (arith, e, f, g))
      ]
    ]
