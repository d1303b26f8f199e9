-- ===== src/Types.antt =====
-- The structs of internal/blockchain: utxo.go, transaction.go, block.go. A Go int or int64 is an
-- integer, a string is its bytes, a slice is a list.
use nakamato_blockchain.Base.{ℕ, List, ◌≡◌, refl, ℕ_discrete}
use nakamato_blockchain.Base.Int.{ℤ, ℤ-discrete}
use nakamato_blockchain.Base.Text.{Str, Str-discrete}

pub record Utxo : Type 0 where
  pub tx_id : Str
  pub index : ℤ
  pub amount : ℤ
  pub address : Str

pub record TransactionContent : Type 0 where
  pub input_utxos : List Utxo
  pub output_utxos : List Utxo
  pub sender_pub_key : Str
  pub timestamp : ℤ

pub record Transaction : Type 0 where
  pub content : TransactionContent
  pub signature : Str
  pub hash : Str

pub record BlockHeader : Type 0 where
  pub timestamp : ℤ
  pub previous_hash : Str
  pub content_hash : Str
  pub height : ℤ
  pub difficulty : Str
  pub nonce : ℤ

pub record BlockContent : Type 0 where
  pub transactions : List Transaction

pub record Block : Type 0 where
  pub header : BlockHeader
  pub content : BlockContent
  pub hash : Str

-- `==` on UTXO structs compares the four fields.
unfoldable pub Utxo-discrete : Discrete Utxo
unfolding ℤ-discrete Str-discrete ℕ_discrete
Utxo-discrete = hlevel (ℤ-discrete, Str-discrete)

-- The values of the `error` results, by their messages.
pub data Error : Type 0 where
  invalid_key odd_length invalid_byte not_marshalled not_signed : Error
  content_verification_failed invalid_utxo_index : Error
  transaction_hash_empty transaction_verification_failed : Error
  utxo_not_found invalid_transaction invalid_transaction_in_block remove_failed : Error
  not_enough_funds : Error
  block_verification_failed previous_hash_mismatch height_mismatch : Error
  ancestor_not_found common_ancestor_not_found : Error
  block_verification_failed_at previous_hash_mismatch_at : ℕ → Error
  no_blocks_to_replace rollback_failed invalid_fork_blocks replace_failed : Error
  transaction_exists transaction_not_found pool_empty : Error
  invalid_peer_address connection_failed : Error
  duplicate_transaction peer_blacklisted invalid_block add_block_failed : Error
  block_exists fork_failed : Error
  file_not_read generate_failed invalid_amount key_not_found not_sent : Error
  block_not_found mining_in_progress mining_not_active : Error

-- What a call returns: a value, an error, or a run-time panic.
pub data Result {ℓ} (A : Type ℓ) : Type ℓ where
  ok : A → Result A
  err : Error → Result A
  panic : Result A

infixl 5 ◌>>=◌
abbrev pub ◌>>=◌ {ℓ κ} : {A : Type ℓ} {B : Type κ} → Result A → (A → Result B) → Result B
ok a >>= f = f a
err e >>= f = err e
panic >>= f = panic

-- To split on the result of a call and keep the equation.
pub data Outcome {ℓ} {A : Type ℓ} (r : Result A) : Type ℓ where
  returned : (a : A) → r ≡ ok a → Outcome r
  failed : (e : Error) → r ≡ err e → Outcome r
  panicked : r ≡ panic → Outcome r

pub outcome {ℓ} : {A : Type ℓ} (r : Result A) → Outcome r
outcome (ok a) = returned a refl
outcome (err e) = failed e refl
outcome panic = panicked refl

pub ok-inj {ℓ} : {A : Type ℓ} (a b : A) → ok a ≡ ok b → a ≡ b
ok-inj a b h = cc
