-- ===== src/Examples/Payment.antt =====
-- A payment from one address to another.
use nakamato_blockchain.Base.{
  ℕ, ◌+◌, ◌%◌, ◌≡◌, refl, List, [], ◌∷◌, arith, All, map, ℕ_discrete, if◌then◌else◌,
}
use nakamato_blockchain.Base.Int.{pos, ℤ-discrete}
use nakamato_blockchain.Base.Text.{Str, Str-discrete, codes, str_eq}
use nakamato_blockchain.Base.Dict.{lookup}
use nakamato_blockchain.Types.{Utxo, Transaction, ok}
use nakamato_blockchain.Encoding.Hex.{IsByte}
use nakamato_blockchain.Crypto.{Primitives, key_to_addr, parse_private_key, parse_public_key}
use nakamato_blockchain.Block.Work.{HasDigests}
use nakamato_blockchain.Transaction.Value.{value}
use nakamato_blockchain.Transaction.Create.{IsSpendable}
use nakamato_blockchain.UtxoSet
use nakamato_blockchain.UtxoSet.{UtxoSet, get}
use nakamato_blockchain.UtxoSet.Worth.{worth}
use nakamato_blockchain.Client.{create_for}
use nakamato_blockchain.Client.Signing.{IsKeyPair}
use nakamato_blockchain.Client.Created.{IsCreated, create_for_succeeds}
use nakamato_blockchain.Client.Balances.{created-worth}
use nakamato_blockchain.Examples.{toy}
use nakamato_blockchain.Examples.Wallet.{me, you, two_bytes}

-- As `toy`, but a digest is a zero byte and the bytes themselves, so that each key has an address.
abbrev keyed : Primitives
keyed = record toy { sha256 = λ bs. 0 ∷ map (λ b. b % 256) bs }

map-IsByte : (bs : List ℕ) → All IsByte (map (λ b. b % 256) bs)
map-IsByte [] = tt
map-IsByte (b ∷ bs) = (omega arith, map-IsByte bs)

keyed-HasDigests : HasDigests keyed
keyed-HasDigests json = ((omega arith, map-IsByte json), omega arith)

keyed-IsKeyPair : IsKeyPair keyed 0 (codes "secret") me
unfolding parse_private_key parse_public_key
keyed-IsKeyPair = record {
  private_key = 1;
  public_key = 1;
  private_parsed = refl;
  public_parsed = refl;
  signs = λ _. (300, 1000, refl);
  accepts = λ _ _ _ _. refl;
}

abbrev my_home : Str
my_home = 0 ∷ 0 ∷ me

my_address : key_to_addr keyed me ≡ my_home
unfolding key_to_addr
my_address = refl

abbrev my_coin : Utxo
my_coin = record { tx_id = codes "aa"; index = pos 0; amount = pos 10; address = my_home }

abbrev my_set : UtxoSet
my_set = record { utxos = (my_home, my_coin ∷ []) ∷ [] }

my_coins : get my_set (key_to_addr keyed me) ≡ my_coin ∷ []
unfolding get lookup key_to_addr Str-discrete ℤ-discrete ℕ_discrete
my_coins = refl

spendable : All (IsSpendable (key_to_addr keyed me)) (get my_set (key_to_addr keyed me))
spendable = rw my_coins (rw my_address ((omega arith, (λ e. cc), refl), tt))

ten : value (get my_set (key_to_addr keyed me)) ≡ 10
ten = rw my_coins (unfold value in refl)

my_payment :
    (tx : Transaction) × (create_for keyed (pos 1) 0 my_set me (codes "secret") you (pos 4) ≡ ok tx)
    × IsCreated keyed my_set me you 4 tx
my_payment =
    create_for_succeeds keyed (pos 1) 0 my_set me (codes "secret") you 4 keyed-IsKeyPair
      keyed-HasDigests (λ tx. (_, refl)) (λ _ _ _ _ _ r s _. two_bytes r s) spendable
      (omega (arith, ten)) (omega arith) (omega (arith, ten))

-- The receiver, who had nothing, has 4.
created-worth_example :
    worth (UtxoSet.add_transaction keyed my_set my_payment.0).1 (key_to_addr keyed you)
      + (if str_eq (key_to_addr keyed you) (key_to_addr keyed me) then 4 else 0)
    ≡ worth my_set (key_to_addr keyed you)
      + (if str_eq (key_to_addr keyed you) (key_to_addr keyed you) then 4 else 0)
created-worth_example =
    created-worth keyed (pos 1) 0 my_set my_set me (codes "secret") you 4 my_payment.0
      (key_to_addr keyed you) my_payment.1 spendable (omega (arith, ten)) (omega arith)
      my_payment.2.taken
