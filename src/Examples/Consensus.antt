-- ===== src/Examples/Consensus.antt =====
-- A block that the first of two nodes mines.
use nakamato_blockchain.Base.{
  ◌+◌, ◌≡◌, ◌⊎◌, refl, ap, subst, inl, true, false, none, some, List, [], ◌∷◌, arith, get_elem?,
  ltb, if◌then◌else◌, ℕ_discrete,
}
use nakamato_blockchain.Base.Int.{pos}
use nakamato_blockchain.Base.Text.{Str, Str-discrete, str_eq}
use nakamato_blockchain.Base.Dict.{lookup}
use nakamato_blockchain.Types.{Block, ok}
use nakamato_blockchain.Encoding.Hex.{encode, hex_digit}
use nakamato_blockchain.UtxoSet
use nakamato_blockchain.Block
use nakamato_blockchain.Blockchain.{
  Blockchain, get_last_block, get_block_by_hash, find_block, get_last_100_hashes,
}
use nakamato_blockchain.PeerManager.{new_peer_manager, is_blacklisted}
use nakamato_blockchain.Convert.RoundTrip.{FitsTransaction}
use nakamato_blockchain.Server.{BlockchainServer, Reply, list_peer_clients, broadcast_block}
use nakamato_blockchain.Server.Mining.{Turn, next, mined_block_published}
use nakamato_blockchain.Server.Search.{wait_for_block}
use nakamato_blockchain.Server.Search.Found.{search-verify}
use nakamato_blockchain.Server.Mining.{create_block_with_transactions}
use nakamato_blockchain.Server.Turns.{mine_turn}
use nakamato_blockchain.Server.Round.{created_added}
use nakamato_blockchain.Network.{Network, Step, Run, done, more, delivered, here, set}
use nakamato_blockchain.Network.Gossip.Ending.{measure}
use nakamato_blockchain.Network.Gossip.Spread.{Reaches, start, onward, managers}
use nakamato_blockchain.Network.Blocks.{call, knows, is_some, IsNext, receive-new}
use nakamato_blockchain.Network.Consensus.{
  Has, FindsFresh, announcing, block_reaches, block_settles, mined_block_reaches,
}
use nakamato_blockchain.Crypto.{key_to_addr}
use nakamato_blockchain.Transaction.Value.{value}
use nakamato_blockchain.Transaction.Create.{payment, leftover}
use nakamato_blockchain.UtxoSet.Worth.{worth}
use nakamato_blockchain.Client.Created.{IsCreated}
use nakamato_blockchain.Network.Payment.{payment_arrives}
use nakamato_blockchain.Examples.Wallet.{me, you, my_coins, my_coins-IsSpendable}
use nakamato_blockchain.Examples
use nakamato_blockchain.Examples.{toy, pay, one_coin, genesis, pay_block, hash_at, coin, home}
use nakamato_blockchain.Examples.Money.{add_pay, pay-verified}
use nakamato_blockchain.Examples.Chain.{start-IsChain}
use nakamato_blockchain.Examples.Node.{node}
use nakamato_blockchain.Examples.Mine.{
  draft, created, toy-HeadersMarshalled, try_seven, seven-IsSolved, found_first, chosen,
}
use nakamato_blockchain.Examples.Gossip.{first_node}

abbrev grown : Blockchain
grown = record {
  blocks = genesis ∷ pay_block ∷ [];
  utxo_set = (UtxoSet.add_transaction toy one_coin pay).1;
}

abbrev hashes : List Str
hashes = get_last_100_hashes grown

pay_block-verify : Block.verify toy pay_block ≡ true
pay_block-verify =
    search-verify toy (pos 0) Examples.start (pay ∷ []) draft draft (hash_at 1) (try_seven ∷ [])
      toy-HeadersMarshalled created found_first

pay_block-fresh : get_block_by_hash Examples.start (hash_at 1) ≡ none
unfolding get_block_by_hash find_block encode hex_digit Str-discrete ℕ_discrete
pay_block-fresh = refl

pay_block-IsNext : IsNext toy Examples.start grown genesis pay_block
pay_block-IsNext = record {
  tip = unfold get_last_block in refl;
  added =
      created_added toy node pay draft (pos 0) start-IsChain (omega arith) created add_pay (pos 0)
        (hash_at 1) pay_block-verify;
  fresh = pay_block-fresh;
  fits = ground arith;
}

trusting : (peer : Str) → is_blacklisted new_peer_manager peer ≡ false
unfolding is_blacklisted new_peer_manager lookup
trusting peer = refl

node-Has : Has Examples.start node
node-Has = record { relays = λ e. cc; trusting = trusting; chain = refl }

first_node-Has : Has Examples.start first_node
first_node-Has = record {
  relays = λ e. cc;
  trusting = unfold is_blacklisted lookup in trusting;
  chain = refl;
}

abbrev nodes : List BlockchainServer
nodes = first_node ∷ node ∷ []

abbrev before : Network
before =
    announcing toy Examples.start grown genesis pay_block pay_block-IsNext nodes 0 first_node hashes

abbrev after : Network
after = record {
  nodes = record first_node { blockchain = grown } ∷ record node { blockchain = grown } ∷ [];
  calls = [];
}

only-Step : Step toy before after
unfolding set list_peer_clients broadcast_block new_peer_manager
only-Step =
    delivered before.nodes after.nodes before.calls [] [] (call pay_block hashes 1) [] (here []) (
      receive-new toy Examples.start grown genesis pay_block hashes pay_block-IsNext before.nodes []
        1 node refl (record { relays = λ e. cc; trusting = trusting; chain = inl refl })
        (ap (is_some) pay_block-fresh))

one-Run : Run toy 1 before after
one-Run = more 0 before after after only-Step (done after)

reaches_one : Reaches (managers nodes) 0 1
unfolding list_peer_clients
reaches_one = onward 0 1 start (_, refl, inl refl, _, refl)

block_reaches_example :
    (t : BlockchainServer) × (get_elem? after.nodes 1 ≡ some t) × (t.blockchain ≡ grown)
block_reaches_example =
    block_reaches toy Examples.start grown genesis pay_block pay_block-IsNext hashes nodes 0
      first_node 1 after (first_node-Has, (node-Has, tt)) refl one-Run 1 refl reaches_one

block_settles_example :
    (1 + measure (knows pay_block) after ≡ measure (knows pay_block) before)
    × ((after.calls ≡ []) ⊎ ((further : Network) × Step toy after further))
block_settles_example =
    block_settles toy Examples.start grown genesis pay_block pay_block-IsNext hashes nodes 0
      first_node 1 after (first_node-Has, (node-Has, tt)) refl one-Run

abbrev reply : Reply Turn
reply = record {
  result = ok next;
  server = record first_node { blockchain = grown };
  sent = broadcast_block first_node.peer_manager pay_block hashes;
}

mined :
    mine_turn toy
      (record { server = first_node; now = pos 0; order = pay ∷ [] } ∷ [])
      (try_seven ∷ [])
      first_node
    ≡ some reply
unfolding mine_turn wait_for_block create_block_with_transactions
mined =
    let published =
      mined_block_published toy first_node draft genesis (hash_at 1) refl
        (unfold get_last_block in refl) refl (ap (λ r. r.0) pay_block-IsNext.added) in
    ground (arith, chosen, created, found_first, published, ap (λ r. r.1) pay_block-IsNext.added)

pay-FitsTransaction : FitsTransaction pay
pay-FitsTransaction = ground arith

search-FindsFresh : FindsFresh toy Examples.start draft (try_seven ∷ [])
search-FindsFresh c hash h =
    let same : hash_at 1 ≡ hash = ground (arith, found_first, h) in
    subst (λ x. get_block_by_hash Examples.start x ≡ none) same pay_block-fresh

mined_block_reaches_example :
    (c : Block) × (c.content.transactions ≡ pay ∷ [])
    × (peer : BlockchainServer) × (get_elem? after.nodes 1 ≡ some peer)
    × (peer.blockchain ≡ record {
      blocks = genesis ∷ c ∷ [];
      utxo_set = (UtxoSet.add_transaction toy one_coin pay).1;
    })
mined_block_reaches_example =
    mined_block_reaches toy first_node pay draft (pos 0) start-IsChain (omega arith) created add_pay
      (pay ∷ []) [] [] [] try_seven nodes 0 1 1 reply after refl chosen toy-HeadersMarshalled
      (refl, tt) seven-IsSolved pay-FitsTransaction search-FindsFresh
      (first_node-Has, (node-Has, tt)) refl mined one-Run refl reaches_one

-- The transaction is one that a client makes of its coin.
pay-IsCreated : IsCreated toy one_coin me you 4 pay
unfolding value key_to_addr
pay-IsCreated = record {
  inputs = coin 0 10 ∷ [];
  rest = [];
  selected = my_coins;
  pays = record { inputs_spent = refl; value_kept = unfold value in refl; outputs_made = made };
  verified = pay-verified;
  taken = add_pay;
}
  where
    made : pay.content.output_utxos ≡ (
        if ltb 4 (value (coin 0 10 ∷ []))
        then payment toy you 4 ∷ leftover toy (coin 0 10 ∷ []) me 4 ∷ []
        else payment toy you 4 ∷ [])
    made = refl

payment_arrives_example :
    (peer : BlockchainServer) × (get_elem? after.nodes 1 ≡ some peer)
    × (worth peer.blockchain.utxo_set home + (if str_eq home (key_to_addr toy me) then 4 else 0)
        ≡ worth one_coin home + (if str_eq home (key_to_addr toy you) then 4 else 0))
payment_arrives_example =
    payment_arrives toy first_node pay draft (pos 0) start-IsChain (omega arith) created add_pay
      one_coin me you 4 (pay ∷ []) [] [] [] try_seven nodes 0 1 1 reply after home pay-IsCreated
      my_coins-IsSpendable refl chosen toy-HeadersMarshalled (refl, tt) seven-IsSolved
      pay-FitsTransaction search-FindsFresh (first_node-Has, (node-Has, tt)) refl mined one-Run refl
      reaches_one
