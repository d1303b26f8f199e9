-- ===== src/Examples/Gossip.antt =====
-- Two nodes on the data of the tests, the first of which is connected to the second.
use nakamato_blockchain.Base.{◌+◌, ◌≡◌, false, ◌⊎◌, inl, refl, [], ◌∷◌, arith}
use nakamato_blockchain.Base.Text.{codes}
use nakamato_blockchain.Base.Dict.{lookup}
use nakamato_blockchain.PeerManager.{new_peer_manager}
use nakamato_blockchain.TransactionPool
use nakamato_blockchain.TransactionPool.{new_transaction_pool}
use nakamato_blockchain.Blockchain
use nakamato_blockchain.Blockchain.{any_block, any_hash}
use nakamato_blockchain.Server.{BlockchainServer, list_peer_clients}
use nakamato_blockchain.Network.{Network, Step, Run, done, more, delivered, here, set}
use nakamato_blockchain.Network.Transactions.{receive-unpooled, call, knows, pooled, IsSound, IsNew}
use nakamato_blockchain.Network.Gossip.Ending.{measure}
use nakamato_blockchain.Network.Termination.{Run-ends}
use nakamato_blockchain.Network.Gossip.Spread.{Reaches, start, onward, Knows, managers}
use nakamato_blockchain.Network.Reach.{Run-reaches}
use nakamato_blockchain.Examples.{toy, pay}
use nakamato_blockchain.Examples.Money.{pay-verified}
use nakamato_blockchain.Examples.Node.{node}

abbrev pub first_node : BlockchainServer
first_node = record node {
  peer_manager = record new_peer_manager { peer_clients = (codes "b", 1) ∷ [] };
}

abbrev before : Network
before = record { nodes = first_node ∷ node ∷ []; calls = call pay 0 ∷ [] }

abbrev between : Network
between = record { nodes = pooled pay first_node ∷ node ∷ []; calls = call pay 1 ∷ [] }

abbrev after : Network
after = record { nodes = pooled pay first_node ∷ pooled pay node ∷ []; calls = [] }

pay-IsSound : IsSound toy pay
pay-IsSound = record { verified = pay-verified; fits = ground arith }

node-IsNew : IsNew pay node
unfolding Blockchain.has_transaction any_block any_hash
node-IsNew = refl

node-unknown : knows pay node ≡ false
unfolding TransactionPool.has_transaction new_transaction_pool lookup
node-unknown = refl

first-Step : Step toy before between
unfolding set list_peer_clients
first-Step =
    delivered before.nodes between.nodes before.calls [] between.calls (call pay 0) [] (here []) (
      receive-unpooled toy pay pay-IsSound before.nodes [] 0 first_node refl node-IsNew
        node-unknown)

second-Step : Step toy between after
unfolding set list_peer_clients new_peer_manager
second-Step =
    delivered between.nodes after.nodes between.calls [] after.calls (call pay 1) [] (here [])
      (receive-unpooled toy pay pay-IsSound between.nodes [] 1 node refl node-IsNew node-unknown)

two_steps : Run toy 2 before after
two_steps =
    more 1 before between after first-Step (more 0 between after after second-Step (done after))

Run-ends_example :
    (2 + measure (knows pay) after ≡ measure (knows pay) before)
    × ((after.calls ≡ []) ⊎ ((further : Network) × Step toy after further))
Run-ends_example =
    Run-ends toy pay 2 before after pay-IsSound
      (record { ready = (node-IsNew, (node-IsNew, tt)); only = ((0, refl), tt) }) two_steps

reaches_one : Reaches (managers before.nodes) 0 1
unfolding list_peer_clients
reaches_one = onward 0 1 start (_, refl, inl refl, _, refl)

Run-reaches_example : Knows (knows pay) after.nodes 1
Run-reaches_example =
    Run-reaches toy pay before.nodes 0 first_node 2 after 1 pay-IsSound
      (node-IsNew, (node-IsNew, tt)) (node-unknown, (node-unknown, tt)) refl two_steps refl
      reaches_one
