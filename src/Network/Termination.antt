-- ===== src/Network/Termination.antt =====
-- A transaction is passed on only so often.
use nakamato_blockchain.Base.{ℕ, ◌+◌, ◌≡◌, ◌⊎◌, []}
use nakamato_blockchain.Types.{Transaction}
use nakamato_blockchain.Crypto.{Primitives}
use nakamato_blockchain.Network.{Network, Step, Run}
use nakamato_blockchain.Network.Gossip.Steps.{IsOnly}
use nakamato_blockchain.Network.Gossip.Ending.{measure, Run-IsOnly, ends_or_steps}
use nakamato_blockchain.Network.Transactions.{knows, IsSound, transaction_gossip}

-- A network passes a transaction on only so often: where it verifies and its indices fit the
-- messages, and it is all that is called about and in nobody's chain, each call takes exactly one
-- from the calls still to be made and the connections of the nodes that do not know it, and the
-- network goes on until no call is left.
pub Run-ends :
    (p : Primitives) (tx : Transaction) (n : ℕ) (net end : Network) (sound : IsSound p tx)
    → IsOnly p (transaction_gossip p tx sound) net
    → Run p n net end
    → (n + measure (knows tx) end ≡ measure (knows tx) net)
      × ((end.calls ≡ []) ⊎ ((after : Network) × Step p end after))
Run-ends p tx n net end sound only run =
    let (_, e) = Run-IsOnly p (transaction_gossip p tx sound) n net end only run in
    (e, ends_or_steps p (transaction_gossip p tx sound) end)
