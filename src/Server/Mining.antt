-- ===== src/Server/Mining.antt =====
-- internal/server/blockchainserver.go: `createBlockWithTransactions`, `MineBlocks` from the hash that was
-- found, and `StopMining`; and what the peers make of a block that an honest node has mined. The search
-- for the hash is in Search.

use nakamato_blockchain.Blockchain
use nakamato_blockchain.Base.{
  ℕ, suc, true, false, not, ◌&&◌, ◌||◌, Option, none, some, List, [], ◌∷◌, if◌then◌else◌,
  ℕ_discrete, get_last?, ◌≡◌, ◌≢◌, refl, sym, ap, arith, ◌∙◌,
}
use nakamato_blockchain.Base.Int.{ℤ, pos, leb_ℤ, ltb_ℤ, eq_ℤ, ℤ-discrete}
use nakamato_blockchain.Base.Text.{Str, codes, str_eq}
use nakamato_blockchain.Types.{
  Transaction, Block, mining_in_progress, mining_not_active, Result, ok, err, panic,
}
use nakamato_blockchain.Crypto.{Primitives}
use nakamato_blockchain.Blockchain.{
  Blockchain, new_blockchain, get_last_block, get_block_by_hash, get_last_100_hashes, create_block,
  add_block, check_link,
}
use nakamato_blockchain.TransactionPool.{get_up_to_n_transactions}
use nakamato_blockchain.PeerManager.{is_blacklisted}
use nakamato_blockchain.Blockchain.Growth.{add_block_ok}
use nakamato_blockchain.Server.{
  BlockchainServer, Reply, broadcast_block, link_block, handle_block_submission,
}

-- One turn of the loop of `createBlockWithTransactions`: none if no transaction was found.
unfoldable pub create_block_with_transactions :
    Primitives → ℤ → BlockchainServer → List Transaction → Option (Result Block)
create_block_with_transactions p now s order =
    let transactions = get_up_to_n_transactions p (pos 1) s.blockchain.utxo_set order in
    elim transactions [ [] ↦ none | tx ∷ txs ↦ some (create_block p now s.blockchain (tx ∷ txs)) ]

-- The two ends of mining: `MineBlocks` up to the start of its goroutine, and `StopMining`, which calls
-- a function that may be nil. Nothing comes between their steps here.
unfoldable pub start_mining : BlockchainServer → Result (Unit {0}) × BlockchainServer
start_mining s = if s.mining then (err mining_in_progress, s) else (
  ok tt,
  record s { cancel_func = some s.contexts; contexts = suc s.contexts; mining = true },
)

unfoldable pub stop_mining : BlockchainServer → Result (Unit {0}) × BlockchainServer
stop_mining s = if not s.mining then (err mining_not_active, s) else elim s.cancel_func [
  | none ↦ (panic, s)
  | some i ↦ (ok tt, record s { cancelled = i ∷ s.cancelled; mining = false })
]

abbrev pub corrupt_first : List Transaction → List Transaction
corrupt_first [] = []
corrupt_first (tx ∷ txs) = record tx { hash = codes "0" } ∷ txs

-- The block as the mode of the node falsifies it.
unfoldable pub falsified : ℤ → Block → Block
falsified mode b =
    if eq_ℤ mode (pos 1)
    then record b { content = record { transactions = corrupt_first b.content.transactions } }
    else if eq_ℤ mode (pos 4) || eq_ℤ mode (pos 2)
    then record b { hash = codes "1"; header = record b.header { nonce = pos 1 } }
    else b

-- Whether the goroutine goes on with the next block.
pub data Turn : Type 0 where
  next stopped : Turn

-- The goroutine returns, whether `StopMining` returned an error or not.
abbrev pub turn_of : Result (Unit {0}) → Result Turn
turn_of (ok _) = ok stopped
turn_of (err _) = ok stopped
turn_of panic = panic

-- The end of a turn, once the block was handed to `AddBlock`.
unfoldable pub announce : BlockchainServer → Block → Reply Turn
announce s b =
    let quiet =
      eq_ℤ s.mode (pos 3)
      && not (eq_ℤ b.header.height (pos 1))
      && not (leb_ℤ (pos 5) b.header.height) in
    let last =
      eq_ℤ s.mode (pos 1)
      || eq_ℤ s.mode (pos 2)
      || eq_ℤ s.mode (pos 3) && eq_ℤ b.header.height (pos 10) in
    record {
      result = if last then turn_of (stop_mining s).0 else ok next;
      server = if last then (stop_mining s).1 else s;
      sent =
          if quiet then [] else broadcast_block s.peer_manager b (get_last_100_hashes s.blockchain);
    }

abbrev pub announced : BlockchainServer → Block → Result (Unit {0}) × Blockchain → Reply Turn
announced s b (ok _, bc) = announce (record s { blockchain = bc }) b
announced s b (err _, bc) =
    if eq_ℤ s.mode (pos 0)
    then record { result = ok next; server = record s { blockchain = bc }; sent = [] }
    else announce (record s { blockchain = bc }) b
announced s b (panic, bc) = record {
  result = panic;
  server = record s { blockchain = bc };
  sent = [];
}

-- The block with its hash put in.
abbrev pub found : Block → Str → Block
found block hash = record block { hash = hash }

-- The rest of a turn of `MineBlocks`, once a hash that meets the difficulty was found.
unfoldable pub mined_block : Primitives → BlockchainServer → Block → Str → Reply Turn
mined_block p s block hash =
    let b = found block hash in
    let lie = falsified s.mode b in
    elim (get_last_block s.blockchain) [
      | none ↦ record { result = panic; server = s; sent = [] }
      | some last ↦
          if leb_ℤ b.header.height last.header.height
          then record { result = ok next; server = s; sent = [] }
          else if eq_ℤ s.mode (pos 3)
              && ltb_ℤ (pos 1) b.header.height
              && ltb_ℤ b.header.height (pos 5)
          then record {
            result = ok next;
            server = record s { blockchain = (Blockchain.add_block p s.blockchain b).1 };
            sent = [];
          }
          else announced s lie (Blockchain.add_block p s.blockchain lie)
    ]

announce-honest :
    (s : BlockchainServer) (b : Block)
    → s.mode ≡ pos 0
    → announce s b ≡ record {
      result = ok next;
      server = s;
      sent = broadcast_block s.peer_manager b (get_last_100_hashes s.blockchain);
    }
unfolding announce ℤ-discrete
announce-honest s b honest =
    let one : eq_ℤ s.mode (pos 1) ≡ false = ap (λ m. eq_ℤ m (pos 1)) honest in
    let two : eq_ℤ s.mode (pos 2) ≡ false = ap (λ m. eq_ℤ m (pos 2)) honest in
    let three : eq_ℤ s.mode (pos 3) ≡ false = ap (λ m. eq_ℤ m (pos 3)) honest in
    rw (one, two, three) refl

module _ (p : Primitives) (s : BlockchainServer) (block last : Block) (hash : Str)
    (honest : s.mode ≡ pos 0) (tip : get_last_block s.blockchain ≡ some last)
    (ahead : leb_ℤ block.header.height last.header.height ≡ false)
    (added : (add_block p s.blockchain (found block hash)).0 ≡ ok tt) where
  -- A block that an honest node has mined above its last one and can add is added, sent to each peer
  -- with the hashes of the new chain, and the mining goes on.
  pub mined_block_published : mined_block p s block hash ≡ (
      let after : BlockchainServer = record s {
        blockchain = (add_block p s.blockchain (found block hash)).1;
      } in
      record {
        result = ok next;
        server = after;
        sent =
            broadcast_block s.peer_manager
              (found block hash)
              (get_last_100_hashes after.blockchain);
      })
  unfolding mined_block falsified announce ℤ-discrete ℕ_discrete
  mined_block_published =
      let (_, _, _, e) = add_block_ok p s.blockchain (found block hash) added in
      let kept : falsified s.mode (found block hash) ≡ found block hash =
        unfold falsified in rw honest refl in
      let free : eq_ℤ s.mode (pos 3) ≡ false = ap (λ m. eq_ℤ m (pos 3)) honest in
      rw (mined_block, tip, ahead, free, kept, e) (announce-honest _ _ honest)

  tip_linked : block.header.previous_hash ≡ last.hash
  tip_linked =
      let last_of : get_last? s.blockchain.blocks ≡ some last = unfold get_last_block in tip in
      let (_, link, _, _) = add_block_ok p s.blockchain (found block hash) added in
      let linked : check_link (some last) (found block hash) ≡ ok tt =
        ap (λ o. check_link o (found block hash)) (sym last_of) ∙ link in
      unfold check_link in ground (arith, linked)

  -- A block that a node in mode 0 has found above its last block and can add is taken by every peer
  -- that has the same chain and UTXO set, has not blacklisted the sender and is not in mode 3, and
  -- the peer's chain and UTXO set are then the miner's.
  pub mined_block_adopted :
      (answer : ℕ → Str → Option Block) (peer : BlockchainServer) (hashes : List Str)
      (address : Str)
      → peer.blockchain ≡ s.blockchain
      → peer.mode ≢ pos 3
      → is_blacklisted peer.peer_manager address ≡ false
      → ((handle_block_submission p answer peer (found block hash) hashes address).result ≡ ok true)
        × ((handle_block_submission p answer peer
              (found block hash)
              hashes
              address).server.blockchain
            ≡ (mined_block p s block hash).server.blockchain)
  mined_block_adopted answer peer hashes address chain normal white =
      let (v, _, _, e) = add_block_ok p s.blockchain (found block hash) added in
      let open_ : (eq_ℤ peer.mode (pos 3)
            && leb_ℤ (pos 1) block.header.height
            && ltb_ℤ block.header.height (pos 5))
          ≡ false =
        ground (arith, normal) in
      let same : str_eq block.header.previous_hash last.hash ≡ true = ground (arith, tip_linked) in
      rw mined_block_published (
        unfold handle_block_submission link_block in
        rw (white, open_, v, chain, tip, same, e) (refl, refl))
