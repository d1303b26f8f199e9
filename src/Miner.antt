-- ===== src/Miner.antt =====
-- cmd/miner/main.go: loading the first UTXOs, the start of a node, and the HTTP handlers. The files and
-- the body of a request are parameters by what they decode to: none if that fails.
pub mod Requests
pub mod Events
pub mod Pooled
pub mod Lifetime
pub mod Money
use nakamato_blockchain.Base.{ℕ, Bool, not, Option, none, some, List, [], ◌∷◌, ◌++◌, if◌then◌else◌}
use nakamato_blockchain.Base.Int.{ℤ}
use nakamato_blockchain.Base.Text.{Str, codes, str_eq}
use nakamato_blockchain.Types.{Utxo, Result, ok, err, panic}
use nakamato_blockchain.Crypto.{Primitives}
use nakamato_blockchain.PeerManager.{new_peer_manager, add_peers}
use nakamato_blockchain.Server.{BlockchainServer, new_blockchain_server}
use nakamato_blockchain.Server.Mining.{start_mining, stop_mining}
use nakamato_blockchain.Client.{UtxoEntry}

-- The UTXOs of all entries, with the addresses that they name.
unfoldable pub utxos_of : List UtxoEntry → List Utxo
utxos_of [] = []
utxos_of (e ∷ es) = e.utxos ++ utxos_of es

-- What fails ends the program.
unfoldable pub load_utxos : Option (List UtxoEntry) → Option (List Utxo)
unfolding utxos_of
load_utxos none = none
load_utxos (some entries) = some (utxos_of entries)

-- The status of an HTTP response; there is none where the handler panics, which ends its connection and
-- not the program.
pub data HttpStatus : Type 0 where
  status_ok bad_request not_found method_not_allowed internal_error no_response : HttpStatus

abbrev status_of : Result (Unit {0}) → HttpStatus
status_of (ok _) = status_ok
status_of (err _) = internal_error
status_of panic = no_response

module _ (split_host_port : Str → Option (Str × Str)) (dial : Str → Option ℕ) where
  -- The node as `main` starts it; none where the program ends instead.
  unfoldable pub start_node :
      Primitives → ℤ → Option (List UtxoEntry) → ℤ → List Str → Option BlockchainServer
  start_node p now file mode peer_addresses =
      let peers = add_peers split_host_port dial new_peer_manager peer_addresses in
      elim (load_utxos file) [
        | none ↦ none
        | some utxos ↦ elim (new_blockchain_server p now peers utxos mode) [
          | ok s ↦ some (start_mining s).1
          | err _ ↦ none
          | panic ↦ none
        ]
      ]

  unfoldable pub handle_add_peers :
      BlockchainServer → Bool → Option (List Str) → HttpStatus × BlockchainServer
  handle_add_peers s is_post body = if not is_post then (method_not_allowed, s) else elim body [
    | none ↦ (bad_request, s)
    | some addresses ↦ (
      status_ok,
      record s { peer_manager = add_peers split_host_port dial s.peer_manager addresses },
    )
  ]

unfoldable pub handle_mine_blocks : BlockchainServer → Bool → HttpStatus × BlockchainServer
handle_mine_blocks s is_post =
    if not is_post
    then (method_not_allowed, s)
    else (status_of (start_mining s).0, (start_mining s).1)

unfoldable pub handle_stop_mining : BlockchainServer → Bool → HttpStatus × BlockchainServer
handle_stop_mining s is_post =
    if not is_post
    then (method_not_allowed, s)
    else (status_of (stop_mining s).0, (stop_mining s).1)

-- A request, and what its body decodes to.
pub record HttpRequest : Type 0 where
  pub path : Str
  pub is_post : Bool
  pub body : Option (List Str)

module _ (split_host_port : Str → Option (Str × Str)) (dial : Str → Option ℕ) where
  -- The handlers that `startHTTPServer` registers, by their paths. Any other path is not found.
  unfoldable pub serve_http : BlockchainServer → HttpRequest → HttpStatus × BlockchainServer
  serve_http s r =
      if str_eq r.path (codes "/addpeers")
      then handle_add_peers split_host_port dial s r.is_post r.body
      else if str_eq r.path (codes "/mineblocks")
      then handle_mine_blocks s r.is_post
      else if str_eq r.path (codes "/stopmining")
      then handle_stop_mining s r.is_post
      else (not_found, s)

  -- The node after the requests.
  unfoldable pub serve_requests : BlockchainServer → List HttpRequest → BlockchainServer
  serve_requests s [] = s
  serve_requests s (r ∷ rs) = serve_requests (serve_http s r).1 rs

  -- The node that `main` starts, by its arguments, which begin with the program's name; fewer than five
  -- end the program. `strconv.Atoi` is a parameter, its error is not looked at.
  unfoldable pub miner_main :
      Primitives
      → (Str → ℤ)
      → (Str → Option (List UtxoEntry))
      → ℤ
      → List Str
      → Option BlockchainServer
  miner_main p atoi files now
        (program ∷ utxo_file ∷ http_port ∷ grpc_port ∷ mode ∷ peer_addresses) =
      start_node split_host_port dial p now (files utxo_file) (atoi mode) peer_addresses
  miner_main p atoi files now _ = none
