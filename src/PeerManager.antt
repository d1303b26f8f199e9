-- ===== src/PeerManager.antt =====
-- internal/server/peermanager.go. A connection is the number that dialling returns; dialling and
-- `net.SplitHostPort` are parameters. The lock makes each method one step.
pub mod Blacklist
pub mod Peers
use nakamato_blockchain.Base.{
  ℕ, zero, suc, ◌+◌, Bool, true, false, not, ◌&&◌, ◌||◌, Option, none, some, List, [], ◌∷◌, ◌++◌,
  map, leb, ◌==◌, if◌then◌else◌,
}
use nakamato_blockchain.Base.Int.{ℤ, pos, ◌+ℤ◌, leb_ℤ, wrap64}
use nakamato_blockchain.Base.Text.{Str, codes, str_eq}
use nakamato_blockchain.Base.Dict.{Dict, lookup, contains, insert, erase}
use nakamato_blockchain.Types.{
  Error, invalid_peer_address, connection_failed, Result, ok, err, panic,
}

pub record PeerManager : Type 0 where
  pub peer_clients : Dict ℕ
  pub blacklisted : Dict Bool
  pub invalid_count : Dict ℤ

unfoldable pub new_peer_manager : PeerManager
new_peer_manager = record { peer_clients = []; blacklisted = []; invalid_count = [] }

-- `strings.Contains(s, c)` for one byte.
unfoldable pub contains_byte : ℕ → Str → Bool
contains_byte c [] = false
contains_byte c (d ∷ s) = let rest = contains_byte c s in if c == d then true else rest

abbrev pub default_grpc_port : Str
default_grpc_port = codes "50051"

abbrev pub is_host_port : Option (Str × Str) → Bool
is_host_port none = false
is_host_port (some (host, port)) = not (str_eq host [] || str_eq port [])

abbrev connected : PeerManager → Str → Option ℕ → Result (Unit {0}) × PeerManager
connected pm address none = (err connection_failed, pm)
connected pm address (some conn) =
    (ok tt, record pm { peer_clients = insert address conn pm.peer_clients })

-- The address with the default port appended if it has none.
unfoldable pub with_port : Str → Str
unfolding contains_byte
with_port address =
    if contains_byte b':' address then address else address ++ b':' ∷ default_grpc_port

module _ (split_host_port : Str → Option (Str × Str)) (dial : Str → Option ℕ) where
  unfoldable pub add_peer : PeerManager → Str → Result (Unit {0}) × PeerManager
  unfolding with_port
  add_peer pm original_address =
      let address = with_port original_address in
      if not (is_host_port (split_host_port address))
      then (err invalid_peer_address, pm)
      else if contains address pm.peer_clients
      then (ok tt, pm)
      else connected pm address (dial address)

  -- The inner loop of `AddPeers`, over the trimmed parts of one address.
  unfoldable pub add_parts : PeerManager → List Str → PeerManager
  add_parts pm [] = pm
  add_parts pm (part ∷ parts) =
      add_parts (if str_eq part [] then pm else (add_peer pm part).1) parts

-- `strings.Split(s, ",")`, where `part` is what was read of the current part.
unfoldable pub split_from : Str → Str → List Str
split_from part [] = part ∷ []
split_from part (c ∷ s) = elim (c == b',') [
  | true ↦ part ∷ split_from [] s
  | false ↦ split_from (part ++ c ∷ []) s
]

-- The ASCII white space.
unfoldable pub is_space : ℕ → Bool
is_space c = c == 32 || leb 9 c && leb c 13

unfoldable pub trim_left : Str → Str
trim_left [] = []
trim_left (c ∷ s) = let rest = trim_left s in if is_space c then rest else c ∷ s

unfoldable pub trim_right : Str → Str
trim_right [] = []
trim_right (c ∷ s) =
    let rest = trim_right s in if is_space c && str_eq rest [] then [] else c ∷ rest

unfoldable pub trim_space : Str → Str
unfolding trim_left trim_right is_space
trim_space s = trim_right (trim_left s)

module _ (split_host_port : Str → Option (Str × Str)) (dial : Str → Option ℕ) where
  unfoldable pub add_peers : PeerManager → List Str → PeerManager
  unfolding add_parts split_from trim_space
  add_peers pm [] = pm
  add_peers pm (address ∷ addresses) =
      add_peers (add_parts split_host_port dial pm (map trim_space (split_from [] address)))
        addresses

-- Whether or not the connection closes cleanly, the peer is removed.
unfoldable pub remove_peer : PeerManager → Str → PeerManager
remove_peer pm address =
    if contains address pm.peer_clients
    then record pm { peer_clients = erase address pm.peer_clients }
    else pm

abbrev address_of : Str × ℕ → Str
address_of e = e.0

unfoldable pub list_peers : PeerManager → List Str
list_peers pm = map address_of pm.peer_clients

-- A missing entry is the zero value.
abbrev pub or_false : Option Bool → Bool
or_false none = false
or_false (some b) = b

abbrev pub or_zero : Option ℤ → ℤ
or_zero none = pos 0
or_zero (some z) = z

unfoldable pub is_blacklisted : PeerManager → Str → Bool
is_blacklisted pm address = or_false (lookup address pm.blacklisted)

unfoldable pub increment_invalid_count : PeerManager → Str → PeerManager
increment_invalid_count pm address =
    let count = wrap64 (or_zero (lookup address pm.invalid_count) +ℤ pos 1) in
    record pm {
      invalid_count = insert address count pm.invalid_count;
      blacklisted =
          if leb_ℤ (pos 3) count then insert address true pm.blacklisted else pm.blacklisted;
    }
