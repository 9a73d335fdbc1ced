-- ===== src/Peer/Table.antt =====
-- `type P2PNetwork` of app/internal/p2pnetwork/p2pnetwork.go: the table of connections, and the
-- broadcast of a transaction.
use go_blockchain_demo.Prelude.{
  ℕ, String, List, [], ◌∷◌, Bool, false, Outcome, ok, err, panic, errorf, wrap, ⊤, Assoc, insert,
  erase, str_eq, if◌then◌else◌, ◌||◌,
}
use go_blockchain_demo.Records.{Transaction}
use go_blockchain_demo.Library.{Library}

-- `type Config struct` of the package
pub record PeerConfig : Type 0 where
  pub private_key_hex : String
  pub nodes : List String
  pub max_peers : ℕ
  pub name : String
  pub listen_addr : String

-- `type P2PNetwork struct`, over the types of a connection (`p2p.MsgReadWriter`) and of a channel.
-- The server and the blockchain that it points to are not in it.
pub record P2pNetwork (lib : Library) (Connection Channel : Type 0) : Type 0 where
  pub config : PeerConfig
  pub private_key : lib.PrivateKey
  pub tx_channels : Assoc Channel
  pub peer_rws : Assoc Connection

-- `NewP2PNetwork(config)`
unfoldable pub new_p2p_network :
    (lib : Library) (Connection Channel : Type 0)
    → PeerConfig
    → Outcome (P2pNetwork lib Connection Channel)
new_p2p_network lib Connection Channel config = elim (lib.hex_to_ecdsa config.private_key_hex) [
  | err e ↦ err (wrap "không thể tạo khóa node từ hex" e)
  | panic ↦ panic
  | ok nodekey ↦
      ok (record { config = config; private_key = nodekey; tx_channels = []; peer_rws = [] })
]

-- The loop of `BroadcastTransaction`: the peers whose channel takes the transaction at once, where
-- `ready` says which channels have a receiver or room.
unfoldable pub broadcast_loop : {Channel : Type 0} → (Channel → Bool) → Assoc Channel → List String
broadcast_loop ready [] = []
broadcast_loop ready ((peer_id, channel) ∷ channels) =
    let rest = broadcast_loop ready channels in if ready channel then peer_id ∷ rest else rest

-- `if !activePeers[peerID] { delete(p.peerRWs, peerID) }`, for every entry
unfoldable pub contains_text : String → List String → Bool
contains_text k [] = false
contains_text k (x ∷ xs) = str_eq x k || contains_text k xs

unfoldable pub retain_active : {V : Type 0} → List String → Assoc V → Assoc V
unfolding contains_text
retain_active active [] = []
retain_active active ((peer_id, rw) ∷ m) =
    let rest = retain_active active m in
    if contains_text peer_id active then (peer_id, rw) ∷ rest else rest

module _ {lib : Library} {Connection Channel : Type 0} where
  -- `p.BroadcastTransaction(tx)`: the peers that it is sent to, and the result.
  unfoldable pub broadcast_transaction :
      (Channel → Bool) → P2pNetwork lib Connection Channel → Transaction → List String × Outcome ⊤
  unfolding broadcast_loop
  broadcast_transaction ready p tx = elim p.tx_channels [
    | [] ↦ ([], err (errorf "không có peer nào để gửi transaction" ""))
    | c ∷ cs ↦ (broadcast_loop ready (c ∷ cs), ok tt)
  ]

  -- `p.setPeerRW(peerID, rw)`
  unfoldable pub set_peer_rw :
      String → Connection → P2pNetwork lib Connection Channel → P2pNetwork lib Connection Channel
  set_peer_rw peer_id rw p = record p { peer_rws = insert peer_id rw p.peer_rws }

  -- `p.removePeerRW(peerID)`
  unfoldable pub remove_peer_rw :
      String → P2pNetwork lib Connection Channel → P2pNetwork lib Connection Channel
  remove_peer_rw peer_id p = record p { peer_rws = erase peer_id p.peer_rws }

  -- `p.GetAllPeerRWs()`: a copy of the map
  unfoldable pub get_all_peer_rws : P2pNetwork lib Connection Channel → Assoc Connection
  get_all_peer_rws p = p.peer_rws

  -- `p.cleanInvalidPeerRWs()`, at the IDs of the peers of the server
  unfoldable pub clean_invalid_peer_rws :
      List String → P2pNetwork lib Connection Channel → P2pNetwork lib Connection Channel
  clean_invalid_peer_rws active p = record p { peer_rws = retain_active active p.peer_rws }
