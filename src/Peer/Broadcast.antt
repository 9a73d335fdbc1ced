-- ===== src/Peer/Broadcast.antt =====
-- What a `P2PNetwork` of app/internal/p2pnetwork/p2pnetwork.go can become, and what that means for
-- its broadcast.
use go_blockchain_demo.Prelude.{String, ◌≡◌, List, [], Bool, ok, err, errorf, arith}
use go_blockchain_demo.Records.{Transaction}
use go_blockchain_demo.Library.{Library}
use go_blockchain_demo.Peer.Table.{
  PeerConfig, P2pNetwork, new_p2p_network, broadcast_transaction, set_peer_rw, remove_peer_rw,
  clean_invalid_peer_rws,
}

module _ {lib : Library} {Connection Channel : Type 0} where
  -- The networks that the methods of the package make, from a new one.
  pub data Reachable : P2pNetwork lib Connection Channel → Type 0 where
    started :
        (config : PeerConfig) (p : P2pNetwork lib Connection Channel)
        → new_p2p_network lib Connection Channel config ≡ ok p
        → Reachable p
    connected :
        (peer_id : String) (rw : Connection) (p : P2pNetwork lib Connection Channel)
        → Reachable p
        → Reachable (set_peer_rw peer_id rw p)
    disconnected :
        (peer_id : String) (p : P2pNetwork lib Connection Channel)
        → Reachable p
        → Reachable (remove_peer_rw peer_id p)
    cleaned :
        (active : List String) (p : P2pNetwork lib Connection Channel)
        → Reachable p
        → Reachable (clean_invalid_peer_rws active p)

  -- No method makes a channel.
  no_channels : (p : P2pNetwork lib Connection Channel) → Reachable p → p.tx_channels ≡ []
  unfolding new_p2p_network set_peer_rw remove_peer_rw clean_invalid_peer_rws
  no_channels _ (started config p made) = ground (arith, made)
  no_channels _ (connected peer_id rw q h) = no_channels q h
  no_channels _ (disconnected peer_id q h) = no_channels q h
  no_channels _ (cleaned active q h) = no_channels q h

  -- In every network that the methods of the package can make, whichever peers are connected, a
  -- broadcast reaches no peer and gives an error.
  pub broadcast_transaction-Reachable :
      (ready : Channel → Bool) (p : P2pNetwork lib Connection Channel) (tx : Transaction)
      → Reachable p
      → broadcast_transaction ready p tx
        ≡ ([], err (errorf "không có peer nào để gửi transaction" ""))
  unfolding broadcast_transaction
  broadcast_transaction-Reachable ready p tx h = ground (arith, no_channels p h)
