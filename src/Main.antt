-- ===== src/Main.antt =====
-- `main` of app/cmd/node/node.go: the start of the blockchain, the configuration of the P2P network
-- that it makes from that of the blockchain, and the start of the network. The HTTP server, which runs
-- beside it, is not part of it.
pub mod Peers
pub mod Running
use Prim.Native.String.{◌++◌}
use go_blockchain_demo.Prelude.{
  ℕ, String, List, [], ◌∷◌, Option, none, some, Outcome, ok, Action, pure, gets, lift, fail, errorf,
  wrapping, ◌>>=◌, ◌>>◌, ◌==◌, if◌then◌else◌, Decimal.decimal,
}
use go_blockchain_demo.Records.{Node, Config}
use go_blockchain_demo.Library.{Library, P2pNetworkInterface}
use go_blockchain_demo.State.{Blockchain, call}
use go_blockchain_demo.Chain.{init, set_p2p_network}
use go_blockchain_demo.Peer.{PeerConfig, P2pNetwork, Servers, new_p2p_network, start}

-- `fmt.Sprintf("enode://%s@%s", node.PublicKey, node.URL)`
unfoldable pub enode_url : Node → String
enode_url node = "enode://" ++ (node.public_key ++ ("@" ++ node.url))

-- The loop over the nodes: the URLs of all but this one.
unfoldable pub enode_nodes : ℕ → List Node → List String
unfolding enode_url
enode_nodes index [] = []
enode_nodes index (node ∷ nodes) =
    if node.index == index
    then enode_nodes index nodes
    else enode_url node ∷ enode_nodes index nodes

unfoldable pub p2p_config : Config → PeerConfig
unfolding enode_nodes
p2p_config config = record {
  private_key_hex = config.private_key_hex;
  nodes = enode_nodes config.index config.nodes;
  max_peers = 10;
  name = "Node" ++ decimal config.index;
  listen_addr = ":30303";
}

module _ (lib : Library) {Connection Channel Enode : Type 0} (servers : Servers lib Enode)
    (interface : P2pNetwork lib Connection Channel → P2pNetworkInterface lib.World) where
  -- `main` up to the `select {}`; `log.Fatal` ends it with an error. `interface p` is the pointer to
  -- `p` as a P2PNetworkInterface. It gives the network, and the nodes that it keeps connected.
  unfoldable pub main : Action (Blockchain lib) (P2pNetwork lib Connection Channel × List Enode)
  unfolding p2p_config
  main = do
    wrapping "Không thể khởi tạo blockchain" init
    config ← gets (λ s. s.config)
    p2p_net ←
        wrapping "Không thể khởi tạo P2P network"
          (lift (new_p2p_network lib Connection Channel (p2p_config config)))
    set_p2p_network (interface p2p_net)
    network ← gets (λ s. s.p2p_network)
    elim network [
      | none ↦ fail (errorf "P2P network chưa được thiết lập đúng" "")
      | some _ ↦ do
        nodes ← wrapping "Không thể khởi động P2P network" (call lib (start servers p2p_net))
        pure (p2p_net, nodes)
    ]
