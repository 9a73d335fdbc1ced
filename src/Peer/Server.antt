-- ===== src/Peer/Server.antt =====
-- The server of a node, in app/internal/p2pnetwork/p2pnetwork.go: `Start`, `Stop`,
-- and what `maintainConnections` does at every tick. The p2p package of go-ethereum is a parameter.
use go_blockchain_demo.Prelude.{
  ℕ, String, List, [], ◌∷◌, Option, none, some, Bool, true, Outcome, Action, ⊤, pure, wrapping,
  ◌>>◌,
}
use go_blockchain_demo.Library.{Library}
use go_blockchain_demo.Peer.Table.{P2pNetwork, clean_invalid_peer_rws}

-- `p2p.Protocol`, but for its `Run`, which is `runProtocol`
pub record Protocol : Type 0 where
  pub name : String
  pub version : ℕ
  pub length : ℕ

-- `p2p.Config`
pub record ServerConfig (lib : Library) (Enode : Type 0) : Type 0 where
  pub private_key : lib.PrivateKey
  pub max_peers : ℕ
  pub name : String
  pub listen_addr : String
  pub static_nodes : List Enode
  pub no_discovery : Bool
  pub protocols : List Protocol

-- `enode.ParseV4`, which gives nothing for a URL that is none, and the methods `Start`, `Stop`, `AddPeer`
-- and `Peers` of the server, of which the last gives the IDs of the peers.
pub record Servers (lib : Library) (Enode : Type 0) : Type 0 where
  pub parse_v4 : String → Option Enode
  pub start_server : ServerConfig lib Enode → lib.World → Outcome ⊤ × lib.World
  pub stop_server : ServerConfig lib Enode → lib.World → lib.World
  pub add_peer : Enode → lib.World → lib.World
  pub peers : lib.World → List String

module _ {lib : Library} {Enode : Type 0} (servers : Servers lib Enode) where
  -- The loop over the URLs: one that cannot be parsed is left out.
  unfoldable pub parse_nodes : List String → List Enode
  parse_nodes [] = []
  parse_nodes (url ∷ urls) =
      let rest = parse_nodes urls in
      elim (servers.parse_v4 url) [ none ↦ rest | some node ↦ node ∷ rest ]

  unfoldable pub server_config :
      {Connection Channel : Type 0} → P2pNetwork lib Connection Channel → ServerConfig lib Enode
  unfolding parse_nodes
  server_config p = record {
    private_key = p.private_key;
    max_peers = p.config.max_peers;
    name = p.config.name;
    listen_addr = p.config.listen_addr;
    static_nodes = parse_nodes p.config.nodes;
    no_discovery = true;
    protocols = record { name = "ping"; version = 1; length = 9 } ∷ [];
  }

  -- `p.Start()`, which gives the nodes that `maintainConnections` is started with
  unfoldable pub start :
      {Connection Channel : Type 0}
      → P2pNetwork lib Connection Channel
      → Action lib.World (List Enode)
  unfolding server_config
  start p = do
    wrapping "couldn't start server" (servers.start_server (server_config p))
    pure (parse_nodes p.config.nodes)

  -- `p.Stop()`, of the server if there is one
  unfoldable pub stop : Option (ServerConfig lib Enode) → lib.World → lib.World
  stop none w = w
  stop (some server) w = servers.stop_server server w

  unfoldable pub add_peers : List Enode → lib.World → lib.World
  add_peers [] w = w
  add_peers (node ∷ nodes) w = add_peers nodes (servers.add_peer node w)

  -- A tick of `p.maintainConnections(nodes)`
  unfoldable pub maintain_connections :
      {Connection Channel : Type 0}
      → List Enode
      → P2pNetwork lib Connection Channel × lib.World
      → P2pNetwork lib Connection Channel × lib.World
  unfolding add_peers
  maintain_connections nodes (p, w) =
      (clean_invalid_peer_rws (servers.peers w) p, add_peers nodes w)
