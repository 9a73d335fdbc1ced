-- ===== src/Main/Running.antt =====
-- What the node program does on the disk of a node that ran before (app/cmd/node/node.go).
use Prim.Native.String.{◌++◌}
use go_blockchain_demo.Prelude.{
  Decimal.decimal, String, ◌≡◌, ◌↔◌, refl, ap, subst, ◌∙◌, [], ◌∷◌, some, ok, arith, effects, In,
  true,
}
use go_blockchain_demo.Records.{Block, Config}
use go_blockchain_demo.Library.{Library, P2pNetworkInterface}
use go_blockchain_demo.Library.Laws.{Laws}
use go_blockchain_demo.State.{Blockchain, Slot}
use go_blockchain_demo.State.View.{IsDurable, view}
use go_blockchain_demo.Chain.{init, set_p2p_network}
use go_blockchain_demo.Chain.Heads.{Heads, HasHeads}
use go_blockchain_demo.Chain.Saved.{block_in}
use go_blockchain_demo.Chain.Restart.{IsReboot, init-restores}
use go_blockchain_demo.Peer.{
  P2pNetwork, new_p2p_network, Servers, ServerConfig, server_config, start,
}
use go_blockchain_demo.Main.{p2p_config, main}
use go_blockchain_demo.Main.Peers.{IsPeer, parse_nodes-IsPeer}

module _ {lib : Library} {Enode : Type 0} (servers : Servers lib Enode) where
  -- A server as the node program wants it: with the key and the name of the node, ten peers at most,
  -- no discovery, the protocol of the package, and the other nodes of the configuration.
  pub record IsServerOf (config : Config) (key : lib.PrivateKey) (c : ServerConfig lib Enode)
      : Type 0 where
    pub has_key : c.private_key ≡ key
    pub ten_peers : c.max_peers ≡ 10
    pub is_named : c.name ≡ "Node" ++ decimal config.index
    pub listens : c.listen_addr ≡ ":30303"
    pub no_discovery : c.no_discovery ≡ true
    pub ping : c.protocols ≡ record { name = "ping"; version = 1; length = 9 } ∷ []
    pub others :
        (enode : Enode) → In enode c.static_nodes ↔ IsPeer servers config.index config.nodes enode

module _ (lib : Library) (laws : Laws lib) {Connection Channel Enode : Type 0}
    (servers : Servers lib Enode)
    (interface : P2pNetwork lib Connection Channel → P2pNetworkInterface lib.World) where
  -- A node program that runs: what it gives, and the state and the server it has.
  record Runs (s s1 : Blockchain lib) (config : Config) (key : lib.PrivateKey) : Type 0 where
    pub network : P2pNetwork lib Connection Channel
    pub server : ServerConfig lib Enode
    pub w : lib.World
    pub runs : main lib servers interface s ≡ (
      ok (network, server.static_nodes),
      record s1 { p2p_network = some (interface network); world = w },
    )
    pub is_started : servers.start_server server s1.world ≡ (ok tt, w)
    pub is_server : IsServerOf servers config key server
    pub is_empty : (network.peer_rws ≡ []) × (network.tx_channels ≡ [])

  started :
      (s s1 : Blockchain lib) (key : lib.PrivateKey)
      → init s ≡ (ok tt, s1)
      → lib.hex_to_ecdsa s1.config.private_key_hex ≡ ok key
      → ((c : ServerConfig lib Enode)
          → IsServerOf servers s1.config key c
          → (w' : lib.World) × (servers.start_server c s1.world ≡ (ok tt, w')))
      → Runs s s1 s1.config key
  unfolding main p2p_config new_p2p_network set_p2p_network start server_config effects
  started s s1 key inits decodes starts =
      let p : P2pNetwork lib Connection Channel = record {
        config = p2p_config s1.config;
        private_key = key;
        tx_channels = [];
        peer_rws = [];
      } in
      let is_server : IsServerOf servers s1.config key (server_config servers p) = record {
        has_key = refl;
        ten_peers = refl;
        is_named = refl;
        listens = refl;
        no_discovery = refl;
        ping = refl;
        others = parse_nodes-IsPeer servers s1.config.index s1.config.nodes;
      } in
      let (w', starts_up) = starts (server_config servers p) is_server in
      record {
        network = p;
        server = server_config servers p;
        w = w';
        runs = ground (arith, inits, decodes, starts_up);
        is_started = starts_up;
        is_server = is_server;
        is_empty = (refl, refl);
      }

  -- If a node starts on a disk as `Init` restores one, the private key of the configuration can be
  -- decoded, and a server with that key, the name of the node, ten peers at most, no discovery, the
  -- protocol of the package, and as its static nodes exactly those that the URLs of the other nodes of
  -- the configuration are parsed to, can be started, then the node program runs: it has started such a
  -- server, it gives the static nodes to `maintainConnections`, the network that the blockchain has is
  -- one without connections or channels, the configuration is that of the file, and the tries hold what
  -- those of the old node held.
  pub main-runs :
      (old s : Blockchain lib) (config : Config) (heads : Heads) (genesis : Block)
      (key : lib.PrivateKey)
      → ((slot : Slot) → IsDurable lib laws slot old)
      → HasHeads lib laws heads old.world
      → block_in lib laws old "block_0" ≡ some genesis
      → IsReboot lib laws old s config
      → lib.hex_to_ecdsa config.private_key_hex ≡ ok key
      → ((c : ServerConfig lib Enode) (w : lib.World)
          → IsServerOf servers config key c
          → (w' : lib.World) × (servers.start_server c w ≡ (ok tt, w')))
      → (p : P2pNetwork lib Connection Channel) × (server : ServerConfig lib Enode)
        × (w : lib.World) × (s' : Blockchain lib) × (main lib servers interface s
            ≡ (ok (p, server.static_nodes), s'))
        × IsServerOf servers config key server
        × (servers.start_server server w ≡ (ok tt, s'.world))
        × (s'.p2p_network ≡ some (interface p))
        × (p.peer_rws ≡ [])
        × (p.tx_channels ≡ [])
        × (s'.config ≡ config)
        × ((slot : Slot) (k : String) → view lib laws slot s' k ≡ view lib laws slot old k)
  main-runs old s config heads genesis key durable has has_genesis reboot decodes starts =
      let (s1, inits, healthy, same_view, has', same_config, pool) =
        init-restores lib laws old s config heads genesis durable has has_genesis reboot in
      let r : Runs s s1 s1.config key =
        started s s1 key inits
          (ap (λ (c : Config). lib.hex_to_ecdsa c.private_key_hex) same_config ∙ decodes)
          (λ c is_server.
            starts c s1.world
              (subst (λ (d : Config). IsServerOf servers d key c) same_config is_server)) in
      (
        r.network,
        r.server,
        s1.world,
        record s1 { p2p_network = some (interface r.network); world = r.w },
        r.runs,
        subst (λ (d : Config). IsServerOf servers d key r.server) same_config r.is_server,
        r.is_started,
        refl,
        r.is_empty.0,
        r.is_empty.1,
        same_config,
        same_view,
      )
