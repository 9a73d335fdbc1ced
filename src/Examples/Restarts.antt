-- ===== src/Examples/Restarts.antt =====
-- A node in memory that ran before, and the process that starts on its disk.
use go_blockchain_demo.Prelude.{String, ◌≡◌, refl, subst, none, some, [], ◌∷◌, ok, inl, inr, lookup}
use go_blockchain_demo.Records.{Account}
use go_blockchain_demo.Ledger.{Has}
use go_blockchain_demo.Mempool
use go_blockchain_demo.Library.{P2pNetworkInterface}
use go_blockchain_demo.Library.Memory.{
  memory, memory_laws, of_account, of_block, of_config, of_root, Entries, empty, entry, World,
}
use go_blockchain_demo.State.{Blockchain, Slot, blocks, transactions, accounts}
use go_blockchain_demo.State.View.{IsDurable, IsHealthy, view}
use go_blockchain_demo.State.Chain.{SameDisk-refl}
use go_blockchain_demo.Accounts.{pub_key_1, pub_key_2, pub_key_3, new_account_from_public_key}
use go_blockchain_demo.Accounts.Laws.{account_at}
use go_blockchain_demo.Chain.{init}
use go_blockchain_demo.Chain.Heads.{HasHeads}
use go_blockchain_demo.Chain.Restart.{IsReboot, init-restores}
use go_blockchain_demo.Peer.{P2pNetwork, Servers, ServerConfig}
use go_blockchain_demo.Main.{main}
use go_blockchain_demo.Main.Running.{IsServerOf, main-runs}
use go_blockchain_demo.Examples.Node.{silent, start, block_of, heads}

abbrev account_of : String → Account
account_of key = record { address = key; balance = 1000; public_key = key; nonce = 0 }

abbrev ledger : Entries
ledger = entry pub_key_1 (of_account (account_of pub_key_1)) (
    entry pub_key_2 (of_account (account_of pub_key_2))
      (entry pub_key_3 (of_account (account_of pub_key_3)) empty))

abbrev chain : Entries
chain = entry "block_0" (of_block (block_of 0 [])) empty

abbrev disk : World
disk =
    ("CURRENT_BLOCK", of_block (block_of 2 []))
    ∷ ("LAST_BLOCK", of_block (block_of 2 []))
    ∷ ("ROOT_HASH", of_root chain)
    ∷ ("TX_ROOT_HASH", of_root empty)
    ∷ ("ACC_ROOT_HASH", of_root ledger)
    ∷ ("config.json", of_config start.config)
    ∷ []

abbrev used : Blockchain memory
used = record start { world = disk; tr = some chain; acc_trie = some ledger }

abbrev fresh : Blockchain memory
fresh = record {
  world = disk;
  tr = none;
  tx_trie = none;
  acc_trie = none;
  config = record { nodes = []; private_key_hex = ""; index = 0 };
  mempool = none;
  p2p_network = none;
}

used-IsDurable : (slot : Slot) → IsDurable memory memory_laws slot used
unfolding lookup
used-IsDurable blocks = (_, _, refl, λ k. refl, λ k. refl)
used-IsDurable transactions = (_, _, refl, λ k. refl, λ k. refl)
used-IsDurable accounts = (_, _, refl, λ k. refl, λ k. refl)

used-HasHeads : HasHeads memory memory_laws heads disk
unfolding lookup
used-HasHeads = record { has_current = refl; has_last = refl }

abbrev Known : String → Type 0
Known key =
    (made : Account) × (kept : Account) × (new_account_from_public_key memory key 1000 ≡ ok made)
    × (account_at memory memory_laws used made.address ≡ some kept)

known : (key : String) → Has key (pub_key_1 ∷ pub_key_2 ∷ pub_key_3 ∷ []) → Known key
unfolding new_account_from_public_key
known key listed = elim listed [
  | inl e ↦ subst Known e (account_of pub_key_1, account_of pub_key_1, refl, refl)
  | inr (inl e) ↦ subst Known e (account_of pub_key_2, account_of pub_key_2, refl, refl)
  | inr (inr (inl e)) ↦ subst Known e (account_of pub_key_3, account_of pub_key_3, refl, refl)
  | inr (inr (inr nothing)) ↦ absurd nothing
]

fresh-IsReboot : IsReboot memory memory_laws used fresh start.config
unfolding lookup
fresh-IsReboot = record {
  dir = "";
  file = of_config start.config;
  in_dir = disk;
  booted = disk;
  has_dir = refl;
  opens = refl;
  fine = tt;
  disk = SameDisk-refl memory memory_laws disk;
  reads_file = refl;
  decodes = refl;
  known = known;
}

init-restores_example :
    (s' : Blockchain memory) × (init fresh ≡ (ok tt, s'))
    × IsHealthy memory memory_laws s'
    × ((slot : Slot) (k : String)
        → view memory memory_laws slot s' k ≡ view memory memory_laws slot used k)
    × HasHeads memory memory_laws heads s'.world
    × (s'.config ≡ start.config)
    × (s'.mempool ≡ some Mempool.new_mempool)
init-restores_example =
    init-restores memory memory_laws used fresh start.config heads (block_of 0 []) used-IsDurable
      used-HasHeads refl fresh-IsReboot

-- A server that always starts, and parses every URL to itself.
abbrev servers : Servers memory String
servers = record {
  parse_v4 = λ url. some url;
  start_server = λ c w. (ok tt, w);
  stop_server = λ c w. w;
  add_peer = λ node w. w;
  peers = λ w. [];
}

abbrev interface : P2pNetwork memory String String → P2pNetworkInterface World
interface p = silent

main-runs_example :
    (p : P2pNetwork memory String String) × (server : ServerConfig memory String) × (w : World)
    × (s' : Blockchain memory) × (main memory servers interface fresh
        ≡ (ok (p, server.static_nodes), s'))
    × IsServerOf servers start.config "k" server
    × (servers.start_server server w ≡ (ok tt, s'.world))
    × (s'.p2p_network ≡ some silent)
    × (p.peer_rws ≡ [])
    × (p.tx_channels ≡ [])
    × (s'.config ≡ start.config)
    × ((slot : Slot) (k : String)
        → view memory memory_laws slot s' k ≡ view memory memory_laws slot used k)
main-runs_example =
    main-runs memory memory_laws servers interface used fresh start.config heads (block_of 0 []) "k"
      used-IsDurable used-HasHeads refl fresh-IsReboot refl (λ c w is_server. (w, refl))
