-- ===== src/State/Chain.antt =====
-- What the processing of transactions leaves alone in a node: the block trie, the names of the
-- database but the roots of the two other tries, and what was durable.
use go_blockchain_demo.Prelude.{String, ◌≡◌, ◌≢◌, refl, sym, ap, ◌∙◌, Option}
use go_blockchain_demo.Library.{Library}
use go_blockchain_demo.Library.Laws.{Laws}
use go_blockchain_demo.State.Defs.{Blockchain, Slot, blocks, transactions, accounts, trie_at}
use go_blockchain_demo.State.View.{IsDurable, root_name, contents_of}

module _ (lib : Library) (laws : Laws lib) where
  -- LevelDB holds the same under the names of the node, and no trie nodes are gone.
  pub record SameDisk (w w' : lib.World) : Type 0 where
    pub same : (k : String) → laws.stored w' k ≡ laws.stored w k
    pub kept :
        (h : lib.Hash) (c : String → Option lib.Blob) → laws.Persisted w h c → laws.Persisted w' h c

  pub record SameChain (s s' : Blockchain lib) : Type 0 where
    pub same_blocks : trie_at lib blocks s' ≡ trie_at lib blocks s
    pub same_names :
        (k : String)
        → k ≢ root_name accounts
        → k ≢ root_name transactions
        → laws.stored s'.world k ≡ laws.stored s.world k
    pub durable : (slot : Slot) → IsDurable lib laws slot s → IsDurable lib laws slot s'
    pub same_config : s'.config ≡ s.config
    pub same_network : s'.p2p_network ≡ s.p2p_network

  pub SameChain-refl : (s : Blockchain lib) → SameChain s s
  SameChain-refl s = record {
    same_blocks = refl;
    same_names = λ k n1 n2. refl;
    durable = λ slot d. d;
    same_config = refl;
    same_network = refl;
  }

  -- Durability is about one name of the disk, its nodes, and the trie.
  pub IsDurable-kept :
      (slot : Slot) (s s' : Blockchain lib)
      → laws.stored s'.world (root_name slot) ≡ laws.stored s.world (root_name slot)
      → ((h : lib.Hash) (c : String → Option lib.Blob)
          → laws.Persisted s.world h c
          → laws.Persisted s'.world h c)
      → trie_at lib slot s' ≡ trie_at lib slot s
      → IsDurable lib laws slot s
      → IsDurable lib laws slot s'
  IsDurable-kept slot s s' same kept same_trie (root, c, named, on_disk, reads) = (
    root,
    c,
    same ∙ named,
    kept root c on_disk,
    λ k. reads k ∙ ap (λ t. contents_of lib laws t k) (sym same_trie),
  )

  -- A step that only changes the pool, or the world outside the disk.
  pub moved :
      (base s s' : Blockchain lib)
      → SameDisk s.world s'.world
      → ((slot : Slot) → trie_at lib slot s' ≡ trie_at lib slot s)
      → s'.config ≡ s.config
      → s'.p2p_network ≡ s.p2p_network
      → SameChain base s
      → SameChain base s'
  moved base s s' disk tries config network chain = record {
    same_blocks = tries blocks ∙ chain.same_blocks;
    same_names = λ k n1 n2. disk.same k ∙ chain.same_names k n1 n2;
    durable = λ slot d.
        IsDurable-kept slot s s' (disk.same (root_name slot)) disk.kept (tries slot)
          (chain.durable slot d);
    same_config = config ∙ chain.same_config;
    same_network = network ∙ chain.same_network;
  }

  pub SameDisk-refl : (w : lib.World) → SameDisk w w
  SameDisk-refl w = record { same = λ k. refl; kept = λ h c p. p }
