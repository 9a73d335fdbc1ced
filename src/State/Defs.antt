-- ===== src/State/Defs.antt =====
-- The state of a blockchain node, and how a method reads it and calls the libraries.
use go_blockchain_demo.Prelude.{Option, none, some, Outcome, ok, Action, pure, panics, Assoc}
use go_blockchain_demo.Records.{Transaction, Config}
use go_blockchain_demo.Library.{Library, P2pNetworkInterface}

-- `type Mempool struct`: the map from the hex ID of a transaction to the transaction.
pub record Mempool : Type 0 where
  pub transactions : Assoc Transaction

-- A pointer or an interface value that may be nil is an `Option`.
pub record Blockchain (lib : Library) : Type 0 where
  pub world : lib.World
  pub tr : Option lib.Trie
  pub tx_trie : Option lib.Trie
  pub acc_trie : Option lib.Trie
  pub config : Config
  pub mempool : Option Mempool
  pub p2p_network : Option (P2pNetworkInterface lib.World)

-- Which of the three tries a method works on.
pub data Slot : Type 0 where
  blocks transactions accounts : Slot

-- A use of a nil pointer panics.
abbrev pub deref : {S A : Type 0} → Option A → Action S A
deref none = panics
deref (some a) = pure a

-- The first value at the slot, the second at any other.
abbrev pub at_blocks : {A : Type 0} → Slot → A → A → A
at_blocks blocks a b = a
at_blocks _ a b = b

abbrev pub at_transactions : {A : Type 0} → Slot → A → A → A
at_transactions transactions a b = a
at_transactions _ a b = b

abbrev pub at_accounts : {A : Type 0} → Slot → A → A → A
at_accounts accounts a b = a
at_accounts _ a b = b

abbrev pub select : {A : Type 0} → Slot → A → A → A → A
select blocks a b c = a
select transactions a b c = b
select accounts a b c = c

module _ (lib : Library) where
  abbrev pub trie_at : Slot → Blockchain lib → Option lib.Trie
  trie_at slot s = select slot s.tr s.tx_trie s.acc_trie

  -- Write the pointer of a slot.
  abbrev pub put_trie : Slot → Option lib.Trie → Blockchain lib → Blockchain lib
  put_trie slot t s = record s {
    tr = at_blocks slot t s.tr;
    tx_trie = at_transactions slot t s.tx_trie;
    acc_trie = at_accounts slot t s.acc_trie;
  }

  -- A call of a library that can fail.
  abbrev pub call : {A : Type 0} → (lib.World → Outcome A × lib.World) → Action (Blockchain lib) A
  call f s = let (r, w) = f s.world in (r, record s { world = w })

  -- A call of a library that cannot.
  abbrev pub observe : {A : Type 0} → (lib.World → A × lib.World) → Action (Blockchain lib) A
  observe f s = let (a, w) = f s.world in (ok a, record s { world = w })
