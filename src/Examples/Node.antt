-- ===== src/Examples/Node.antt =====
-- A node with two accounts, one pooled transaction between them, and the heads at block 2.
use mathlib.Core.Option.{some-injective}
use go_blockchain_demo.Prelude.{
  subst, ◌∙◌, ℕ, String, ◌≡◌, ◌⊎◌, inl, inr, refl, sym, ap, some, List, [], ◌∷◌, ok, arith, eq_iff,
  ne_by_test, lookup, In,
}
use go_blockchain_demo.Records.{Account, Transaction, Block, Node, empty_header}
use go_blockchain_demo.Ledger.{IsLedger, Distinct}
use go_blockchain_demo.Library.{failed, P2pNetworkInterface}
use go_blockchain_demo.Library.Memory.{
  memory, memory_laws, of_account, of_block, of_root, Entries, empty, entry, World,
}
use go_blockchain_demo.State.{Blockchain, Mempool, Slot, blocks, transactions, accounts, trie_at}
use go_blockchain_demo.State.View.{IsDurable, IsHealthy, Opened}
use go_blockchain_demo.State.Chain.{SameDisk-refl, SameChain-refl}
use go_blockchain_demo.Accounts.Laws.{account_at}
use go_blockchain_demo.Chain.Heads.{Heads, HasHeads}
use go_blockchain_demo.Chain.Invariant.{NodeAt}
use go_blockchain_demo.Transactions.Transfer.{CanSettle}
use go_blockchain_demo.Transactions.Invariant.{IsProper, IsHonest, Inv}

abbrev pub alice : Account
alice = record { address = "alice"; balance = 10; public_key = "pa"; nonce = 0 }

abbrev pub bob : Account
bob = record { address = "bob"; balance = 5; public_key = "pb"; nonce = 0 }

-- The signature of `memory` is the key.
abbrev pub payment : Transaction
payment = record {
  id = some "t1";
  from = "alice";
  to = "bob";
  amount = 3;
  timestamp = 0;
  signature = "pa";
}

abbrev pub block_of : ℕ → List String → Block
block_of index txns = record { block_header = empty_header; index = index; txns = txns }

abbrev pub pool : Mempool
pool = record { transactions = ("t1", payment) ∷ [] }

abbrev pub node_of : ℕ → Node
node_of index = record { public_key = "k"; url = ""; index = index; api_url = "" }

-- A network that never finds a transaction.
abbrev pub silent : P2pNetworkInterface World
silent = record {
  broadcast_transaction = λ tx w. (ok tt, w);
  request_transaction = λ id w. (failed, w);
}

abbrev ledger : Entries
ledger = entry "alice" (of_account alice) (entry "bob" (of_account bob) empty)

abbrev pub start : Blockchain memory
start = record {
  world =
      ("CURRENT_BLOCK", of_block (block_of 2 []))
      ∷ ("LAST_BLOCK", of_block (block_of 2 []))
      ∷ ("ROOT_HASH", of_root empty)
      ∷ ("TX_ROOT_HASH", of_root empty)
      ∷ ("ACC_ROOT_HASH", of_root ledger)
      ∷ [];
  tr = some empty;
  tx_trie = some empty;
  acc_trie = some ledger;
  config = record {
    nodes = node_of 1 ∷ node_of 2 ∷ node_of 3 ∷ [];
    private_key_hex = "k";
    index = 3;
  };
  mempool = some pool;
  p2p_network = some silent;
}

opened : (slot : Slot) → Opened memory memory_laws (trie_at memory slot start)
opened blocks = (_, refl, tt)
opened transactions = (_, refl, tt)
opened accounts = (_, refl, tt)

pub start-IsHealthy : IsHealthy memory memory_laws start
start-IsHealthy = record { fine = tt; opened = opened }

accounts_of_start :
    (k : String) (a : Account)
    → account_at memory memory_laws start k ≡ some a
    → (("alice" ≡ k) × (alice ≡ a)) ⊎ (("bob" ≡ k) × (bob ≡ a))
accounts_of_start k a e = ground (arith, e, eq_iff "alice" k, eq_iff "bob" k)

pub start-IsLedger : IsLedger (account_at memory memory_laws start)
start-IsLedger = record {
  keyed = λ k a e. elim (accounts_of_start k a e) [
    | inl (at_k, is_a) ↦ ap (λ b. b.address) (sym is_a) ∙ at_k
    | inr (at_k, is_a) ↦ ap (λ b. b.address) (sym is_a) ∙ at_k
  ];
  balances = λ k a e. elim (accounts_of_start k a e) [
    | inl (at_k, is_a) ↦ rw (← is_a) (omega arith)
    | inr (at_k, is_a) ↦ rw (← is_a) (omega arith)
  ];
  nonces = λ k a e. elim (accounts_of_start k a e) [
    | inl (at_k, is_a) ↦ rw (← is_a) (omega arith)
    | inr (at_k, is_a) ↦ rw (← is_a) (omega arith)
  ];
}

abbrev pub addresses : List String
addresses = "alice" ∷ "bob" ∷ []

pub addresses-Distinct : Distinct addresses
addresses-Distinct =
    (λ h. elim h [ inl e ↦ ne_by_test "bob" "alice" refl e | inr n ↦ n ], (λ h. h, tt))

pub payment-IsProper : IsProper memory addresses "t1" payment
payment-IsProper = record {
  identified = refl;
  distinct = ne_by_test _ _ refl;
  positive = omega arith;
  from_listed = inl refl;
  to_listed = inr (inl refl);
}

entries_of_pool :
    (mp : Mempool)
    → start.mempool ≡ some mp
    → (k : String) (tx : Transaction) → In (k, tx) mp.transactions
    → ("t1" ≡ k) × (payment ≡ tx)
entries_of_pool mp here k tx listed =
    let same : pool.transactions ≡ mp.transactions =
      ap (λ (m : Mempool). m.transactions) (some-injective pool mp here) in
    elim (subst (In (k, tx)) (sym same) listed) [
      | inl e ↦ (ap (λ p. p.0) e, ap (λ p. p.1) e)
      | inr none_left ↦ absurd none_left
    ]

pub silent-IsHonest : IsHonest memory memory_laws addresses silent
silent-IsHonest = record {
  fine = λ id w f. tt;
  same_disk = λ id w. SameDisk-refl memory memory_laws w;
  proper = λ id w tx e. cc;
}

pub start-Inv : Inv memory memory_laws addresses 15 start start
start-Inv = record {
  healthy = start-IsHealthy;
  well_formed = start-IsLedger;
  conserved = refl;
  pool = λ mp here k tx found.
      let (at_k, is_tx) = entries_of_pool mp here k tx found in
      subst (λ z. IsProper memory addresses z tx) at_k
        (subst (IsProper memory addresses "t1") is_tx payment-IsProper);
  network = λ net e.
      subst (IsHonest memory memory_laws addresses) (some-injective silent net e) silent-IsHonest;
  chain = SameChain-refl memory memory_laws start;
}

pub start-CanSettle : CanSettle memory memory_laws payment alice bob start
start-CanSettle = record {
  healthy = start-IsHealthy;
  well_formed = start-IsLedger;
  sender = refl;
  receiver = refl;
  distinct = ne_by_test _ _ refl;
  positive = omega arith;
  covered = omega arith;
  fits = omega arith;
  is_new = refl;
}

abbrev pub heads : Heads
heads = record { current = block_of 2 []; last = block_of 2 [] }

pub start-HasHeads : HasHeads memory memory_laws heads start.world
unfolding lookup
start-HasHeads = record { has_current = refl; has_last = refl }

start-IsDurable : (slot : Slot) → IsDurable memory memory_laws slot start
unfolding lookup
start-IsDurable blocks = (_, _, refl, λ k. refl, λ k. refl)
start-IsDurable transactions = (_, _, refl, λ k. refl, λ k. refl)
start-IsDurable accounts = (_, _, refl, λ k. refl, λ k. refl)

pub start-NodeAt : NodeAt memory memory_laws addresses 15 heads start
start-NodeAt = record {
  inv = start-Inv;
  has_heads = start-HasHeads;
  ordered = omega arith;
  in_range = omega arith;
  above = λ index higher. refl;
  durable = start-IsDurable;
}
