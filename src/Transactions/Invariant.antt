-- ===== src/Transactions/Invariant.antt =====
-- What the processing of transactions keeps on every path, errors included: the ledger is well
-- formed, the total of the balances at some addresses is as it was, and every transaction that the
-- pool or the network can give is one that moves money between two of those addresses.
use mathlib.Core.Path.{fun_ext}
use mathlib.Core.Option.{some-injective}
use go_blockchain_demo.Prelude.{
  ℕ, ◌+◌, ◌≤◌, ◌<◌, String, ◌≡◌, ◌≢◌, refl, sym, ap, subst, ◌∙◌, some, List, ok, panic, arith,
  effects, uint64_mod, erase, In, In-erase, Action, inl, inr, Option-cases, Ensures, ensure,
  Ensures-eq, Ensures-bind, Ensures-on_error,
}
use go_blockchain_demo.Records.{slice_bytes, Account, Transaction}
use go_blockchain_demo.Ledger.{IsLedger, total, Has, Distinct, transfer, balance_of}
use go_blockchain_demo.Ledger.Conservation.{
  total-transfer, transfer-IsLedger, two_balances-le-total,
}
use go_blockchain_demo.Library.{Library, response, P2pNetworkInterface}
use go_blockchain_demo.Library.Laws.{Laws}
use go_blockchain_demo.Mempool
use go_blockchain_demo.State.{Blockchain, Mempool, accounts, transactions}
use go_blockchain_demo.State.View.{IsHealthy, view}
use go_blockchain_demo.State.Chain.{SameDisk, SameChain, moved, SameDisk-refl}
use go_blockchain_demo.Accounts.{get_account_from_trie}
use go_blockchain_demo.Accounts.Laws.{account_at}
use go_blockchain_demo.Transactions.Defs.{drop_transaction, is_transaction_exist}
use go_blockchain_demo.Transactions.Laws.{is_transaction_exist_lem, is_some}
use go_blockchain_demo.Transactions.Process.{dropping}
use go_blockchain_demo.Transactions.Transfer.{CanSettle, Settled}

-- A transaction with an ID, of a positive amount, between two different listed addresses.
pub record IsProper (lib : Library) (addresses : List String) (tx_id : String) (tx : Transaction)
    : Type 0 where
  pub identified : lib.hex_encode (slice_bytes tx.id) ≡ tx_id
  pub distinct : tx.from ≢ tx.to
  pub positive : 0 < tx.amount
  pub from_listed : Has tx.from addresses
  pub to_listed : Has tx.to addresses

-- Requests of transactions leave the disk as it is, and are answered with proper transactions.
pub record IsHonest (lib : Library) (laws : Laws lib) (addresses : List String)
    (net : P2pNetworkInterface lib.World) : Type 0 where
  pub fine :
      (id : String) (w : lib.World) → laws.IsFine w → laws.IsFine (net.request_transaction id w).1
  pub same_disk :
      (id : String) (w : lib.World) → SameDisk lib laws w (net.request_transaction id w).1
  pub proper :
      (id : String) (w : lib.World) (tx : Transaction)
      → (net.request_transaction id w).0 ≡ response tx
      → IsProper lib addresses id tx

module _ (lib : Library) (laws : Laws lib) (addresses : List String) (sum : ℕ)
    (base : Blockchain lib) where
  pub record Inv (s : Blockchain lib) : Type 0 where
    pub healthy : IsHealthy lib laws s
    pub well_formed : IsLedger (account_at lib laws s)
    pub conserved : total (account_at lib laws s) addresses ≡ sum
    pub pool :
        (mp : Mempool)
        → s.mempool ≡ some mp
        → (k : String) (tx : Transaction) → In (k, tx) mp.transactions
        → IsProper lib addresses k tx
    pub network :
        (net : P2pNetworkInterface lib.World)
        → s.p2p_network ≡ some net
        → IsHonest lib laws addresses net
    -- What the processing leaves alone, since the node was `base`.
    pub chain : SameChain lib laws base s

  pub Settled-Inv :
      (tx : Transaction) (from to : Account) (s s' : Blockchain lib)
      → Distinct addresses
      → Inv s
      → Has tx.from addresses
      → Has tx.to addresses
      → CanSettle lib laws tx from to s
      → Settled lib laws tx from to s s'
      → Inv s'
  Settled-Inv tx from to s s' distinct inv hf ht can done =
      let moved : account_at lib laws s' ≡ transfer tx from to (account_at lib laws s) =
        fun_ext done.ledger in
      record {
        healthy = done.healthy;
        well_formed = subst IsLedger (sym moved) (
            transfer-IsLedger tx from to (account_at lib laws s) can.well_formed can.sender
              can.receiver can.fits);
        conserved =
            ap (λ l. total l addresses) moved
            ∙ total-transfer tx from to (account_at lib laws s) addresses distinct hf ht
                can.distinct can.sender can.receiver can.covered
            ∙ inv.conserved;
        pool = λ mp e. inv.pool mp (sym done.same_mempool ∙ e);
        network = λ net e. inv.network net (sym done.same_network ∙ e);
        chain = record {
          same_blocks = done.same_blocks ∙ inv.chain.same_blocks;
          same_names = λ k n1 n2. done.same_names k n1 n2 ∙ inv.chain.same_names k n1 n2;
          durable = λ slot d. done.durable slot (inv.chain.durable slot d);
          same_config = done.same_config ∙ inv.chain.same_config;
          same_network = done.same_network ∙ inv.chain.same_network;
        };
      }

  -- Two balances of the ledger never add up to more than the total.
  pub fits_uint64 :
      (tx : Transaction) (from to : Account) (s : Blockchain lib)
      → Inv s
      → sum < uint64_mod
      → tx.from ≢ tx.to
      → Has tx.from addresses
      → Has tx.to addresses
      → account_at lib laws s tx.from ≡ some from
      → account_at lib laws s tx.to ≡ some to
      → tx.amount ≤ from.balance
      → to.balance + tx.amount < uint64_mod
  fits_uint64 tx from to s inv bound ne hf ht ef et covered = omega (
    arith,
    two_balances-le-total tx.from tx.to (account_at lib laws s) addresses ne hf ht,
    ap balance_of ef,
    ap balance_of et,
    inv.conserved,
  )

  dropped-Inv :
      (tx_id : String) (s : Blockchain lib) (mp : Mempool)
      → s.mempool ≡ some mp
      → Inv s
      → Inv (record s { mempool = some (Mempool.remove_transaction tx_id mp) })
  unfolding Mempool.remove_transaction
  dropped-Inv tx_id s mp there inv = record {
    healthy = record { fine = inv.healthy.fine; opened = inv.healthy.opened };
    well_formed = inv.well_formed;
    conserved = inv.conserved;
    pool = λ mp' e k tx listed.
        let same : erase tx_id mp.transactions ≡ mp'.transactions =
          ap (λ (m : Mempool). m.transactions) (some-injective _ mp' e) in
        inv.pool mp there k tx
          (In-erase tx_id (k, tx) mp.transactions (subst (In (k, tx)) (sym same) listed));
    network = inv.network;
    chain =
        moved lib laws base s _ (SameDisk-refl lib laws s.world) (λ slot. refl) refl refl inv.chain;
  }

  -- Removing a transaction from the pool keeps the invariant, also where it is not in the pool.
  pub drop_transaction-Inv :
      (tx_id : String) (s : Blockchain lib)
      → Inv s
      → Ensures Inv (λ _. Inv) (drop_transaction tx_id s)
  unfolding drop_transaction effects
  drop_transaction-Inv tx_id s inv = elim (Option-cases s.mempool) [
    | inl missing ↦ Ensures-eq {q = (panic, s)} (ground (arith, missing)) (ensure inv)
    | inr (mp, there) ↦
        Ensures-eq {q = (ok tt, record s { mempool = some (Mempool.remove_transaction tx_id mp) })}
          (ground (arith, there)) (ensure (dropped-Inv tx_id s mp there inv))
  ]

  -- Reading an account leaves the node as it is.
  pub get_account_from_trie-reads :
      (s : Blockchain lib) (address : String)
      → IsHealthy lib laws s
      → Ensures
          (λ s'. s' ≡ s)
          (λ a s'. (s' ≡ s) × (account_at lib laws s address ≡ some a))
          (get_account_from_trie address s)
  unfolding get_account_from_trie effects
  get_account_from_trie-reads s address healthy =
      let (t, here, open_t) = healthy.opened accounts in
      let reads = laws.trie_get_lem t address s.world healthy.fine open_t in
      ensure (ground (arith, here, reads))

  -- Whether a transaction exists is read from the trie, and nothing changes.
  pub is_transaction_exist-reads :
      (s : Blockchain lib) (id : String)
      → IsHealthy lib laws s
      → Ensures
          (λ s'. s' ≡ s)
          (λ b s'. (s' ≡ s) × (b ≡ is_some (view lib laws transactions s id)))
          (is_transaction_exist (some id) s)
  is_transaction_exist-reads s id healthy =
      Ensures-eq (is_transaction_exist_lem lib laws s id healthy) (ensure (refl, refl))

  -- What the caller does on an error, after a step that keeps the invariant.
  module _ {A : Type 0} (tx_id text : String) where
    pub dropping-Inv :
        {Q : A → Blockchain lib → Type 0} (m : Action (Blockchain lib) A) (s : Blockchain lib)
        → Ensures Inv Q (m s)
        → Ensures Inv Q (dropping tx_id text m s)
    dropping-Inv m s h = Ensures-on_error m _ h λ e s' inv.
        Ensures-bind (drop_transaction tx_id) _ (drop_transaction-Inv tx_id s' inv)
          λ _ s'' inv''. ensure inv''
