-- ===== src/Transactions/Transfer.antt =====
-- What a settled transfer is, at the accounts and the transactions that a node of
-- app/internal/blockchain/tx.go keeps, and what it needs.
use go_blockchain_demo.Prelude.{
  ℕ, ◌+◌, ◌≤◌, ◌<◌, String, ◌≡◌, ◌≢◌, ap, Option, none, some, ok, arith, str_eq, if◌then◌else◌,
  uint64_mod,
}
use go_blockchain_demo.Records.{slice_bytes, Account, Transaction}
use go_blockchain_demo.Library.{Library}
use go_blockchain_demo.Library.Laws.{Laws}
use go_blockchain_demo.Ledger.{IsLedger, sent, received, transfer}
use go_blockchain_demo.State.{Blockchain, Slot, blocks, transactions, accounts, trie_at}
use go_blockchain_demo.State.View.{
  IsHealthy, IsDurable, Saved, view, decode, root_name, Slot-discrete,
}
use go_blockchain_demo.Accounts.{save_account_to_trie, debit, credit, increment_nonce}
use go_blockchain_demo.Accounts.Laws.{account_at}
use go_blockchain_demo.Transactions.Defs.{save_transaction_to_trie}

-- The uint64 arithmetic of the code is that of the ledger, where nothing wraps.
pub increment_nonce-debit :
    (a : Account) (amount : ℕ)
    → amount ≤ a.balance
    → a.balance < uint64_mod
    → increment_nonce (debit a amount) ≡ sent amount a
unfolding increment_nonce debit
increment_nonce-debit a amount covered fits = ground arith

pub credit_lem :
    (a : Account) (amount : ℕ)
    → a.balance + amount < uint64_mod
    → credit a amount ≡ received amount a
unfolding credit
credit_lem a amount fits = ground arith

pub sent-ne : (amount : ℕ) (a : Account) → a.nonce < uint64_mod → a ≢ sent amount a
sent-ne amount a fits e = omega (arith, ap (λ (b : Account). b.nonce) e)

pub received-ne : (amount : ℕ) (a : Account) → 0 < amount → a ≢ received amount a
received-ne amount a pos e = omega (arith, ap (λ (b : Account). b.balance) e)

module _ (lib : Library) (laws : Laws lib) where
  -- The transaction that the trie holds under an ID.
  abbrev pub transaction_at : Blockchain lib → String → Option Transaction
  transaction_at s id = decode lib.transaction_codec (view lib laws Slot.transactions s id)

  -- A node after the transfer of `tx`, with `tx` in the transaction trie.
  pub record Settled (tx : Transaction) (from to : Account) (s s' : Blockchain lib) : Type 0 where
    pub healthy : IsHealthy lib laws s'
    pub ledger :
        (k : String) → account_at lib laws s' k ≡ transfer tx from to (account_at lib laws s) k
    pub saved :
        (k : String)
        → transaction_at s' k
          ≡ (if str_eq (slice_bytes tx.id) k then some tx else transaction_at s k)
    pub same_blocks : trie_at lib blocks s' ≡ trie_at lib blocks s
    pub same_names :
        (k : String)
        → k ≢ root_name accounts
        → k ≢ root_name transactions
        → laws.stored s'.world k ≡ laws.stored s.world k
    pub durable : (slot : Slot) → IsDurable lib laws slot s → IsDurable lib laws slot s'
    pub same_config : s'.config ≡ s.config
    pub same_mempool : s'.mempool ≡ s.mempool
    pub same_network : s'.p2p_network ≡ s.p2p_network

  -- What the two saves of accounts and the save of the transaction need to settle a transfer.
  pub record CanSettle (tx : Transaction) (from to : Account) (s : Blockchain lib) : Type 0 where
    pub healthy : IsHealthy lib laws s
    pub well_formed : IsLedger (account_at lib laws s)
    pub sender : account_at lib laws s tx.from ≡ some from
    pub receiver : account_at lib laws s tx.to ≡ some to
    pub distinct : tx.from ≢ tx.to
    pub positive : 0 < tx.amount
    pub covered : tx.amount ≤ from.balance
    pub fits : to.balance + tx.amount < uint64_mod
    pub is_new : view lib laws Slot.transactions s (slice_bytes tx.id) ≡ none

  pub keeps-IsDurable :
      (slot : Slot) (key : String) (value : lib.Blob) (s s' : Blockchain lib)
      → Saved lib laws slot key value s s'
      → (other : Slot) → IsDurable lib laws other s
      → IsDurable lib laws other s'
  keeps-IsDurable slot key value s s' saved other d = elim (Slot-discrete other slot) [
    | yes e ↦ rw e saved.durable
    | no ne ↦ saved.others_durable other ne d
  ]

  pub decode_write :
      (key k : String) (value : lib.Blob) (tx : Transaction) (s s' : Blockchain lib)
      → view lib laws transactions s' k
        ≡ (if str_eq key k then some value else view lib laws transactions s k)
      → lib.transaction_codec.unmarshal value ≡ ok tx
      → transaction_at s' k ≡ (if str_eq key k then some tx else transaction_at s k)
  decode_write key k value tx s s' writes decodes = rw writes (ground (arith, decodes))

  -- The three saves of a settlement, one after the other.
  pub record Saves (tx : Transaction) (from to : Account) (s : Blockchain lib) : Type 0 where
    pub first : Blockchain lib
    pub second : Blockchain lib
    pub third : Blockchain lib
    pub saves_sender :
        save_account_to_trie (increment_nonce (debit from tx.amount)) s ≡ (ok tt, first)
    pub saves_receiver : save_account_to_trie (credit to tx.amount) first ≡ (ok tt, second)
    pub saves_transaction : save_transaction_to_trie tx second ≡ (ok tt, third)
    pub settled : Settled tx from to s third
