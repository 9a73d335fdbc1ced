-- ===== src/Transactions/SelfTransfer.antt =====
-- A transaction from an address to the same address, in `ProcessTransactionsByIDs` of
-- app/internal/blockchain/tx.go: the account is read twice, changed as two accounts, and the one
-- that receives is saved last.
use go_blockchain_demo.Prelude.{
  ℕ, ◌+◌, ◌≤◌, ◌<◌, String, ◌≡◌, ◌≢◌, sym, ap, ◌∙◌, Option, none, some, ok, arith, effects, str_eq,
  if◌then◌else◌, uint64_mod, eq_refl,
}
use go_blockchain_demo.Records.{slice_bytes, Account, Transaction}
use go_blockchain_demo.Ledger.{IsLedger, write, sent, received}
use go_blockchain_demo.Library.{Library}
use go_blockchain_demo.Library.Laws.{Laws}
use go_blockchain_demo.State.{Blockchain, Slot, accounts, transactions, trie_at}
use go_blockchain_demo.State.View.{IsHealthy, view, contents_of, decode}
use go_blockchain_demo.Accounts.Laws.{
  account_at, save_account_to_trie-Saved, account_at-Saved, value_differs,
  get_account_from_trie-found,
}
use go_blockchain_demo.Transactions.Laws.{save_transaction_to_trie-Saved}
use go_blockchain_demo.Transactions.Process.{settle_transaction_by_id, apply_transaction_by_id}
use go_blockchain_demo.Transactions.Transfer.{sent-ne, increment_nonce-debit, credit_lem}

sent-received-ne : (amount : ℕ) (a : Account) → 0 < amount → sent amount a ≢ received amount a
sent-received-ne amount a pos e = omega (arith, ap (λ (b : Account). b.balance) e)

write_self :
    (k : String) (a : Account) (ledger : String → Option Account) → write k a ledger k ≡ some a
write_self k a ledger = ground (arith, eq_refl k)

write_twice :
    (k j : String) (a b : Account) (ledger : String → Option Account)
    → write k b (write k a ledger) j ≡ write k b ledger j
write_twice k j a b ledger = ground arith

module _ (lib : Library) (laws : Laws lib) where
  -- From a healthy node with a well-formed ledger, a new transaction of a positive amount from an
  -- account to itself that the balance covers, where the balance and the amount together are a uint64,
  -- is applied, and leaves the account with the amount added to its balance and its old nonce: the debit
  -- is lost.
  pub apply_transaction_by_id-self_transfer :
      (tx : Transaction) (tx_id : String) (account : Account) (s : Blockchain lib)
      → IsHealthy lib laws s
      → IsLedger (account_at lib laws s)
      → tx.to ≡ tx.from
      → account_at lib laws s tx.from ≡ some account
      → 0 < tx.amount
      → tx.amount ≤ account.balance
      → account.balance + tx.amount < uint64_mod
      → view lib laws Slot.transactions s (slice_bytes tx.id) ≡ none
      → (s' : Blockchain lib) × (apply_transaction_by_id tx tx_id s ≡ (ok tt, s'))
        × ((k : String)
            → account_at lib laws s' k
              ≡ write tx.from (received tx.amount account) (account_at lib laws s) k)
  unfolding apply_transaction_by_id settle_transaction_by_id effects
  apply_transaction_by_id-self_transfer tx tx_id account s healthy formed self there pos covered
        fits is_new =
      let first = sent tx.amount account in
      let second = received tx.amount account in
      let key : account.address ≡ tx.from = formed.keyed tx.from account there in
      let (v1, encodes1, decodes1) = laws.account_codec_lem first in
      let (v2, encodes2, decodes2) = laws.account_codec_lem second in
      let (v3, encodes3, decodes3) = laws.transaction_codec_lem tx in
      let (s1, runs1, saved1) = save_account_to_trie-Saved lib laws s first v1 healthy encodes1 (
        value_differs lib laws s account first account.address v1
          (ap (account_at lib laws s) key ∙ there) decodes1
          (sent-ne tx.amount account (formed.nonces tx.from account there))) in
      let ledger1 = λ (k : String). account_at-Saved lib laws s s1 first v1 k saved1 decodes1 in
      let (s2, runs2, saved2) =
        save_account_to_trie-Saved lib laws s1 second v2 saved1.healthy encodes2 (
          value_differs lib laws s1 first second account.address v2
            (ledger1 account.address ∙ write_self account.address first (account_at lib laws s))
            decodes2 (sent-received-ne tx.amount account pos)) in
      let ledger2 = λ (k : String). account_at-Saved lib laws s1 s2 second v2 k saved2 decodes2 in
      let same_tx : trie_at lib transactions s2 ≡ trie_at lib transactions s =
        saved2.other_tries transactions (λ e. cc) ∙ saved1.other_tries transactions (λ e. cc) in
      let (s3, runs3, saved3) =
        save_transaction_to_trie-Saved lib laws s2 tx v3 saved2.healthy encodes3 (λ q.
          let e : none ≡ some v3 =
            sym is_new ∙ sym (ap (λ o. contents_of lib laws o (slice_bytes tx.id)) same_tx) ∙ q in
          cc) in
      (
        s3,
        ground (
          arith,
          get_account_from_trie-found lib laws s tx.from account healthy there,
          get_account_from_trie-found lib laws s tx.to account healthy
              (ap (account_at lib laws s) self ∙ there),
          covered,
          increment_nonce-debit account tx.amount covered (formed.balances tx.from account there),
          credit_lem account tx.amount fits,
          runs1,
          runs2,
          runs3,
        ),
        λ k.
            ap (λ o. decode lib.account_codec (contents_of lib laws o k))
              (saved3.other_tries accounts (λ e. cc))
            ∙ ledger2 k
            ∙ ap (λ o. if str_eq account.address k then some second else o) (ledger1 k)
            ∙ write_twice account.address k first second (account_at lib laws s)
            ∙ ap (λ a. write a second (account_at lib laws s) k) key,
      )
