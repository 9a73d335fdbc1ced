-- ===== src/Transactions/Settle.antt =====
-- The end of a round of `ProcessTransactionsByIDs` and of `ProcessMempoolTransactions`, of
-- app/internal/blockchain/tx.go, beside the transfer of the ledger.
use go_blockchain_demo.Prelude.{
  String, ◌≡◌, sym, ap, ◌∙◌, none, some, [], ◌∷◌, ok, arith, effects, str_eq, if◌then◌else◌,
}
use go_blockchain_demo.Records.{slice_bytes, Account, Transaction}
use go_blockchain_demo.Ledger.Conservation.{write_ne}
use go_blockchain_demo.Library.{Library}
use go_blockchain_demo.Library.Laws.{Laws}
use go_blockchain_demo.Ledger.{write, sent, received, transfer}
use go_blockchain_demo.Mempool
use go_blockchain_demo.State.{Blockchain, Mempool, Slot, blocks, transactions, accounts, trie_at}
use go_blockchain_demo.State.View.{IsHealthy, Saved, decode, contents_of}
use go_blockchain_demo.Accounts.{save_account_to_trie}
use go_blockchain_demo.Accounts.Laws.{
  account_at, save_account_to_trie-Saved, account_at-Saved, value_differs,
}
use go_blockchain_demo.Transactions.Defs.{drop_transaction}
use go_blockchain_demo.Transactions.Process.{settle_transaction_by_id, settle_mempool_transaction}
use go_blockchain_demo.Transactions.Laws.{save_transaction_to_trie-Saved}
use go_blockchain_demo.Transactions.Transfer.{
  increment_nonce-debit, credit_lem, sent-ne, received-ne, Settled, CanSettle, keeps-IsDurable,
  decode_write, Saves,
}

module _ (lib : Library) (laws : Laws lib) where
  module _ (tx : Transaction) (from to : Account) (s : Blockchain lib)
      (can : CanSettle lib laws tx from to s) where
    from_key : from.address ≡ tx.from
    from_key = can.well_formed.keyed tx.from from can.sender

    to_key : to.address ≡ tx.to
    to_key = can.well_formed.keyed tx.to to can.receiver

    abbrev from' : Account
    from' = sent tx.amount from

    abbrev to' : Account
    to' = received tx.amount to

    save_sender :
        (s1 : Blockchain lib) × (value : lib.Blob) × (save_account_to_trie from' s ≡ (ok tt, s1))
        × Saved lib laws Slot.accounts from.address value s s1
        × ((k : String) → account_at lib laws s1 k ≡ write tx.from from' (account_at lib laws s) k)
    save_sender =
        let (v, encodes, decodes) = laws.account_codec_lem from' in
        let (s1, runs, saved) = save_account_to_trie-Saved lib laws s from' v can.healthy encodes (
          value_differs lib laws s from from' from.address v
            (ap (account_at lib laws s) from_key ∙ can.sender) decodes
            (sent-ne tx.amount from (can.well_formed.nonces tx.from from can.sender))) in
        (
          s1,
          v,
          runs,
          saved,
          λ k.
              account_at-Saved lib laws s s1 from' v k saved decodes
              ∙ ap (λ a. write a from' (account_at lib laws s) k) from_key,
        )

    save_receiver :
        (s1 : Blockchain lib)
        → IsHealthy lib laws s1
        → ((k : String) → account_at lib laws s1 k ≡ write tx.from from' (account_at lib laws s) k)
        → (s2 : Blockchain lib) × (value : lib.Blob) × (save_account_to_trie to' s1 ≡ (ok tt, s2))
          × Saved lib laws Slot.accounts to.address value s1 s2
          × ((k : String)
              → account_at lib laws s2 k ≡ transfer tx from to (account_at lib laws s) k)
    save_receiver s1 healthy ledger1 =
        let (v, encodes, decodes) = laws.account_codec_lem to' in
        let still_there : account_at lib laws s1 to.address ≡ some to =
          ap (account_at lib laws s1) to_key
          ∙ ledger1 tx.to
          ∙ write_ne tx.from tx.to from' (account_at lib laws s) can.distinct
          ∙ can.receiver in
        let (s2, runs, saved) = save_account_to_trie-Saved lib laws s1 to' v healthy encodes (
          value_differs lib laws s1 to to' to.address v still_there decodes
            (received-ne tx.amount to can.positive)) in
        (
          s2,
          v,
          runs,
          saved,
          λ k.
              account_at-Saved lib laws s1 s2 to' v k saved decodes
              ∙ ap (λ a. write a to' (account_at lib laws s1) k) to_key
              ∙ ap (λ o. if str_eq tx.to k then some to' else o) (ledger1 k),
        )

    -- All three saves go through, and together they are the transfer.
    pub settle-Saves : Saves lib laws tx from to s
    settle-Saves =
        let (s1, v1, runs1, saved1, ledger1) = save_sender in
        let (s2, v2, runs2, saved2, ledger2) = save_receiver s1 saved1.healthy ledger1 in
        let (v3, encodes3, decodes3) = laws.transaction_codec_lem tx in
        let same_tx : trie_at lib transactions s2 ≡ trie_at lib transactions s =
          saved2.other_tries transactions (λ e. cc) ∙ saved1.other_tries transactions (λ e. cc) in
        let (s3, runs3, saved3) =
          save_transaction_to_trie-Saved lib laws s2 tx v3 saved2.healthy encodes3 (λ q.
            let e : none ≡ some v3 =
              sym can.is_new
              ∙ sym (ap (λ o. contents_of lib laws o (slice_bytes tx.id)) same_tx)
              ∙ q in
            cc) in
        record {
          first = s1;
          second = s2;
          third = s3;
          saves_sender =
              rw
                (increment_nonce-debit from tx.amount can.covered
                  (can.well_formed.balances tx.from from can.sender))
                runs1;
          saves_receiver = rw (credit_lem to tx.amount can.fits) runs2;
          saves_transaction = runs3;
          settled = record {
            healthy = saved3.healthy;
            ledger = λ k.
                ap (λ o. decode lib.account_codec (contents_of lib laws o k))
                  (saved3.other_tries accounts (λ e. cc))
                ∙ ledger2 k;
            saved = λ k.
                decode_write lib laws (slice_bytes tx.id) k v3 tx s2 s3 (saved3.writes k) decodes3
                ∙ ap
                    (λ o.
                      if str_eq (slice_bytes tx.id) k
                      then some tx
                      else decode lib.transaction_codec (contents_of lib laws o k))
                    same_tx;
            same_blocks =
                saved3.other_tries blocks (λ e. cc)
                ∙ saved2.other_tries blocks (λ e. cc)
                ∙ saved1.other_tries blocks (λ e. cc);
            same_names = λ k n1 n2.
                saved3.other_names k n2 ∙ saved2.other_names k n1 ∙ saved1.other_names k n1;
            durable = λ slot d.
                keeps-IsDurable lib laws transactions (slice_bytes tx.id) v3 s2 s3 saved3 slot (
                  keeps-IsDurable lib laws accounts to.address v2 s1 s2 saved2 slot
                    (keeps-IsDurable lib laws accounts from.address v1 s s1 saved1 slot d));
            same_config = saved3.same_config ∙ saved2.same_config ∙ saved1.same_config;
            same_mempool = saved3.same_mempool ∙ saved2.same_mempool ∙ saved1.same_mempool;
            same_network = saved3.same_network ∙ saved2.same_network ∙ saved1.same_network;
          };
        }

    -- A round of `ProcessTransactionsByIDs` that gets to its saves makes the transfer.
    pub settle_transaction_by_id-Settled :
        (tx_id : String)
        → (s' : Blockchain lib) × (settle_transaction_by_id tx tx_id from to s ≡ (ok tt, s'))
          × Settled lib laws tx from to s s'
    unfolding settle_transaction_by_id effects
    settle_transaction_by_id-Settled tx_id =
        let saves = settle-Saves in
        (
          saves.third,
          ground (arith, saves.saves_sender, saves.saves_receiver, saves.saves_transaction),
          saves.settled,
        )

    -- For a transaction that can settle (a healthy node with a well-formed ledger, two different
    -- accounts, a positive amount that the sender's balance covers and the receiver's has room for,
    -- an ID that is not saved) and a node with a pool, the end of a round of
    -- `ProcessMempoolTransactions` makes the transfer, saves the transaction, and takes it out of
    -- the pool.
    pub settle_mempool_transaction-Settled :
        (tx_id : String) (mp : Mempool)
        → s.mempool ≡ some mp
        → (s' : Blockchain lib) × (settle_mempool_transaction tx tx_id from to s
            ≡ (ok (tx_id ∷ []), record s' { mempool = some (Mempool.remove_transaction tx_id mp) }))
          × Settled lib laws tx from to s s'
    unfolding settle_mempool_transaction drop_transaction effects
    settle_mempool_transaction-Settled tx_id mp pool =
        let saves = settle-Saves in
        (
          saves.third,
          ground (
            arith,
            saves.saves_sender,
            saves.saves_receiver,
            saves.saves_transaction,
            saves.settled.same_mempool ∙ pool,
          ),
          saves.settled,
        )
