-- ===== src/Transactions/Applied.antt =====
-- One round of `ProcessTransactionsByIDs` of app/internal/blockchain/tx.go, from the ID of a
-- transaction to what it does: for a transaction of the pool, for a saved one, and for one that
-- nobody has.
use go_blockchain_demo.Prelude.{String, ◌≡◌, subst, none, some, ok, panic, arith, effects, lookup}
use go_blockchain_demo.Records.{slice_bytes, Account, Transaction}
use go_blockchain_demo.Library.{Library, failed, P2pNetworkInterface}
use go_blockchain_demo.Library.Laws.{Laws}
use go_blockchain_demo.State.{Blockchain, Mempool, Slot}
use go_blockchain_demo.State.View.{IsHealthy, view}
use go_blockchain_demo.Accounts.Laws.{get_account_from_trie-found}
use go_blockchain_demo.Transactions.Laws.{is_transaction_exist_lem}
use go_blockchain_demo.Transactions.Lookup.{
  await_reply, ask_network, or_ask_network, get_transaction_by_id,
}
use go_blockchain_demo.Transactions.Process.{apply_transaction_by_id, process_transaction_by_id}
use go_blockchain_demo.Transactions.Transfer.{CanSettle, Settled}
use go_blockchain_demo.Transactions.Settle.{settle_transaction_by_id-Settled}
use go_blockchain_demo.Transactions.Fetch.{find_locally-pooled, find_locally-absent}

module _ (lib : Library) (laws : Laws lib) where
  -- A transaction that can settle is applied: the accounts are read, and the transfer is made.
  pub apply_transaction_by_id-Settled :
      (tx : Transaction) (from to : Account) (s : Blockchain lib) (tx_id : String)
      → CanSettle lib laws tx from to s
      → (s' : Blockchain lib) × (apply_transaction_by_id tx tx_id s ≡ (ok tt, s'))
        × Settled lib laws tx from to s s'
  unfolding apply_transaction_by_id effects
  apply_transaction_by_id-Settled tx from to s tx_id can =
      let (s', settles, settled) =
        settle_transaction_by_id-Settled lib laws tx from to s can tx_id in
      (
        s',
        ground (
          arith,
          get_account_from_trie-found lib laws s tx.from from can.healthy can.sender,
          get_account_from_trie-found lib laws s tx.to to can.healthy can.receiver,
          can.covered,
          settles,
        ),
        settled,
      )

  -- For a transaction that can settle (a healthy node with a well-formed ledger, two different
  -- accounts, a positive amount that the sender's balance covers and the receiver's has room for, an
  -- ID that is not saved) and that is in the pool under the text of its ID, a round of
  -- `ProcessTransactionsByIDs` at that text ends well: the ledger makes the transfer, the trie has the
  -- transaction, what was durable is durable, and the pool and the block trie are the same.
  pub process_transaction_by_id-Settled :
      (tx : Transaction) (from to : Account) (s : Blockchain lib) (tx_id : String) (mp : Mempool)
      → CanSettle lib laws tx from to s
      → s.mempool ≡ some mp
      → lookup tx_id mp.transactions ≡ some tx
      → lib.hex_encode (slice_bytes tx.id) ≡ tx_id
      → (s' : Blockchain lib) × (process_transaction_by_id tx_id s ≡ (ok tt, s'))
        × Settled lib laws tx from to s s'
  unfolding process_transaction_by_id get_transaction_by_id or_ask_network effects
  process_transaction_by_id-Settled tx from to s tx_id mp can pool found identified =
      let (s', applies, settled) = apply_transaction_by_id-Settled tx from to s tx_id can in
      (
        s',
        ground (
          arith,
          subst (λ t. lib.hex_decode t ≡ ok (slice_bytes tx.id)) identified
              (laws.hex_decode-encode (slice_bytes tx.id)),
          is_transaction_exist_lem lib laws s (slice_bytes tx.id) can.healthy,
          can.is_new,
          find_locally-pooled lib laws s tx_id mp tx pool found,
          applies,
        ),
        settled,
      )

  -- At a healthy node whose trie holds a value under an ID, a round at the text of that ID ends
  -- well and changes nothing.
  pub process_transaction_by_id-known :
      (s : Blockchain lib) (tx_id bytes : String) (value : lib.Blob)
      → IsHealthy lib laws s
      → lib.hex_decode tx_id ≡ ok bytes
      → view lib laws Slot.transactions s bytes ≡ some value
      → process_transaction_by_id tx_id s ≡ (ok tt, s)
  unfolding process_transaction_by_id effects
  process_transaction_by_id-known s tx_id bytes value healthy decodes known =
      ground (arith, decodes, is_transaction_exist_lem lib laws s bytes healthy, known)

  -- At a healthy node that has an ID neither in its pool nor in its trie, where the request to the
  -- network comes back with an error, a round at that ID panics.
  pub process_transaction_by_id-panics :
      (s : Blockchain lib) (tx_id bytes : String) (mp : Mempool)
      (net : P2pNetworkInterface lib.World)
      → IsHealthy lib laws s
      → lib.hex_decode tx_id ≡ ok bytes
      → view lib laws Slot.transactions s bytes ≡ none
      → s.mempool ≡ some mp
      → lookup tx_id mp.transactions ≡ none
      → s.p2p_network ≡ some net
      → (net.request_transaction tx_id s.world).0 ≡ failed
      → process_transaction_by_id tx_id s
        ≡ (panic, record s { world = (net.request_transaction tx_id s.world).1 })
  unfolding process_transaction_by_id get_transaction_by_id or_ask_network ask_network await_reply
      effects
  process_transaction_by_id-panics s tx_id bytes mp net healthy decodes missing pool absent there
        fails =
      ground (
        arith,
        decodes,
        is_transaction_exist_lem lib laws s bytes healthy,
        missing,
        find_locally-absent lib laws s tx_id bytes mp healthy pool absent decodes missing,
        there,
        fails,
      )
