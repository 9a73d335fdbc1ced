-- ===== src/Transactions/Unsigned.antt =====
-- What `ProcessTransactionsByIDs` of app/internal/blockchain/tx.go does with a transaction that a
-- peer answers a request with: it looks at neither its ID nor its signature.
use go_blockchain_demo.Prelude.{String, ◌≡◌, none, some, ok, arith, effects, lookup}
use go_blockchain_demo.Records.{Account, Transaction}
use go_blockchain_demo.Library.{Library, response, P2pNetworkInterface}
use go_blockchain_demo.Library.Laws.{Laws}
use go_blockchain_demo.State.{Blockchain, Mempool, Slot}
use go_blockchain_demo.State.View.{IsHealthy, view}
use go_blockchain_demo.Transactions.Laws.{is_transaction_exist_lem}
use go_blockchain_demo.Transactions.Lookup.{
  get_transaction_by_id, or_ask_network, ask_network, await_reply,
}
use go_blockchain_demo.Transactions.Process.{process_transaction_by_id}
use go_blockchain_demo.Transactions.Transfer.{CanSettle, Settled}
use go_blockchain_demo.Transactions.Fetch.{find_locally-absent}
use go_blockchain_demo.Transactions.Applied.{apply_transaction_by_id-Settled}

module _ (lib : Library) (laws : Laws lib) where
  -- At a healthy node that has an ID neither in its pool nor in its trie, where a peer answers the
  -- request for it with a transaction that can settle, of whatever ID and signature, a round at the
  -- ID that was asked for ends well, and the ledger makes the transfer of the answer.
  pub process_transaction_by_id-unsigned :
      (s : Blockchain lib) (tx_id bytes : String) (mp : Mempool)
      (net : P2pNetworkInterface lib.World) (tx : Transaction) (from to : Account)
      → IsHealthy lib laws s
      → lib.hex_decode tx_id ≡ ok bytes
      → view lib laws Slot.transactions s bytes ≡ none
      → s.mempool ≡ some mp
      → lookup tx_id mp.transactions ≡ none
      → s.p2p_network ≡ some net
      → (net.request_transaction tx_id s.world).0 ≡ response tx
      → CanSettle lib laws tx from to
          (record s { world = (net.request_transaction tx_id s.world).1 })
      → (s' : Blockchain lib) × (process_transaction_by_id tx_id s ≡ (ok tt, s'))
        × Settled lib laws tx from to
            (record s { world = (net.request_transaction tx_id s.world).1 })
            s'
  unfolding process_transaction_by_id get_transaction_by_id or_ask_network ask_network await_reply
      effects
  process_transaction_by_id-unsigned s tx_id bytes mp net tx from to healthy decodes missing pool
        absent there answers can =
      let asked : Blockchain lib = record s { world = (net.request_transaction tx_id s.world).1 } in
      let (s', applies, settled) =
        apply_transaction_by_id-Settled lib laws tx from to asked tx_id can in
      (
        s',
        ground (
          arith,
          decodes,
          is_transaction_exist_lem lib laws s bytes healthy,
          missing,
          find_locally-absent lib laws s tx_id bytes mp healthy pool absent decodes missing,
          there,
          answers,
          applies,
        ),
        settled,
      )
