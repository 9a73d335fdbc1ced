-- ===== src/Mempool/Laws.antt =====
-- The mempool of app/internal/blockchain/tx.go as a map from IDs to transactions.
use go_blockchain_demo.Prelude.{
  ◌+◌, String, ◌≡◌, refl, none, [], ◌∷◌, ok, err, errorf, arith, str_eq, if◌then◌else◌, Assoc,
  lookup, insert, length, lookup-insert,
}
use go_blockchain_demo.Records.{Transaction, slice_bytes}
use go_blockchain_demo.Library.{Library}
use go_blockchain_demo.State.{Mempool}
use go_blockchain_demo.Mempool.Defs.{add_transaction, get_transaction, get_size}

length-insert_absent :
    {V : Type 0} (k : String) (v : V) (m : Assoc V)
    → lookup k m ≡ none
    → length (insert k v m) ≡ length m + 1
unfolding lookup insert
length-insert_absent k v [] absent = refl
length-insert_absent k v ((j, w) ∷ m) absent = ground (arith, length-insert_absent k v m)

module _ (lib : Library) (tx : Transaction) (mp : Mempool) where
  abbrev tx_id : String
  tx_id = lib.hex_encode (slice_bytes tx.id)

  -- Where the pool has no transaction with the ID, adding one gives no error, the pool has one
  -- transaction more, and a lookup finds the new one under its ID and what was there elsewhere.
  pub add_transaction-new :
      get_transaction tx_id mp ≡ err (errorf "không tìm thấy giao dịch trong mempool: %s" tx_id)
      → ((add_transaction lib tx mp).0 ≡ ok tt)
        × (get_size (add_transaction lib tx mp).1 ≡ get_size mp + 1)
        × ((k : String)
            → get_transaction k (add_transaction lib tx mp).1
              ≡ (if str_eq tx_id k then ok tx else get_transaction k mp))
  unfolding add_transaction get_transaction get_size
  add_transaction-new absent =
      let nothing : lookup tx_id mp.transactions ≡ none = ground (arith, absent) in
      (
        ground (arith, nothing),
        ground (arith, nothing, length-insert_absent tx_id tx mp.transactions nothing),
        λ k. ground (arith, nothing, lookup-insert tx_id k tx mp.transactions),
      )
