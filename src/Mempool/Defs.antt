-- ===== src/Mempool/Defs.antt =====
-- The methods of `type Mempool` in app/internal/blockchain/tx.go. Go ranges over a map in any
-- order: the order is an argument of what ranges over it.
use Prim.Native.String.{count}
use go_blockchain_demo.Prelude.{
  ℕ, String, none, some, List, [], ◌∷◌, map, Outcome, ok, err, panic, errorf, ⊤, ltb, if◌then◌else◌,
  lookup, insert, erase, length, Assoc,
}
use go_blockchain_demo.Records.{Transaction, slice_bytes}
use go_blockchain_demo.Library.{Library}
use go_blockchain_demo.State.{Mempool}

-- `NewMempool()`
unfoldable pub new_mempool : Mempool
new_mempool = record { transactions = [] }

-- `mp.AddTransaction(tx)`
unfoldable pub add_transaction : Library → Transaction → Mempool → Outcome ⊤ × Mempool
add_transaction lib tx mp =
    let tx_id = lib.hex_encode (slice_bytes tx.id) in
    elim (lookup tx_id mp.transactions) [
      | some _ ↦ (err (errorf "giao dịch đã tồn tại trong mempool: %s" tx_id), mp)
      | none ↦ (ok tt, record mp { transactions = insert tx_id tx mp.transactions })
    ]

-- `mp.GetTransaction(txID)`
unfoldable pub get_transaction : String → Mempool → Outcome Transaction
get_transaction tx_id mp = elim (lookup tx_id mp.transactions) [
  | none ↦ err (errorf "không tìm thấy giao dịch trong mempool: %s" tx_id)
  | some tx ↦ ok tx
]

-- `mp.RemoveTransaction(txID)`
unfoldable pub remove_transaction : String → Mempool → Mempool
remove_transaction tx_id mp = record mp { transactions = erase tx_id mp.transactions }

abbrev pub values : Assoc Transaction → List Transaction
values = map (λ e. e.1)

-- `mp.GetAllTransactions()`
unfoldable pub get_all_transactions :
    (List Transaction → List Transaction) → Mempool → List Transaction
get_all_transactions order mp = order (values mp.transactions)

-- `mp.GetSize()`
unfoldable pub get_size : Mempool → ℕ
get_size mp = length mp.transactions

-- `mp.PrintMempool()`: `tx.Signature[:64]` panics on a shorter signature.
unfoldable pub print_loop : List Transaction → Outcome ⊤
print_loop [] = ok tt
print_loop (tx ∷ txs) = if ltb (count tx.signature) 64 then panic else print_loop txs

unfoldable pub print_mempool : (List Transaction → List Transaction) → Mempool → Outcome ⊤
unfolding print_loop
print_mempool order mp = print_loop (order (values mp.transactions))
