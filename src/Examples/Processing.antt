-- ===== src/Examples/Processing.antt =====
-- Transactions at the example node.
use go_blockchain_demo.Prelude.{
  ℕ, ◌+◌, ap, Option, String, ◌≡◌, ◌≢◌, true, refl, some, [], ◌∷◌, ok, err, panic, errorf, arith,
  Ensures, lookup, insert, if◌then◌else◌, str_eq,
}
use go_blockchain_demo.Records.{slice_bytes, Account, Transaction}
use go_blockchain_demo.Ledger.{write, received}
use go_blockchain_demo.Library.Memory.{
  memory, memory_laws, Blob, of_account, of_transaction, empty, entry,
}
use go_blockchain_demo.Mempool
use go_blockchain_demo.Mempool.Laws.{add_transaction-new}
use go_blockchain_demo.State.{Blockchain, Slot, blocks, accounts, transactions, trie_at}
use go_blockchain_demo.State.View.{Opened, Saved}
use go_blockchain_demo.Accounts.{save_account_to_trie}
use go_blockchain_demo.Accounts.Laws.{account_at, save_account_to_trie-Saved}
use go_blockchain_demo.Signatures.{
  hash, hash_data, sign_transaction, verify_transaction_signature, sign_merkle_root,
  verify_signature,
}
use go_blockchain_demo.Signatures.RoundTrip.{
  IsKeyPair, verify_transaction_signature-sign_transaction, verify_signature-sign_merkle_root,
}
use go_blockchain_demo.Transactions.{
  process_transactions_by_ids, process_mempool_transactions, create_and_add_transaction,
  process_transaction_by_id, settle_mempool_transaction, apply_transaction_by_id,
}
use go_blockchain_demo.Transactions.Creation.{draft, create_and_add_transaction-pools}
use go_blockchain_demo.Transactions.Transfer.{Settled}
use go_blockchain_demo.Transactions.Settle.{settle_mempool_transaction-Settled}
use go_blockchain_demo.Transactions.Invariant.{Inv}
use go_blockchain_demo.Transactions.Round.{process_transactions_by_ids-Inv}
use go_blockchain_demo.Transactions.PoolRound.{process_mempool_transactions-Inv}
use go_blockchain_demo.Transactions.Applied.{
  process_transaction_by_id-Settled, process_transaction_by_id-known,
  process_transaction_by_id-panics,
}
use go_blockchain_demo.Transactions.SelfTransfer.{apply_transaction_by_id-self_transfer}
use go_blockchain_demo.Examples.Node.{
  alice, bob, payment, pool, silent, start, start-IsHealthy, start-IsLedger, start-Inv,
  start-CanSettle, addresses, addresses-Distinct,
}

process_transactions_by_ids-Inv_example :
    Ensures
      (Inv memory memory_laws addresses 15 start)
      (λ _. Inv memory memory_laws addresses 15 start)
      (process_transactions_by_ids ("t1" ∷ "t2" ∷ []) start)
process_transactions_by_ids-Inv_example =
    process_transactions_by_ids-Inv memory memory_laws addresses 15 start addresses-Distinct
      (omega arith) ("t1" ∷ "t2" ∷ []) start start-Inv

process_mempool_transactions-Inv_example :
    Ensures
      (Inv memory memory_laws addresses 15 start)
      (λ _. Inv memory memory_laws addresses 15 start)
      (process_mempool_transactions (λ txs. txs) start)
process_mempool_transactions-Inv_example =
    process_mempool_transactions-Inv memory memory_laws addresses 15 start addresses-Distinct
      (omega arith) (λ txs. txs) start (λ txs tx h. h) start-Inv

process_transaction_by_id-Settled_example :
    (s' : Blockchain memory) × (process_transaction_by_id "t1" start ≡ (ok tt, s'))
    × Settled memory memory_laws payment alice bob start s'
unfolding lookup
process_transaction_by_id-Settled_example =
    process_transaction_by_id-Settled memory memory_laws payment alice bob start "t1" pool
      start-CanSettle refl refl refl

settle_mempool_transaction-Settled_example :
    (s' : Blockchain memory) × (settle_mempool_transaction payment "t1" alice bob start
      ≡ (ok ("t1" ∷ []), record s' { mempool = some (Mempool.remove_transaction "t1" pool) }))
    × Settled memory memory_laws payment alice bob start s'
settle_mempool_transaction-Settled_example =
    settle_mempool_transaction-Settled memory memory_laws payment alice bob start start-CanSettle
      "t1" pool refl

abbrev to_self : Transaction
to_self = record payment { to = "alice" }

apply_transaction_by_id-self_transfer_example :
    (s' : Blockchain memory) × (apply_transaction_by_id to_self "t1" start ≡ (ok tt, s'))
    × ((k : String)
        → account_at memory memory_laws s' k
          ≡ write "alice" (received 3 alice) (account_at memory memory_laws start) k)
apply_transaction_by_id-self_transfer_example =
    apply_transaction_by_id-self_transfer memory memory_laws to_self "t1" alice start
      start-IsHealthy start-IsLedger refl refl (omega arith) (omega arith) (omega arith) refl

-- The node after the payment is saved.
abbrev paid : Blockchain memory
paid = record start { tx_trie = some (entry "t1" (of_transaction payment) empty) }

paid-Opened : (slot : Slot) → Opened memory memory_laws (trie_at memory slot paid)
paid-Opened blocks = (_, refl, tt)
paid-Opened transactions = (_, refl, tt)
paid-Opened accounts = (_, refl, tt)

process_transaction_by_id-known_example : process_transaction_by_id "t1" paid ≡ (ok tt, paid)
process_transaction_by_id-known_example =
    process_transaction_by_id-known memory memory_laws paid "t1" "t1" (of_transaction payment)
      (record { fine = tt; opened = paid-Opened }) refl refl

process_transaction_by_id-panics_example : process_transaction_by_id "t2" start ≡ (panic, start)
unfolding lookup
process_transaction_by_id-panics_example =
    process_transaction_by_id-panics memory memory_laws start "t2" "t2" pool silent start-IsHealthy
      refl refl refl refl refl refl

abbrev richer : Account
richer = record alice { balance = 11 }

abbrev balance_in : Option Blob → ℕ
balance_in (some (of_account a)) = a.balance
balance_in _ = 0

richer-ne : some (of_account alice) ≢ some (of_account richer)
richer-ne e = omega (arith, ap balance_in e)

save_account_to_trie-Saved_example :
    (s' : Blockchain memory) × (save_account_to_trie richer start ≡ (ok tt, s'))
    × Saved memory memory_laws accounts "alice" (of_account richer) start s'
save_account_to_trie-Saved_example =
    save_account_to_trie-Saved memory memory_laws start richer (of_account richer) start-IsHealthy
      refl richer-ne

abbrev other : Transaction
other = record payment { id = some "t2" }

add_transaction-new_example :
    ((Mempool.add_transaction memory other pool).0 ≡ ok tt)
    × (Mempool.get_size (Mempool.add_transaction memory other pool).1 ≡ Mempool.get_size pool + 1)
    × ((k : String)
        → Mempool.get_transaction k (Mempool.add_transaction memory other pool).1
          ≡ (if str_eq "t2" k then ok other else Mempool.get_transaction k pool))
unfolding lookup Mempool.get_transaction
add_transaction-new_example = add_transaction-new memory other pool refl

-- In `memory` a signature is the private key, and its public key is the same text.
pair : IsKeyPair memory "pa" "pa"
pair = record { private_key = "pa"; decodes = refl; signs = λ digest. ("pa", refl, refl) }

verify_transaction_signature-sign_transaction_example :
    (signature : String) × (sign_transaction memory payment "pa" ≡ ok signature)
    × (verify_transaction_signature memory (record payment { signature = signature }) "pa"
        ≡ ok true)
verify_transaction_signature-sign_transaction_example =
    verify_transaction_signature-sign_transaction memory memory_laws "pa" "pa" pair payment

verify_signature-sign_merkle_root_example :
    (signature : String) × (sign_merkle_root memory "pa" "block_3" ≡ ok signature)
    × (verify_signature memory "pa" "block_3" signature ≡ ok true)
verify_signature-sign_merkle_root_example =
    verify_signature-sign_merkle_root memory memory_laws "pa" "pa" pair "pa" "block_3" refl refl

create_and_add_transaction-pools_example :
    (signature : String) × (verify_transaction_signature memory
        (record (draft memory memory_laws "alice" "bob" 4 start.world) { signature = signature })
        "pa"
      ≡ ok true)
    × ((create_and_add_transaction (λ txs. txs) "alice" "bob" 4 "pa" start).1.mempool
        ≡ some (record pool {
          transactions =
              insert
                (slice_bytes (draft memory memory_laws "alice" "bob" 4 start.world).id)
                (record (draft memory memory_laws "alice" "bob" 4 start.world) {
                  signature = signature;
                })
                pool.transactions;
        }))
unfolding lookup hash hash_data go_blockchain_demo.Prelude.Decimal.decimal
create_and_add_transaction-pools_example =
    create_and_add_transaction-pools memory memory_laws "pa" "pa" pair (λ txs. txs) "alice" "bob" 4
      alice start pool start-IsHealthy tt refl refl refl refl
