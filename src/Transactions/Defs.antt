-- ===== src/Transactions/Defs.antt =====
-- The transaction trie and the mempool of a blockchain (app/internal/blockchain/tx.go).
use go_blockchain_demo.Prelude.{
  ℕ, String, Option, none, some, Bool, true, false, List, Outcome, ok, errorf, Action, ⊤, pure,
  fail, lift, modify, gets, attempt, wrapping, ◌>>=◌, ◌>>◌, if◌then◌else◌,
}
use go_blockchain_demo.Records.{Slice, slice_bytes, Transaction}
use go_blockchain_demo.Library.{Library}
use go_blockchain_demo.Mempool
use go_blockchain_demo.Signatures.{hash, sign_transaction, verify_transaction_signature}
use go_blockchain_demo.Accounts.{get_account_from_trie}
use go_blockchain_demo.State.{
  Blockchain, Mempool, Slot, deref, trie_at, put_trie, call, observe, restore_trie_from_root_hash,
  commit_to_database,
}

module _ {lib : Library} where
  -- `NewTransaction(from, to, amount, privateKeyHex)`
  unfoldable pub new_transaction :
      String → String → lib.Float → String → Action (Blockchain lib) Transaction
  new_transaction from to amount private_key_hex = do
    timestamp ← observe lib lib.now
    let tx : Transaction = record {
      id = none;
      from = from;
      to = to;
      amount = lib.float_to_uint64 amount;
      timestamp = timestamp;
      signature = "";
    }
    let tx' : Transaction = record tx { id = some (hash lib tx) }
    signature ← wrapping "lỗi khi ký transaction" (lift (sign_transaction lib tx' private_key_hex))
    pure (record tx' { signature = signature })

  -- `bc.SaveTransactionToTrie(tx)`; `trie.Update` reads a nil ID as the empty key.
  unfoldable pub save_transaction_to_trie : Transaction → Action (Blockchain lib) ⊤
  save_transaction_to_trie tx = do
    tx_json ← lift (lib.transaction_codec.marshal tx)
    root ←
        commit_to_database lib Slot.transactions "lỗi khi cập nhật transaction trie"
          (slice_bytes tx.id) tx_json
    wrapping "lỗi khi lưu transaction root hash"
        (call lib (lib.db_put "TX_ROOT_HASH" (lib.hash_bytes root)))
    new_trie ← wrapping "lỗi khi khôi phục trie từ root hash" (restore_trie_from_root_hash lib root)
    modify (put_trie lib Slot.transactions (some new_trie))

  -- What `GetTransactionFromTrie` and `IsTransactionExist` do first; `bc` itself is not nil here.
  unfoldable pub read_transaction_trie : String → Slice → Action (Blockchain lib) (Option lib.Blob)
  read_transaction_trie text tx_id = do
    trie ← gets (trie_at lib Slot.transactions)
    elim trie [
      | none ↦ fail (errorf "transaction trie is nil" "")
      | some tr ↦ elim tx_id [
        | none ↦ fail (errorf "transaction ID is nil" "")
        | some key ↦ wrapping text (call lib (lib.trie_get tr key))
      ]
    ]

  -- `bc.GetTransactionFromTrie(txID)`
  unfoldable pub get_transaction_from_trie : Slice → Action (Blockchain lib) Transaction
  unfolding read_transaction_trie
  get_transaction_from_trie tx_id = do
    value ← read_transaction_trie "lỗi khi lấy transaction" tx_id
    elim value [
      | none ↦ fail (errorf "không tìm thấy transaction với ID: %x" (slice_bytes tx_id))
      | some blob ↦
          wrapping "lỗi khi giải mã transaction" (lift (lib.transaction_codec.unmarshal blob))
    ]

  -- `bc.IsTransactionExist(txID)`
  unfoldable pub is_transaction_exist : Slice → Action (Blockchain lib) Bool
  unfolding read_transaction_trie
  is_transaction_exist tx_id = do
    value ← read_transaction_trie "lỗi khi kiểm tra transaction" tx_id
    elim value [ none ↦ pure false | some _ ↦ pure true ]

  -- `bc.Mempool.M(…)` for a method that reads, and for one that writes: a nil pool panics.
  abbrev pub with_mempool : {A : Type 0} → (Mempool → Outcome A) → Action (Blockchain lib) A
  with_mempool f = do mp ← (← gets (λ s. deref s.mempool)); lift (f mp)

  abbrev pub in_mempool : {A : Type 0} → (Mempool → Outcome A × Mempool) → Action (Blockchain lib) A
  in_mempool f = do
    mp ← (← gets (λ s. deref s.mempool))
    let (r, mp') = f mp
    modify (λ s. record s { mempool = some mp' })
    lift r

  -- `bc.Mempool.RemoveTransaction(txID)`
  unfoldable pub drop_transaction : String → Action (Blockchain lib) ⊤
  drop_transaction tx_id = in_mempool (λ mp. (ok tt, Mempool.remove_transaction tx_id mp))

  -- `bc.GetMempoolTransactions()` and `bc.GetMempoolSize()`
  unfoldable pub get_mempool_transactions :
      (List Transaction → List Transaction) → Action (Blockchain lib) (List Transaction)
  get_mempool_transactions order = with_mempool (λ mp. ok (Mempool.get_all_transactions order mp))

  unfoldable pub get_mempool_size : Action (Blockchain lib) ℕ
  get_mempool_size = with_mempool (λ mp. ok (Mempool.get_size mp))

  -- The broadcast of a new transaction: an error is only logged.
  unfoldable pub broadcast : Transaction → Action (Blockchain lib) ⊤
  broadcast tx = do
    p2p ← gets (λ s. s.p2p_network)
    elim p2p [
      | none ↦ pure tt
      | some net ↦ do r ← attempt (call lib (net.broadcast_transaction tx)); pure tt
    ]

  -- `bc.CreateAndAddTransaction(from, to, amount, privateKeyHex)`; `order` is that of the printer.
  unfoldable pub create_and_add_transaction :
      (List Transaction → List Transaction)
      → String
      → String
      → lib.Float
      → String
      → Action (Blockchain lib) Transaction
  create_and_add_transaction order from to amount private_key_hex = do
    tx ← wrapping "lỗi khi tạo transaction" (new_transaction from to amount private_key_hex)
    from_account ← wrapping "lỗi khi lấy thông tin tài khoản người gửi" (get_account_from_trie from)
    is_valid ←
        wrapping "lỗi khi xác thực chữ ký"
          (lift (verify_transaction_signature lib tx from_account.public_key))
    if is_valid
        then (do
          wrapping "lỗi khi thêm vào mempool" (in_mempool (Mempool.add_transaction lib tx))
          with_mempool (Mempool.print_mempool order)
          broadcast tx
          pure tx)
        else fail (errorf "chữ ký transaction không hợp lệ" "")
