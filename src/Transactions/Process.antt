-- ===== src/Transactions/Process.antt =====
-- `ProcessMempoolTransactions` and `ProcessTransactionsByIDs` of app/internal/blockchain/tx.go.
-- The round of each loop is a function: `continue` is a round that ends well.
use mathlib.Core.List.{◌++◌}
use go_blockchain_demo.Prelude.{
  String, some, List, [], ◌∷◌, wrap, Action, ⊤, pure, fail, lift, on_error, wrapping, ◌>>=◌, ◌>>◌,
  ltb, if◌then◌else◌,
}
use go_blockchain_demo.Records.{Account, slice_bytes, Transaction}
use go_blockchain_demo.Library.{Library}
use go_blockchain_demo.State.{Blockchain, deref}
use go_blockchain_demo.Accounts.{
  get_account_from_trie, save_account_to_trie, debit, credit, increment_nonce,
}
use go_blockchain_demo.Transactions.Defs.{
  save_transaction_to_trie, is_transaction_exist, drop_transaction, get_mempool_transactions,
}
use go_blockchain_demo.Transactions.Lookup.{get_transaction_by_id}

module _ {lib : Library} where
  -- `if err != nil { bc.Mempool.RemoveTransaction(txID); return …, fmt.Errorf(text, err) }`
  abbrev pub dropping :
      {A : Type 0} → String → String → Action (Blockchain lib) A → Action (Blockchain lib) A
  dropping tx_id text m = on_error m (λ e. drop_transaction tx_id >> fail (wrap text e))

  -- The end of a round of `ProcessMempoolTransactions`: the accounts change, and are saved.
  unfoldable pub settle_mempool_transaction :
      Transaction → String → Account → Account → Action (Blockchain lib) (List String)
  settle_mempool_transaction tx tx_id from_acc to_acc = do
    let from_acc' = increment_nonce (debit from_acc tx.amount)
    let to_acc' = credit to_acc tx.amount
    dropping tx_id "lỗi khi cập nhật tài khoản người gửi" (save_account_to_trie from_acc')
    dropping tx_id "lỗi khi cập nhật tài khoản người nhận" (save_account_to_trie to_acc')
    dropping tx_id "lỗi khi lưu giao dịch" (save_transaction_to_trie tx)
    drop_transaction tx_id
    pure (tx_id ∷ [])

  -- A transaction that is not saved yet.
  unfoldable pub apply_mempool_transaction :
      Transaction → String → Action (Blockchain lib) (List String)
  unfolding settle_mempool_transaction
  apply_mempool_transaction tx tx_id = do
    from_acc ← dropping tx_id "lỗi khi lấy tài khoản người gửi" (get_account_from_trie tx.from)
    to_acc ← dropping tx_id "lỗi khi lấy tài khoản người nhận" (get_account_from_trie tx.to)
    if ltb from_acc.balance tx.amount
        then (do drop_transaction tx_id; pure [])
        else settle_mempool_transaction tx tx_id from_acc to_acc

  -- One round of the loop in `ProcessMempoolTransactions`: the IDs that it appends.
  unfoldable pub process_mempool_transaction : Transaction → Action (Blockchain lib) (List String)
  unfolding apply_mempool_transaction
  process_mempool_transaction tx = do
    let tx_id = lib.hex_encode (slice_bytes tx.id)
    exists ← wrapping "lỗi khi kiểm tra tồn tại của giao dịch" (is_transaction_exist tx.id)
    if exists then pure [] else apply_mempool_transaction tx tx_id

  unfoldable pub process_mempool_loop :
      List Transaction → List String → Action (Blockchain lib) (List String)
  process_mempool_loop [] successful_txs = pure successful_txs
  process_mempool_loop (tx ∷ txs) successful_txs = do
    appended ← process_mempool_transaction tx
    process_mempool_loop txs (successful_txs ++ appended)

  -- `bc.ProcessMempoolTransactions()`. The list that it returns beside an error is read by nobody.
  unfoldable pub process_mempool_transactions :
      (List Transaction → List Transaction) → Action (Blockchain lib) (List String)
  unfolding process_mempool_loop
  process_mempool_transactions order = do
    transactions ← get_mempool_transactions order
    process_mempool_loop transactions []

  -- The end of a round of `ProcessTransactionsByIDs`: the accounts change, and are saved.
  unfoldable pub settle_transaction_by_id :
      Transaction → String → Account → Account → Action (Blockchain lib) ⊤
  settle_transaction_by_id tx tx_id from_acc to_acc = do
    let from_acc' = increment_nonce (debit from_acc tx.amount)
    let to_acc' = credit to_acc tx.amount
    dropping tx_id "lỗi khi cập nhật tài khoản người gửi cho giao dịch"
        (save_account_to_trie from_acc')
    wrapping "lỗi khi cập nhật tài khoản người nhận cho giao dịch" (save_account_to_trie to_acc')
    wrapping "lỗi khi lưu giao dịch" (save_transaction_to_trie tx)

  -- A transaction that is not saved yet.
  unfoldable pub apply_transaction_by_id : Transaction → String → Action (Blockchain lib) ⊤
  unfolding settle_transaction_by_id
  apply_transaction_by_id tx tx_id = do
    from_acc ←
        dropping tx_id "lỗi khi lấy tài khoản người gửi cho giao dịch"
          (get_account_from_trie tx.from)
    to_acc ←
        dropping tx_id "lỗi khi lấy tài khoản người nhận cho giao dịch"
          (get_account_from_trie tx.to)
    if ltb from_acc.balance tx.amount
        then drop_transaction tx_id
        else settle_transaction_by_id tx tx_id from_acc to_acc

  -- One round of the loop in `ProcessTransactionsByIDs`. `tx.From` of a nil `tx` panics.
  unfoldable pub process_transaction_by_id : String → Action (Blockchain lib) ⊤
  unfolding apply_transaction_by_id
  process_transaction_by_id tx_id = do
    tx_id_bytes ← wrapping "lỗi khi decode txID" (lift (lib.hex_decode tx_id))
    exists ←
        wrapping "lỗi khi kiểm tra tồn tại của giao dịch" (is_transaction_exist (some tx_id_bytes))
    if exists then pure tt else do
      found ← dropping tx_id "lỗi khi lấy giao dịch" (get_transaction_by_id tx_id)
      tx ← deref found
      apply_transaction_by_id tx tx_id

  -- `bc.ProcessTransactionsByIDs(txIDs)`
  unfoldable pub process_transactions_by_ids : List String → Action (Blockchain lib) ⊤
  process_transactions_by_ids [] = pure tt
  process_transactions_by_ids (tx_id ∷ tx_ids) = do
    process_transaction_by_id tx_id
    process_transactions_by_ids tx_ids
