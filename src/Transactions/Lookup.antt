-- ===== src/Transactions/Lookup.antt =====
-- `GetTransactionByID` and `GetTransactionByIDFromNode` of app/internal/blockchain/tx.go.
use go_blockchain_demo.Prelude.{
  String, Option, none, some, ok, err, panic, errorf, Action, pure, panics, fail, lift, gets,
  attempt, wrapping, ◌>>=◌,
}
use go_blockchain_demo.Records.{Transaction}
use go_blockchain_demo.Library.{Library, Reply, response, failed, timeout}
use go_blockchain_demo.Mempool
use go_blockchain_demo.State.{Blockchain, observe}
use go_blockchain_demo.Transactions.Defs.{with_mempool, get_transaction_from_trie}

module _ {lib : Library} where
  -- What both do first: the pool, then the trie. `none` is a transaction found in neither.
  unfoldable pub find_locally : String → Action (Blockchain lib) (Option Transaction)
  find_locally tx_id = do
    pooled ← attempt (with_mempool (Mempool.get_transaction tx_id))
    elim pooled [
      | ok tx ↦ pure (some tx)
      | panic ↦ panics
      | err _ ↦ do
        tx_id_bytes ← wrapping "ID giao dịch không hợp lệ" (lift (lib.hex_decode tx_id))
        saved ← attempt (get_transaction_from_trie (some tx_id_bytes))
        elim saved [ ok tx ↦ pure (some tx) | panic ↦ panics | err _ ↦ pure none ]
    ]

  -- The wait for the P2P network. The error of a request is logged, and `nil, nil` is returned.
  unfoldable pub await_reply : Reply → Action (Blockchain lib) (Option Transaction)
  await_reply (response tx) = pure (some tx)
  await_reply failed = pure none
  await_reply timeout = fail (errorf "timeout khi chờ phản hồi từ P2P network" "")

  -- The request to the P2P network, for a transaction that is not found locally.
  unfoldable pub ask_network : String → Action (Blockchain lib) (Option Transaction)
  unfolding await_reply
  ask_network tx_id = do
    p2p ← gets (λ s. s.p2p_network)
    elim p2p [
      | none ↦ fail (errorf "không tìm thấy giao dịch với ID: %s" tx_id)
      | some net ↦ do reply ← observe lib (net.request_transaction tx_id); await_reply reply
    ]

  unfoldable pub or_ask_network :
      String → Option Transaction → Action (Blockchain lib) (Option Transaction)
  unfolding ask_network
  or_ask_network tx_id (some tx) = pure (some tx)
  or_ask_network tx_id none = ask_network tx_id

  -- `bc.GetTransactionByID(txID)`; `none` is the nil pointer.
  unfoldable pub get_transaction_by_id : String → Action (Blockchain lib) (Option Transaction)
  get_transaction_by_id tx_id = do found ← find_locally tx_id; or_ask_network tx_id found

  -- `bc.GetTransactionByIDFromNode(txID)`
  unfoldable pub get_transaction_by_id_from_node : String → Action (Blockchain lib) Transaction
  unfolding find_locally
  get_transaction_by_id_from_node tx_id = do
    found ← find_locally tx_id
    elim found [
      | some tx ↦ pure tx
      | none ↦ fail (errorf "không tìm thấy giao dịch với ID: %s" tx_id)
    ]
