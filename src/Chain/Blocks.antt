-- ===== src/Chain/Blocks.antt =====
-- The proposal of a block, and the handling of a peer's, in app/internal/blockchain/chain.go.
use Prim.Native.String.{◌++◌}
use go_blockchain_demo.Prelude.{
  ℕ, ◌+◌, ◌-◌, ◌%◌, some, List, Bool, false, ok, err, panic, errorf, Action, ⊤, pure, panics, fail,
  lift, modify, gets, attempt, wrapping, ◌>>=◌, ◌>>◌, ltb, ◌==◌, not, str_eq, if◌then◌else◌,
  uint64_mod,
}
use go_blockchain_demo.Records.{Transaction, Block, empty_header}
use go_blockchain_demo.Library.{Library, P2pNetworkInterface}
use go_blockchain_demo.Signatures.{sign_merkle_root, verify_signature}
use go_blockchain_demo.Transactions.{process_mempool_transactions, process_transactions_by_ids}
use go_blockchain_demo.State.{Blockchain, observe}
use go_blockchain_demo.Chain.Defs.{
  block_key, empty_block, get_last_block, get_current_block, get_block_from_trie,
  save_block_to_trie, get_node_config_by_index,
}

-- `(currentBlock.Index+1-uint64(bc.Config.Index))%3 == 0`, on uint64: whether the node with an
-- index may propose the block after the one with index `current`.
unfoldable pub may_propose : ℕ → ℕ → Bool
may_propose current node_index = ((current + 1 + uint64_mod - node_index) % uint64_mod) % 3 == 0

-- `int(newBlock.Index%3) + 1`: the node whose key the signature of a block is checked with.
unfoldable pub verifier_index : ℕ → ℕ
verifier_index index = index % 3 + 1

module _ {lib : Library} where
  -- `bc.CheckProposalCondition()`: an error gives `false`.
  unfoldable pub check_proposal_condition : Action (Blockchain lib) Bool
  unfolding may_propose
  check_proposal_condition = do
    last ← attempt get_last_block
    elim last [
      | err _ ↦ pure false
      | panic ↦ panics
      | ok last_block ↦ do
        current ← attempt get_current_block
        elim current [
          | err _ ↦ pure false
          | panic ↦ panics
          | ok current_block ↦ do
            node_index ← gets (λ s. s.config.index)
            if ltb current_block.index last_block.index
                then pure false
                else pure (may_propose current_block.index node_index)
        ]
    ]

  -- `bc.ProposeNewBlock()`; `order` is that in which Go ranges over the mempool.
  unfoldable pub propose_new_block :
      (List Transaction → List Transaction) → Action (Blockchain lib) Block
  propose_new_block order = do
    current_block ← wrapping "lỗi khi lấy CURRENT_BLOCK" get_current_block
    allowed ← check_proposal_condition
    if not allowed then fail (errorf "không đủ điều kiện để đề xuất block mới" "") else do
      processed_txs ←
          wrapping "lỗi khi xử lý giao dịch từ mempool" (process_mempool_transactions order)
      private_key_hex ← gets (λ s. s.config.private_key_hex)
      let next = (current_block.index + 1) % uint64_mod
      signature ←
          wrapping "lỗi khi tạo chữ ký"
            (lift (sign_merkle_root lib private_key_hex (block_key next)))
      time ← observe lib lib.now
      let new_block : Block = record {
        block_header = record empty_header {
          version = current_block.block_header.version;
          previous_block_header = current_block.block_header.merkle_root;
          merkle_root = block_key next;
          time = time;
          signature = signature;
        };
        index = next;
        txns = processed_txs;
      }
      wrapping "lỗi khi lưu khối mới" (save_block_to_trie new_block)
      pure new_block

  -- The block under the key of `index`, or `Block{}`: `HandleNewBlock` drops the error.
  unfoldable pub existing_block : ℕ → Action (Blockchain lib) Block
  existing_block index = do
    r ← attempt (get_block_from_trie (block_key index))
    elim r [ ok block ↦ pure block | err _ ↦ pure empty_block | panic ↦ panics ]

  -- `HandleNewBlock` once the block is known to be new: of `VerifySignature` only the error is
  -- looked at.
  unfoldable pub accept_block : Block → Action (Blockchain lib) ⊤
  accept_block new_block = do
    node ← wrapping "lỗi khi lấy node" (get_node_config_by_index (verifier_index new_block.index))
    _ ← wrapping "lỗi khi kiểm tra chữ ký" (
        lift (
          verify_signature lib ("0x04" ++ node.public_key) (block_key new_block.index)
            new_block.block_header.signature))
    wrapping "lỗi khi xử lý giao dịch từ block" (process_transactions_by_ids new_block.txns)
    wrapping "lỗi khi lưu block mới vào trie" (save_block_to_trie new_block)

  -- `bc.HandleNewBlock(newBlock)`
  unfoldable pub handle_new_block : Block → Action (Blockchain lib) ⊤
  unfolding existing_block accept_block
  handle_new_block new_block = if new_block.index == 0 then pure tt else do
    existing ← existing_block new_block.index
    if not (str_eq existing.block_header.signature "")
        then fail (errorf "Block đã tồn tại" existing.block_header.signature)
        else accept_block new_block

  -- `bc.SetP2PNetwork(p2p)`
  unfoldable pub set_p2p_network : P2pNetworkInterface lib.World → Action (Blockchain lib) ⊤
  set_p2p_network p2p = modify (λ s. record s { p2p_network = some p2p })
