-- ===== src/Chain/Defs.antt =====
-- The block database and the block trie of app/internal/blockchain/chain.go.
use Prim.Native.String.{◌++◌}
use go_blockchain_demo.Prelude.{
  ℕ, ◌+◌, ◌%◌, String, Option, none, some, List, [], ◌∷◌, errorf, Action, ⊤, pure, fail, lift,
  modify, gets, wrapping, ◌>>=◌, ◌>>◌, ltb, ◌==◌, not, if◌then◌else◌, uint64_mod, Decimal.decimal,
}
use go_blockchain_demo.Records.{Block, Node, empty_header}
use go_blockchain_demo.Library.{Library}
use go_blockchain_demo.State.{
  Blockchain, Slot, deref, trie_at, put_trie, call, restore_trie_from_root_hash, commit_to_database,
}

-- `fmt.Sprintf("block_%d", index)`, and its bytes
unfoldable pub block_key : ℕ → String
block_key index = "block_" ++ decimal index

abbrev pub empty_block : Block
empty_block = record { block_header = empty_header; index = 0; txns = [] }

-- `GetGenesisBlock()`, at the time that the clock shows; nothing calls it
unfoldable pub get_genesis_block : ℕ → Block
get_genesis_block now = record {
  block_header = record empty_header {
    version = 1;
    merkle_root = "0x1bc3300000000000000000000000000000000000000";
    time = now;
  };
  index = 0;
  txns = [];
}

-- The loop of `GetNodeConfigByIndex`.
unfoldable pub find_node : ℕ → List Node → Option Node
find_node index [] = none
find_node index (node ∷ nodes) = if node.index == index then some node else find_node index nodes

module _ {lib : Library} where
  -- The body of `GetLastBlock`, `RetrieveLastBlock` and `GetCurrentBlock`: read a block under a
  -- key of the database, with the texts of the two errors.
  unfoldable pub get_block_at : String → String → String → Action (Blockchain lib) Block
  get_block_at key get_text decode_text = do
    block_json ← wrapping get_text (call lib (lib.db_get key))
    wrapping decode_text (lift (lib.block_codec.unmarshal block_json))

  -- `bc.GetLastBlock()` and `bc.GetCurrentBlock()`
  unfoldable pub get_last_block : Action (Blockchain lib) Block
  unfolding get_block_at
  get_last_block = get_block_at "LAST_BLOCK" "lỗi khi lấy LAST_BLOCK" "lỗi khi giải mã LAST_BLOCK"

  -- `bc.RetrieveLastBlock()`
  unfoldable pub retrieve_last_block : Action (Blockchain lib) Block
  unfolding get_block_at
  retrieve_last_block =
      get_block_at "LAST_BLOCK" "lỗi khi lấy LAST_BLOCK" "lỗi khi giải mã LAST_BLOCK"

  unfoldable pub get_current_block : Action (Blockchain lib) Block
  unfolding get_block_at
  get_current_block =
      get_block_at "CURRENT_BLOCK" "lỗi khi lấy CURRENT_BLOCK" "lỗi khi giải mã CURRENT_BLOCK"

  -- The body of `SaveCurrentBlock` and `SaveLastBlock`.
  unfoldable pub save_block_at : String → String → Block → Action (Blockchain lib) ⊤
  save_block_at key text block = do
    block_json ← lift (lib.block_codec.marshal block)
    wrapping text (call lib (lib.db_put key block_json))

  -- `bc.SaveCurrentBlock(block)` and `bc.SaveLastBlock(block)`
  unfoldable pub save_current_block : Block → Action (Blockchain lib) ⊤
  unfolding save_block_at
  save_current_block = save_block_at "CURRENT_BLOCK" "lỗi khi lưu CURRENT_BLOCK"

  unfoldable pub save_last_block : Block → Action (Blockchain lib) ⊤
  unfolding save_block_at
  save_last_block = save_block_at "LAST_BLOCK" "lỗi khi lưu LAST_BLOCK"

  -- `bc.GetBlockFromTrie(key)`
  unfoldable pub get_block_from_trie : String → Action (Blockchain lib) Block
  get_block_from_trie key = do
    tr ← (← gets (λ s. deref (trie_at lib Slot.blocks s)))
    value ← wrapping "lỗi khi truy xuất dữ liệu" (call lib (lib.trie_get tr key))
    elim value [
      | none ↦ fail (errorf "không tìm thấy block với key: %s" key)
      | some blob ↦ wrapping "lỗi khi giải mã block" (lift (lib.block_codec.unmarshal blob))
    ]

  -- The tests of `SaveBlockToTrie`, and its writes of CURRENT_BLOCK and LAST_BLOCK. The last
  -- `else` of the source wants an index that is neither above 0 nor 0.
  unfoldable pub advance_chain : Block → Action (Blockchain lib) ⊤
  advance_chain block =
      if ltb 0 block.index
      then (do
        current_block ← wrapping "lỗi khi lấy LAST_BLOCK" get_current_block
        last_block ← wrapping "lỗi khi lấy LAST_BLOCK" get_last_block
        if not (block.index == (current_block.index + 1) % uint64_mod)
            then fail (errorf "block index không hợp lệ: %d" (decimal block.index))
            else do
              wrapping "lỗi khi lưu CURRENT_BLOCK" (save_current_block block)
              if ltb last_block.index block.index
                  then wrapping "lỗi khi lưu LAST_BLOCK" (save_last_block block)
                  else pure tt)
      else do
        wrapping "lỗi khi lưu CURRENT_BLOCK" (save_current_block block)
        wrapping "lỗi khi lưu LAST_BLOCK" (save_last_block block)

  -- The rest of `SaveBlockToTrie`: the block trie, and the root under ROOT_HASH.
  unfoldable pub store_block : Block → Action (Blockchain lib) ⊤
  store_block block = do
    block_json ← lift (lib.block_codec.marshal block)
    root ←
        commit_to_database lib Slot.blocks "lỗi khi cập nhật trie database" (block_key block.index)
          block_json
    new_trie ← wrapping "lỗi khi khôi phục trie từ root hash" (restore_trie_from_root_hash lib root)
    modify (put_trie lib Slot.blocks (some new_trie))
    wrapping "lỗi khi lưu root hash" (call lib (lib.db_put "ROOT_HASH" (lib.hash_bytes root)))

  -- `SaveBlockToTrie(block, bc)`
  unfoldable pub save_block_to_trie : Block → Action (Blockchain lib) ⊤
  unfolding advance_chain store_block
  save_block_to_trie block = advance_chain block >> store_block block

  -- `bc.GetNodeConfigByIndex(index)`
  unfoldable pub get_node_config_by_index : ℕ → Action (Blockchain lib) Node
  get_node_config_by_index index = do
    nodes ← gets (λ s. s.config.nodes)
    elim (find_node index nodes) [
      | some node ↦ pure node
      | none ↦ fail (errorf "không tìm thấy node với chỉ số: %d" (decimal index))
    ]
