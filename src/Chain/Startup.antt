-- ===== src/Chain/Startup.antt =====
-- `Init` of app/internal/blockchain/chain.go.
use go_blockchain_demo.Prelude.{
  ℕ, String, none, some, [], Outcome, ok, err, panic, not_found, Action, ⊤, pure, panics, fail,
  lift, modify, attempt, on_error, Error, Bool, true, false, if◌then◌else◌, wrapping, ◌>>=◌, ◌>>◌,
}
use go_blockchain_demo.Records.{Block, empty_header}
use go_blockchain_demo.Library.{Library}
use go_blockchain_demo.Mempool
use go_blockchain_demo.State.{
  Blockchain, Slot, put_trie, call, observe, restore_trie_from_root_hash,
}
use go_blockchain_demo.Accounts.{initialize_test_accounts}
use go_blockchain_demo.Chain.Defs.{
  block_key, get_last_block, get_current_block, get_block_from_trie, save_block_to_trie,
}

-- The block that `Init` makes.
unfoldable pub genesis_block : ℕ → Block
genesis_block now = record {
  block_header = record empty_header { version = 1; merkle_root = block_key 0; time = now };
  index = 0;
  txns = [];
}

-- What `bc.db.Get` of a root hash tells `Init`: the hash, that there is none, or another error.
pub data Root (Blob : Type 0) : Type 0 where
  found : Blob → Root Blob
  missing : Root Blob
  broken : Error → Root Blob

unfoldable pub root_of : {Blob : Type 0} → Outcome Blob → Root Blob
root_of (ok blob) = found blob
root_of (err not_found) = missing
root_of (err e) = broken e
root_of panic = missing

module _ {lib : Library} where
  -- `CreateNewTrie(db)`
  unfoldable pub create_new_trie : Action (Blockchain lib) lib.Trie
  create_new_trie = call lib (lib.trie_new lib.empty_hash)

  -- `bc.tr, err = m`: an error leaves nil in the field.
  abbrev pub assign_trie : Slot → Action (Blockchain lib) lib.Trie → Action (Blockchain lib) ⊤
  assign_trie slot m = on_error m (λ e. modify (put_trie lib slot none) >> fail e) >>= λ tr.
      modify (put_trie lib slot (some tr))

  unfoldable pub read_root : String → Action (Blockchain lib) (Root lib.Blob)
  unfolding root_of
  read_root key = do r ← attempt (call lib (lib.db_get key)); pure (root_of r)

  -- The block trie, and the genesis block where the database is new. `false` stands for the
  -- places where `Init` prints an error and returns nil.
  unfoldable pub init_blocks : Action (Blockchain lib) Bool
  unfolding read_root
  init_blocks = do
    root ← read_root "ROOT_HASH"
    elim root [
      | broken _ ↦ pure false
      | missing ↦ do
        r ← attempt (do
          assign_trie Slot.blocks create_new_trie
          time ← observe lib lib.now
          save_block_to_trie (genesis_block time))
        elim r [ ok _ ↦ pure true | err _ ↦ pure false | panic ↦ panics ]
      | found hash ↦ do
        r ←
            attempt
              (assign_trie Slot.blocks (restore_trie_from_root_hash lib (lib.bytes_to_hash hash)))
        elim r [ ok _ ↦ pure true | err _ ↦ pure false | panic ↦ panics ]
    ]

  unfoldable pub init_transactions : Action (Blockchain lib) ⊤
  unfolding read_root
  init_transactions = do
    root ← read_root "TX_ROOT_HASH"
    elim root [
      | missing ↦
          wrapping "lỗi khi tạo transaction trie" (assign_trie Slot.transactions create_new_trie)
      | broken e ↦ fail e
      | found hash ↦
          wrapping "lỗi khi khôi phục account trie" (
            assign_trie Slot.transactions
              (restore_trie_from_root_hash lib (lib.bytes_to_hash hash)))
    ]

  -- Another error than ErrNotFound is not looked at: the bytes are nil then, for the zero hash.
  unfoldable pub init_accounts : Action (Blockchain lib) ⊤
  unfolding read_root
  init_accounts = do
    root ← read_root "ACC_ROOT_HASH"
    elim root [
      | missing ↦ wrapping "lỗi khi tạo account trie" (assign_trie Slot.accounts create_new_trie)
      | broken e ↦
          wrapping "lỗi khi khôi phục account trie"
            (assign_trie Slot.accounts (restore_trie_from_root_hash lib lib.empty_hash))
      | found hash ↦
          wrapping "lỗi khi khôi phục account trie"
            (assign_trie Slot.accounts (restore_trie_from_root_hash lib (lib.bytes_to_hash hash)))
    ]

  -- What `Init` reads only to print it.
  unfoldable pub print_blocks : Action (Blockchain lib) ⊤
  print_blocks = do
    _ ← attempt (get_block_from_trie "block_0")
    _ ← attempt get_last_block
    _ ← attempt get_current_block
    pure tt

  unfoldable pub init_config : Action (Blockchain lib) ⊤
  init_config = do
    config_file ← wrapping "không thể đọc file cấu hình" (call lib (lib.read_file "config.json"))
    config ←
        wrapping "không thể phân tích file cấu hình" (lift (lib.config_codec.unmarshal config_file))
    modify (λ s. record s { config = config })

  -- `bc.Init()`
  unfoldable pub init : Action (Blockchain lib) ⊤
  unfolding init_blocks init_transactions init_accounts print_blocks init_config
  init = do
    current_dir ← wrapping "lỗi khi lấy thư mục hiện tại" (call lib lib.getwd)
    wrapping "lỗi khi tạo LevelDB"
        (call lib (lib.open_leveldb (lib.filepath_join current_dir "leveldb_data")))
    going ← init_blocks
    if going
        then (do
          init_transactions
          init_accounts
          print_blocks
          init_config
          wrapping "lỗi khởi tạo test accounts" initialize_test_accounts
          modify (λ s. record s { mempool = some Mempool.new_mempool }))
        else pure tt
