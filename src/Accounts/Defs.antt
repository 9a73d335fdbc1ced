-- ===== src/Accounts/Defs.antt =====
-- The operations of app/internal/blockchain/account.go on accounts and on the account trie.
use go_blockchain_demo.Prelude.{
  ℕ, ◌+◌, ◌-◌, ◌%◌, String, none, some, Outcome, ok, err, panic, errorf, wrap, Action, ⊤, pure,
  fail, lift, modify, gets, wrapping, ◌>>=◌, ◌>>◌, ltb, if◌then◌else◌, uint64_mod,
}
use go_blockchain_demo.Records.{Account}
use go_blockchain_demo.Library.{Library}
use go_blockchain_demo.State.{
  Blockchain, Slot, deref, trie_at, put_trie, call, restore_trie_from_root_hash, commit_to_database,
}

-- `a.GetBalance()`
unfoldable pub get_balance : Account → ℕ
get_balance a = a.balance

-- `a.UpdateBalance(amount)`
unfoldable pub update_balance : Account → ℕ → Account
update_balance a amount = record a { balance = amount }

-- `a.IncrementNonce()`
unfoldable pub increment_nonce : Account → Account
increment_nonce a = record a { nonce = (a.nonce + 1) % uint64_mod }

-- `a.Balance -= amount` and `a.Balance += amount`, on uint64
unfoldable pub debit : Account → ℕ → Account
debit a amount = record a { balance = (a.balance + uint64_mod - amount) % uint64_mod }

unfoldable pub credit : Account → ℕ → Account
credit a amount = record a { balance = (a.balance + amount) % uint64_mod }

-- `NewAccountFromPublicKey(publicKeyHex, balance)`
unfoldable pub new_account_from_public_key : (lib : Library) → String → ℕ → Outcome Account
new_account_from_public_key lib public_key_hex balance = elim (lib.hex_decode public_key_hex) [
  | err e ↦ err (wrap "public key không hợp lệ" e)
  | panic ↦ panic
  | ok bytes ↦ elim (lib.unmarshal_pubkey bytes) [
    | err e ↦ err (wrap "lỗi chuyển đổi public key" e)
    | panic ↦ panic
    | ok public_key ↦ ok (record {
      address = lib.pubkey_to_address public_key;
      balance = balance;
      public_key = public_key_hex;
      nonce = 0;
    })
  ]
]

module _ {lib : Library} where
  -- `bc.SaveAccountToTrie(account)`
  unfoldable pub save_account_to_trie : Account → Action (Blockchain lib) ⊤
  save_account_to_trie account = do
    account_json ← lift (lib.account_codec.marshal account)
    root ←
        commit_to_database lib Slot.accounts "lỗi khi cập nhật account trie" account.address
          account_json
    wrapping "lỗi khi lưu account root hash"
        (call lib (lib.db_put "ACC_ROOT_HASH" (lib.hash_bytes root)))
    new_trie ← wrapping "lỗi khi khôi phục trie từ root hash" (restore_trie_from_root_hash lib root)
    modify (put_trie lib Slot.accounts (some new_trie))

  -- `bc.GetAccountFromTrie(address)`
  unfoldable pub get_account_from_trie : String → Action (Blockchain lib) Account
  get_account_from_trie address = do
    tr ← (← gets (λ s. deref (trie_at lib Slot.accounts s)))
    value ← wrapping "lỗi khi lấy account" (call lib (lib.trie_get tr address))
    elim value [
      | none ↦ fail (errorf "không tìm thấy account với địa chỉ: %s" address)
      | some blob ↦ wrapping "lỗi khi giải mã account" (lift (lib.account_codec.unmarshal blob))
    ]

  -- `bc.TransferBalance(from, to, amount)`, where the pointers are those of two objects. It
  -- returns the objects, which it changes.
  unfoldable pub transfer_balance :
      Account → Account → ℕ → Action (Blockchain lib) (Account × Account)
  transfer_balance from to amount =
      if ltb from.balance amount then fail (errorf "số dư không đủ" "") else do
        let from' = debit from amount
        let to' = credit to amount
        wrapping "lỗi khi cập nhật tài khoản người gửi" (save_account_to_trie from')
        wrapping "lỗi khi cập nhật tài khoản người nhận" (save_account_to_trie to')
        pure (from', to')

  -- The same where `from` and `to` point to one object.
  unfoldable pub transfer_balance_aliased : Account → ℕ → Action (Blockchain lib) Account
  transfer_balance_aliased account amount =
      if ltb account.balance amount then fail (errorf "số dư không đủ" "") else do
        let account' = credit (debit account amount) amount
        wrapping "lỗi khi cập nhật tài khoản người gửi" (save_account_to_trie account')
        wrapping "lỗi khi cập nhật tài khoản người nhận" (save_account_to_trie account')
        pure account'
