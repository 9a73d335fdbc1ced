-- ===== src/Accounts/Startup.antt =====
-- `InitializeTestAccounts` of app/internal/blockchain/account.go.
use go_blockchain_demo.Prelude.{
  String, ok, err, panic, Action, ⊤, pure, panics, lift, attempt, wrapping, ◌>>=◌, ◌>>◌,
}
use go_blockchain_demo.Library.{Library}
use go_blockchain_demo.State.{Blockchain}
use go_blockchain_demo.Accounts.Defs.{
  new_account_from_public_key, save_account_to_trie, get_account_from_trie,
}

abbrev pub pub_key_1 : String
pub_key_1 =
    "0x048f1273da4d7c042caa74c4fe50443831875128a8ff7817c40f1211cdf6e65e63e5ce5139da1983946cb15a054d951559523d7121ae9d0314f5e187cc757b36e2"

abbrev pub pub_key_2 : String
pub_key_2 =
    "0x04127bae1dc0022eabf3fc16447d501fa45906d5127d116de654b6e93b0606ee9430552b8f458d905459396d581b9201b7745edf1d2f47a84aed5e063cc196942b"

abbrev pub pub_key_3 : String
pub_key_3 =
    "0x04d53415bd1e6941e971c2eb1f9a4e964dd8cb043a5865f023f004915aef78d462d61072e9448ea334070cc26460c471a6c6ca9bc82461c02ddea5ca2bf7c170f6"

module _ {lib : Library} where
  -- One of the three parts of `InitializeTestAccounts`: make the account, and save it unless one
  -- with its address can be read. The texts are those of the two errors.
  unfoldable pub ensure_account : String → String → String → Action (Blockchain lib) ⊤
  ensure_account create_text save_text key = do
    account ← wrapping create_text (lift (new_account_from_public_key lib key 1000))
    existing ← attempt (get_account_from_trie account.address)
    elim existing [
      | ok _ ↦ pure tt
      | err _ ↦ wrapping save_text (save_account_to_trie account)
      | panic ↦ panics
    ]

  -- `bc.InitializeTestAccounts()`
  unfoldable pub initialize_test_accounts : Action (Blockchain lib) ⊤
  initialize_test_accounts = do
    ensure_account "lỗi khởi tạo account 1" "lỗi lưu account 1" pub_key_1
    ensure_account "lỗi khởi tạo account 2" "lỗi lưu account 2" pub_key_2
    ensure_account "lỗi khởi tạo account 3" "lỗi lưu account 3" pub_key_3
