-- ===== src/Accounts.antt =====
-- app/internal/blockchain/account.go: the accounts and their trie.
mod Defs
mod Startup
pub mod Laws
unfoldable pub use Defs.*
unfoldable pub use Startup.*
