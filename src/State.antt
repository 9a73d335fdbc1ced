-- ===== src/State.antt =====
-- `type Blockchain struct` of app/internal/blockchain/chain.go, the calls of the libraries on it,
-- and the trie storage that accounts, transactions and blocks share.
-- The mutex is not modelled: each method is one step. The `*leveldb.Database` is in the `World`.
mod Defs
mod Storage
pub mod View
pub mod Chain
pub mod Laws
unfoldable pub use Defs.*
unfoldable pub use Storage.*
