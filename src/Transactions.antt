-- ===== src/Transactions.antt =====
-- app/internal/blockchain/tx.go: the transaction trie, the lookup of a transaction, and the two
-- loops that apply transactions to the accounts.
mod Defs
mod Lookup
mod Process
pub mod Laws
pub mod Transfer
pub mod Settle
pub mod Invariant
pub mod Fetch
pub mod Round
pub mod Creation
pub mod PoolRound
pub mod Applied
pub mod Unsigned
pub mod SelfTransfer
unfoldable pub use Defs.*
unfoldable pub use Lookup.*
unfoldable pub use Process.*
