-- ===== src/Chain.antt =====
-- app/internal/blockchain/chain.go: the blocks, their trie, the proposal of a block and the
-- handling of one that a peer sends.
mod Defs
mod Blocks
mod Startup
pub mod Proposal
pub mod Heads
pub mod Saved
pub mod Turn
pub mod Lookup
pub mod Invariant
pub mod Acceptance
pub mod Proposing
mod Reopening
pub mod Restart
pub mod Forged
unfoldable pub use Defs.*
unfoldable pub use Blocks.*
unfoldable pub use Startup.*
