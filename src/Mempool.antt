-- ===== src/Mempool.antt =====
-- `type Mempool` of app/internal/blockchain/tx.go. A method locks the pool for its whole body, so
-- each is one function.
mod Defs
pub mod Laws
unfoldable pub use Defs.*
