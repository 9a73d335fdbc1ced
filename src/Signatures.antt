-- ===== src/Signatures.antt =====
-- The identity and the signatures of app/internal/blockchain.
mod Defs
pub mod RoundTrip
unfoldable pub use Defs.*
