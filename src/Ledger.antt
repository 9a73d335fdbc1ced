-- ===== src/Ledger.antt =====
-- The accounts of a node as an abstract ledger, the specification of a transfer on it, and the
-- total of the balances.
mod Defs
pub mod Conservation
unfoldable pub use Defs.*
