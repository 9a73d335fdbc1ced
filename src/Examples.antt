-- ===== src/Examples.antt =====
-- The theorems of the development, run at a small node over the libraries in memory.
mod Node
pub mod Processing
pub mod Blocks
pub mod Peers
pub mod Nodes
pub mod Bls
pub mod Restarts
pub use Node.*
