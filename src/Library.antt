-- ===== src/Library.antt =====
-- The libraries that the blockchain package calls: `Defs` is their interface, `Laws` what the
-- package relies on, and `Memory` an implementation in memory at which the laws hold.
mod Defs
pub mod Laws
pub mod Memory
unfoldable pub use Defs.*
