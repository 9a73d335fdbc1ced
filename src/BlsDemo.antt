-- ===== src/BlsDemo.antt =====
-- The programs under bls-demo/, which try out the BLS signatures of dela.
mod Library
mod Ring
mod Threshold
mod Programs
pub mod Memory
pub mod RingVerify
pub mod RingFill
pub mod RingCreate
pub mod Recovery
unfoldable pub use Library.*
unfoldable pub use Ring.*
unfoldable pub use Threshold.*
unfoldable pub use Programs.*
