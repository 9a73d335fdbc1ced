-- ===== src/Peer.antt =====
-- app/internal/p2pnetwork/p2pnetwork.go: the messages between peers and the peer table.
mod Table
mod Messages
mod Request
mod Server
pub mod Broadcast
pub mod Pooling
pub mod LastBlock
pub mod Cleaning
pub mod Handling
mod Pooled
pub mod Safety
pub mod Answers
unfoldable pub use Table.*
unfoldable pub use Messages.*
unfoldable pub use Request.*
unfoldable pub use Server.*
