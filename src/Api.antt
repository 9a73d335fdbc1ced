-- ===== src/Api.antt =====
-- app/internal/api/server.go: the HTTP handlers, as actions that return the response. Writing the
-- response to the connection is not modelled.
mod Defs
pub mod Reading
unfoldable pub use Defs.*
