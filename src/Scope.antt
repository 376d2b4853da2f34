-- ===== src/Scope.antt =====
-- src/secopent/domain/scope: normalized targets, and the snapshot that decides what is in scope.
mod Net
mod Normalize
mod Snapshot
mod Draft
pub use Net.*
unfoldable pub use Normalize.*
unfoldable pub use Snapshot.*
unfoldable pub use Draft.*
