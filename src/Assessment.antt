-- ===== src/Assessment.antt =====
-- src/secopent/domain/assessments: statuses, the transition table, plans and approvals.
mod Status
mod Plan
mod Model
pub mod Acyclic
pub mod Search
pub mod Accepts
unfoldable pub use Status.*
unfoldable pub use Plan.*
unfoldable pub use Model.*
