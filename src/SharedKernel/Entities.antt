-- ===== src/SharedKernel/Entities.antt =====
-- src/shared_kernel/entities.py: the entities, and what their construction checks.
mod Records
pub mod Lifecycle
pub mod FacilityRules
pub mod DeclarationRules
unfoldable pub use Records.*
