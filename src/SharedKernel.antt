-- ===== src/SharedKernel.antt =====
-- src/shared_kernel: the domain types that every unit builds on, and their construction rules.
pub mod Exceptions
pub mod Enums
pub mod Entities
pub mod Availability
pub mod Values
pub mod CostModel
pub mod Problem
