-- ===== src/SharedKernel/Enums.antt =====
-- src/shared_kernel/enums.py: the enumerations, their Japanese labels and the event transitions.
mod Members
mod Labels
unfoldable pub use Members.*
unfoldable pub use Labels.*
