-- ===== src/DataManagement/Repositories.antt =====
-- src/data_management/repositories.py over the tables of src/data_management/schema.py. The events have a
-- module of their own, and so has the cache of distances.
mod Store
mod Writes
mod Reads
pub mod Masters
pub mod Effective
unfoldable pub use Store.*
unfoldable pub use Writes.*
unfoldable pub use Reads.*
