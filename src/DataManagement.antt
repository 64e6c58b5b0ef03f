-- ===== src/DataManagement.antt =====
-- src/data_management: the rows of the database, the queries over them and the services.
pub mod Rows
pub mod Names
pub mod Mappers
pub mod Repositories
pub mod Availability
pub mod Distances
pub mod Events
pub mod Imports
