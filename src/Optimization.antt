-- ===== src/Optimization.antt =====
-- src/optimization_engine: the constraint check, the integer program and the staged solve.
pub mod Validation
pub mod Model
pub mod Scaling
pub mod Builder
pub mod CpSat
pub mod Diagnoser
pub mod Service
pub mod Solved
