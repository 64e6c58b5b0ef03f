-- ===== src/Tests.antt =====
-- Concrete inputs: the theorems at values where their hypotheses hold, and the instances of the
-- parameters that these need.
mod Samples
mod Solver
mod SharedKernelCases
mod OptimizationCases
mod SecurityCases
mod JobsCases
mod DataManagementCases
mod Masters
mod RowsCases
mod ApiCases
mod ImportsCases
