-- ===== src/Optimization/Solved.antt =====
-- A solution of the integer program against the check of validation.py: the two readings of the rules
-- agree.
pub mod Counted
mod Departments
mod Qualifications
pub mod Feasible
pub mod Reported
