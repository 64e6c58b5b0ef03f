-- ===== src/Jobs.antt =====
-- src/api_orchestration: the queue of optimisation jobs and the results that a job leaves behind.
pub mod Queue
pub mod Results
