-- ===== src/Api.antt =====
-- src/api_orchestration: the gates in front of the routes, and the worker of the job queue.
pub mod Errors
pub mod Middleware
pub mod Problems
pub mod Worker
