-- ===== src/Validation/Laws.antt =====
-- What the schemas promise to the handlers, and what the pipe tells of a refusal.
pub mod Types
pub mod Bounds
pub mod Requests
pub mod Refusals
