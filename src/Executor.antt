-- ===== src/Executor.antt =====
-- simulator/core/event_scheduler/event_executor.py, with the in-memory queue.
pub mod State
pub mod Sequence
pub mod Prepare
pub mod Resolve
pub mod Failure
pub mod Merge
pub mod Success
pub mod Run
pub mod Settles
pub mod Retries
pub mod Repeat
pub mod Follow
pub mod Accepted
