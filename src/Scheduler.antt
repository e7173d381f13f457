-- ===== src/Scheduler.antt =====
-- sio/sioworkersd/scheduler: the parts of the prioritizing scheduler.
pub mod Task
pub mod Worker
pub mod Waiting
pub mod Queues
pub mod State
pub mod Schedule
pub mod Blocking
pub mod Selection
