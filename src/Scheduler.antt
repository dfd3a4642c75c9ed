-- ===== src/Scheduler.antt =====
-- PDScheduler, which chooses the instances and keeps their slots: prism_serve/scheduler/scheduler.py.
pub mod State
pub mod Instances
pub mod Pick
pub mod Leases
pub mod Feedback
pub mod Best
pub mod Eligible
pub mod Choice
pub mod Sound
pub mod Arrival
pub mod Keep
pub mod Steps
pub mod Calls
pub mod Safety
pub mod Capacity
pub mod Conservation
pub mod Leasing
pub mod Rollback
mod Tests
