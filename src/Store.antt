-- ===== src/Store.antt =====
-- The decisions of a whole-topology replacement, kept in a file:
-- prism_serve/scheduler/replacement_store.py.
pub mod Records
pub mod State
pub mod Load
pub mod Decisions
pub mod Seals
pub mod Loadable
pub mod Durable
pub mod Restart
pub mod Reopen
pub mod Recall
pub mod Requests
pub mod Tables
pub mod Keeping
pub mod Lookups
pub mod LeaseKeys
pub mod Batches
pub mod Sealing
pub mod History
pub mod Closed
pub mod Crash
pub mod Leaving
pub mod Atomic
pub mod Again
pub mod Taking
pub mod Openings
pub mod Filling
mod Tests
