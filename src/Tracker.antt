-- ===== src/Tracker.antt =====
-- The request tracker: prism_serve/scheduler/sequence_state.py.
-- Times are whole clock ticks. The keyword arguments of `transition` are a function on the request.
pub mod State
pub mod Operations
pub mod Moves
pub mod Stamps
pub mod Stuck
pub mod Sorting
pub mod Deadlines
pub mod Lifecycle
pub mod FirstToken
pub mod Slots
mod Tests
