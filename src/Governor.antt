-- ===== src/Governor.antt =====
-- The transfer governor: prism_serve/scheduler/transfer_governor.py.
-- Of the settings in `Config`, `unit` is the ratio 1.0 and `max_bytes` is
-- MAX_BYTES_INFLIGHT_PER_PAIR. Reading a defaultdict does not add the key here. Metrics are left
-- out; calls of the infer client are the list `sent`, and fired callbacks the list `completed`.
pub mod State
pub mod Admission
pub mod Transfers
pub mod Retry
pub mod Ledger
pub mod History
pub mod Fifo
pub mod Cancel
pub mod Budget
mod Tests
pub use State.{TransferTask, Config, Env, Governor}
