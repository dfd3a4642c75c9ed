-- ===== src/Governor/Ledger.antt =====
-- The ledger invariant of TransferGovernor: the byte counters are the sums over the tasks in flight,
-- and no request is held twice (prism_serve/scheduler/transfer_governor.py).
mod Holding
mod Dropping
mod Flushing
mod Calls
unfoldable pub use Holding.{count_in}
pub use Holding.{Inv, IsCapped, init-Inv, held_count, is_for, pair_weight}
pub use Flushing.{
  queue-set_queue, dispatch-deferred, dispatch_taken, dispatch_raised, set_queue_fresh,
  set_queue-Inv, can_send-set_queue,
}
pub use Calls.*
