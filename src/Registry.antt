-- ===== src/Registry.antt =====
-- WorkerRegistry, the fixed world of four workers: prism_serve/router/worker_registry.py.
pub mod World
pub mod Reports
pub mod Invariant
mod Tests
