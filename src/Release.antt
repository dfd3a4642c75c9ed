-- ===== src/Release.antt =====
-- The release of decode slots on evidence that a whole world was replaced:
-- prism_serve/scheduler/resource_release.py.
pub mod Evidence
pub mod Replay
mod Tests
pub mod World
pub mod Durable
pub mod Recovered
