-- ===== src/Output.antt =====
-- GatewayOutputBuffer, the gateway's copy of cumulative decode output: prism_serve/gateway/output.py.
pub mod Buffer
pub mod Extends
pub mod Eviction
mod Tests
