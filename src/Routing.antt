-- ===== src/Routing.antt =====
-- From a prompt to the instances that hold a prefix of it: prism_serve/router/fingerprint.py,
-- prism_serve/router/prefix_index.py, prism_serve/router/router.py.
pub mod Fingerprint
pub mod Chains
pub mod Topology
pub mod Router
pub mod Choice
pub mod Suffix
mod Tests
