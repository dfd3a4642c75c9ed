-- ===== src/Prefix.antt =====
-- PrefixIndex, where the cached prefixes of the instances are: prism_serve/router/prefix_index.py.
pub mod Index
pub mod Events
pub mod Entries
pub mod Backed
pub mod Unlisting
pub mod Consistent
pub mod Removal
pub mod Rebuild
mod Tests
