-- ===== src/Util.antt =====
-- util.py: `unique`, `last_unique` and the functions on paths, over `posixpath` of the standard
-- library, which they call.
pub mod Unique
pub mod Paths
