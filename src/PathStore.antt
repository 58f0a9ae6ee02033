-- ===== src/PathStore.antt =====
-- pathstore/pytypes.py: the path mapping, the entry store, and the path store over both.
pub mod Mapping
pub mod Entries
pub mod PyTypes
pub mod EndPoints
