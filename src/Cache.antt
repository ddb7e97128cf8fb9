-- ===== src/Cache.antt =====
-- The key-value caches of src/cache.h.
pub mod Node
pub mod NatKeys
pub mod Hash
pub mod Spec
pub mod Lru
pub mod Twoq
