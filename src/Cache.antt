-- ===== src/Cache.antt =====
-- The cache that the router and the modules share: its contract, ICache
-- (00_Base/src/interfaces/cache/cache.ts), and the implementation in memory (02_Util/src/cache/memory.ts).
pub mod Store
pub mod Memory
