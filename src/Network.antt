-- ===== src/Network.antt =====
-- The networks between the parts of python/zamlet: the packet routers and the synchronization bus.
pub mod Router
pub mod Sync
