-- ===== src/Facade.antt =====
-- conn_pool_facade.go, conn_pool_facade_opener.go, conn_pool_facade_lru.go and
-- conn_pool_facade_stats.go: the counters, the cache of idle connections, and the choice of the
-- pools that get new connections. What closes a connection is in module Closing, what opens a pool
-- in module Facade.Pools.
pub mod Counters
pub mod Lru
pub mod Requests
pub mod RequestLaws
pub mod Pools
pub mod Calls
pub mod Statistics
