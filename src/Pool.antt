-- ===== src/Pool.antt =====
-- The operations of one ConnPool: conn_pool.go, conn_pool_put.go, conn_pool_conn_opener.go,
-- conn_cleaner.go, conn_pool_restrictions.go, conn_pool_stats.go.
pub mod Cleaner
pub mod Put
pub mod Ownership
pub mod RoundTrip
pub mod Acquire
pub mod Waiting
pub mod Opener
pub mod Shutdown
pub mod Retry
