-- ===== src/Lib.antt =====
-- A model of the connection pool of this repository: the package `cpool`, a fork of Go's
-- database/sql in which many pools, one for each user, share one limit of connections.
--
-- A `ConnPoolFacade` holds the pools by credentials, the number of opened connections and its
-- limit, and a cache of all idle connections. A `ConnPool` holds its idle connections, its waiting
-- requests and the dependencies of what it must close. `conn` takes an idle connection, opens one
-- if the facade allows it, or waits; `putConn` gives a connection that comes back to a waiting
-- request or makes it idle; closing a connection counts it off and lets the facade open others
-- (`maybeOpenNewConnections`), which it does through a channel that the opener's goroutine reads.
--
-- Files:
--   Base, Base/*          numbers, lists and sets, the store, and the lemmas on them
--   Runtime, Runtime/*    the objects as records (conn_pool_facade.go, conn_pool.go,
--                         driver_conn.go, driver_stmt.go, sql.go), errors and panics, the
--                         environment, and the monad of the code with its laws
--   Deps, Deps/Laws       conn_pool_dep.go
--   Conn                  driver_stmt.go and driver_conn.go without closing
--   Facade/Counters       conn_pool_facade_stats.go, conn_pool_facade_opener.go
--   Facade/Lru            conn_pool_facade_lru.go without eviction
--   Facade/Requests       getConnPoolsThatHaveRequestedNewConnections of conn_pool_facade.go;
--                         its theorems in Facade/RequestLaws
--   Facade/Pools          credentials.go, open_conn_pool.go, named_args.go and the map of pools in
--                         conn_pool_facade.go; theorems in Facade/Pools/Identity
--   Facade/Calls          Exec, Query, QueryRow and BeginTx of conn_pool_facade.go; theorems in
--                         Closed, Served, Held and Begun
--   Facade/Statistics     StatsOfAllPools of conn_pool_facade_stats.go, with its theorem
--   Closing               driver_conn.go (Close, finalClose), conn_pool_facade_lru.go (eviction)
--                         and maybeOpenNewConnections; theorems in Closing/Eviction,
--                         Closing/Chosen, Closing/Bound, Closing/Opening
--   Pool/Cleaner          conn_cleaner.go, conn_pool_restrictions.go; theorems in Sweeps
--   Pool/Put              conn_pool_put.go; theorems in Handover and Idle
--   Pool/Acquire, Waiting conn in conn_pool.go; theorems in Acquire/Limit and Acquire/Reuse
--   Pool/Opener           conn_pool_conn_opener.go, conn_pool_facade_conn_opener.go;
--                         theorem in Failure
--   Pool/Ownership        who has the connections of a pool while goroutines share it: the steps of
--                         conn_pool.go, conn_pool_put.go, conn_pool_conn_opener.go and
--                         conn_cleaner.go in Steps; theorems in Steps and Returned
--   Pool/RoundTrip        a theorem on conn and releaseConn together
--   Pool/Shutdown         Close and Stats of a pool
--   Pool/Retry            the attempts of conn_pool_exec.go, conn_pool_query.go,
--                         conn_pool_prepare.go, conn_pool_begin.go, conn_pool_ping.go; theorems in
--                         Attempts
--   Transaction           transaction.go, beginDC and ctxDriverBegin, with the queries in Queries
--                         and StmtContext in Reuse; theorems in Done and Readers, whose lemmas
--                         stand in Frees, Kept and KeptReuse
--   Rows                  rows.go, row.go in Row, column_type.go and result.go in Columns;
--                         theorems in Ends and Row
--   Arguments             driverArgsConnLocked of convert.go and its checkers; theorems in Collected,
--                         Rounds, Numbers and Slips
--   Convert               convertAssignRows of convert.go in Assign, valuer_scanner.go in Nulls;
--                         theorems in Ranges, Trips and Memory
--   Statements            prepared_statement.go, prepareLocked of driver_conn.go and ctxutil.go, with
--                         ExecContext, QueryContext and Close in Calls, and execDC, queryDC and
--                         prepareDC in Direct; theorems in Swaps, Bound, Ends and Released
--   SingleConn            conn.go; theorems in Done
--   Tests/*               a concrete environment and the theorems at concrete states
--
-- State and errors. A pointer is a number, and the objects stand in a `World`. A function of the
-- code is a function from the world to an outcome: it returns with a new world, panics, waits for
-- ever for a mutex or a channel, or has run out of fuel. A mutex is a flag: a goroutine that locks
-- a held mutex waits, and one that unlocks a free mutex panics. One goroutine runs at a time; where
-- the interleaving matters it is an explicit sequence of steps (Pool/Acquire/Limit,
-- Pool/Ownership/Steps, whose steps are the critical sections), and what others do while `conn`
-- waits is a function on the world. The calls on one transaction, on the rows of one query, on one
-- prepared statement and on one single connection take their state and give it back, one after the
-- other; while the work of such a call runs, the `closemu` of the transaction, or the single
-- connection, stands in the world, where the release that the work is given changes it.
--
-- Parameters. The LRU cache, the concurrent map, the driver, the clock, contexts and the order of
-- Go's iteration over a map are fields of `Env`; a call that may answer differently each time takes
-- the number of the call. What is relied on of them is in `LruLaws`, `CmapLaws`, `IterLaws` and
-- `RangeLaws`, and of strconv, reflect and Scan methods in `IntLaws` and `OtherLaws`.
-- What the driver does for transactions, rows, arguments, statements and direct queries is in
-- `TxDriver`, `RowsDriver`, `ArgDriver`, `PrepareDriver`, `CallDriver`,
-- `DirectDriver` and `ColumnsDriver`, and what strconv, reflect and others do for a scan in `Host`.
-- The theorems under Facade/Calls are about a driver that answers as `Answers` and `Begins` say.
--
-- Fuel. Closing a connection may open others and evict idle ones, which closes connections again:
-- this cycle takes fuel, one unit for each `Close` within another. The results hold for any fuel, or
-- for any but none. The loop at `nextCheck` of driverArgsConnLocked takes four units for each
-- argument, which Arguments/Rounds shows to be enough, and the loop of removeClosedStmtLocked takes
-- the length of its slice, which Statements/Swaps shows to be enough. All other loops are
-- structural. Counters are natural numbers or integers without wrap-around, but for `numClosed`,
-- which is an unsigned 64-bit counter.
--
-- Not modelled: the text of messages and of isolation levels, a scan into something that is no
-- pointer, logging, hooks and stack traces for tests and debugging, the driver's own code in mysql/,
-- and main/.
pub mod Base
pub mod Runtime
pub mod Deps
pub mod Conn
pub mod Facade
pub mod Closing
pub mod Pool
pub mod Transaction
pub mod Rows
pub mod Arguments
pub mod Convert
pub mod Statements
pub mod SingleConn
pub mod Tests
