-- ===== src/Limiter/Redis.antt =====
-- internal/limiter/redisstore.go: the store whose state lives in Redis. Server has what the code
-- uses of Redis, of its client library and of Lua, which are parameters; Script the Lua script;
-- Store and Stats the methods. Closed, Agreement and Decisions are about the requests, Shared about
-- several instances on one server, Keys about the keys, Counts about Stats. Memory and Counters are
-- servers in memory for the tests.
pub mod Server
pub mod Script
pub mod Store
pub mod Keys
pub mod Closed
pub mod Agreement
pub mod Decisions
pub mod Stats
pub mod Configs
mod Fresh
mod Configured
pub mod Instances
mod Apart
mod Served
mod Ruled
mod Limits
mod Fixtures
mod Interleaved
mod Counts
mod Counters
pub mod Memory
mod Tests
