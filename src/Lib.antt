-- ===== src/Lib.antt =====
-- Token bucket rate limiter: a model of the rate limiter and proofs of what it promises.
--
-- The program is an HTTP service that decides, per client, whether a request may pass. A client has
-- a config (rate, burst, algorithm) and a limiter, a token bucket or a sliding window, which the
-- manager makes on first use. The state of a manager is saved to a file and restored from it. A
-- second store keeps its state in Redis, where several instances of the server share it. A load
-- tester, a program of its own, sends requests to a server from several workers and reports on the
-- answers.
--
--   Prelude      shared names: Boolean tests, lists, signed numbers with the wrap-around of int64
--                (Prelude/Int), and Go maps as association lists (Prelude/Map)
--   Float        float64 as an interface: the operations (Float/Defs), the laws that IEEE 754 gives
--                for any rounding (Float/Laws, from which Float/Order draws), and exactness of whole
--                numbers up to 2^53 (Float/Exact), monotone quotients and conversions (Float/Rounding).
--                Float/Nano is a type of numbers that has all these laws, on which the tests run
--   Clock        time.Time as nanoseconds, time.Duration as an int64, Sub with its saturation, Add
--   Limiter      internal/limiter:
--     Config          config.go: Config, Validate
--     Decision        decision.go: Decision, neverRefills
--     TokenBucket     tokenbucket.go: TokenBucket, NewTokenBucket, State, NewTokenBucketFromState,
--                     Allow (refill is its first half), retryAfter, resetAfter
--     SlidingWindow   slidingwindow.go: SlidingWindow and its methods; roll is the switch of Allow,
--                     estimate the weighted count
--     Algorithm       limiter.go and newLimiter of manager.go: the interface as the sum of the two
--     Stats           stats.go
--     Persistence     persistence.go, and the switches of Snapshot and Restore on the kind of limiter
--     Manager         manager.go: NewManager, SetConfig, GetConfig, RemoveClient, Allow, Stats,
--                     Snapshot, Restore. Manager/Concurrent has calls of Allow that run at the same
--                     time, as steps between the critical sections, and Snapshot meanwhile
--                     (Concurrent/Capture)
--     Redis           redisstore.go: the Lua script (Redis/Script) and the methods of RedisStore
--                     (Redis/Store, Redis/Stats), over a server that is a parameter (Redis/Server).
--                     Redis/Instances has calls of Allow by several instances that run at the
--                     same time, Redis/Fresh the two stores after the
--                     same SetConfig; Redis/Memory and Redis/Counters are servers for the tests
--     Store           store.go: the interface Store, and the manager and RedisStore as such
--   Http         internal/httpapi: check, setClientConfig, getClientConfig, removeClient and stats, as
--                functions of a store, and their registration (Http/Routes); number formats, JSON,
--                http.Error and ServeMux are parameters
--   Disk         internal/store/snapshot.go: Save and Load, over a file system and encoding/json as
--                parameters; Disk/Restart has snapshotOnce and restoreState of main.go, Disk/Crash the
--                disks that Save goes through
--   Server       main.go: loadConfig (Server/Settings); main with runSnapshotter on the store in
--                memory (Server/Main), from the restored snapshot over requests and ticks to the last
--                snapshot; main with the store in Redis, and the choice of the store (Server/Backends)
--   Load         loadtest/main.go: the goroutines of runWorkers (Load/Workers), and what is made of
--                their results: percentile, runThroughput, runCorrectness, the exit status (Load/Report)
--   The modules named Tests run the code on concrete input, as do Crossing and Captured
--   of Manager/Concurrent, Redis/Configured, Redis/Interleaved and Server/Restarted.
--
-- How the code is modelled. A method is a function from the state before to the state after and the
-- result. The clock is an argument. A mutex makes its critical section one step: Allow of the
-- manager is acquire (under mu), call (under the limiter's mutex) and record_decision (under
-- statsMu) in sequence. The map of limiters holds pointers into a heap, as in Go, so that two
-- clients could share a limiter; the manager's invariant speaks of that. An error is a value, none
-- being nil. Go leaves the order of a range over a map open; here the last entry comes first, and
-- theorems on maps are about lookups in maps that have no key twice.
--
-- Numbers. The operations on float64 are the parameter Float, and theorems take the laws they need:
-- IsOrdered holds whatever is rounded, IsExact speaks of whole numbers up to 2^53. Go may fuse a
-- multiplication and an addition on some architectures, which the model does not. int64 wraps around
-- where the code multiplies, adds or subtracts durations. A conversion of a float64 out of range to
-- an int64 is left open. Durations between two times saturate, as in package time. A time itself is
-- unbounded.
--
-- What runs at once is a step relation: the goroutines of the load tester between their atomic
-- additions (Load/Workers), calls of Allow between their critical sections (Manager/Concurrent), and
-- those of several instances between their commands to Redis (Redis/Instances). The scheduler's
-- choice is the choice of the step, and a theorem on reachable states is about every interleaving.
-- Manager/Concurrent/History has what an interleaving means for one client: the calls of its limiter
-- in the order of its mutex, and the limiter on calls in sequence. In Snapshot the copy of the maps
-- is a step, and so is each read of a limiter; in the theorems on Disk and Server it is one. In
-- Server/Main a request, a tick or a snapshot is one event, and the events come one after the other.
--
-- There is no fuel: every function is by recursion on its list, and the load tester's loops end by a
-- count of steps.
--
-- A script of Redis is one step, as Redis runs it. The end of a key that EXPIRE gave a time to live
-- is a step of its own, between any two commands (Redis/Instances); the theorem on it says when it
-- comes. What a server does on an error is open, and so is whether it answers at all, except where a
-- theorem says that it does.
--
-- A process that is killed leaves one of the disks that Save goes through from call to call, with
-- any part of the temporary file written (Disk/Crash). A rename is atomic, as in POSIX.
--
-- Not modelled: how ServeMux matches a pattern, listening and signals (a run of Server/Main ends
-- when no request is left). The keys of a SCAN come at once. SetConfig and RemoveClient between the
-- commands of a call of Allow are modelled for the store in memory alone. The flags of the load
-- tester are given parsed, and the server's answers to it are any. Logging and the text of printed
-- lines are left out everywhere.
pub mod Prelude
pub mod Float
pub mod Clock
pub mod Limiter
pub mod Disk
pub mod Http
pub mod Load
pub mod Server
