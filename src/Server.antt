-- ===== src/Server.antt =====
-- main.go: the server. Settings has `loadConfig`, Main the rest on the store in memory; Answers is
-- about single requests, Interval and Shutdown about whole runs.
mod Settings
mod Main
mod Tables
mod Answers
mod Interval
mod Shutdown
mod Kill
mod Backends
mod Restarts
mod Fixtures
mod Encoder
mod Tests
mod Restarted
