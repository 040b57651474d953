-- ===== src/Load.antt =====
-- loadtest/main.go: the load tester. Workers has the goroutines of `runWorkers`, which Accounts,
-- Tally and Ending are about; Report what is made of their results, which Ranks and Verdict are
-- about.
pub mod Workers
mod Accounts
mod Accounting
mod Tally
mod Answered
mod Ending
pub mod Report
mod Ranks
mod Sorting
mod Verdict
mod Tests
