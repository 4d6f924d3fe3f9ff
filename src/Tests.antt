-- ===== src/Tests.antt =====
-- Test data, runs of the program on them, and the theorems at concrete inputs.
mod Memory
mod Data
mod Reports
mod Policies
mod Sources
mod Rounds
mod Gauges
mod Merge
mod Copies
mod Params
mod Settled
mod Promises
mod Processes
mod Suspension
mod Collisions
