-- ===== src/Examples.antt =====
-- A small policy, facts, runs and a benchmark, on which the theorems are applied.
mod Samples
mod Accepted
mod Rules
mod Engine
mod Runs
mod Stores
mod Benchmarks
mod Suites
mod Findings
mod Repairs
