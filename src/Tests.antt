-- ===== src/Tests.antt =====
-- The theorems at concrete inputs, and runs of the code on them.
mod Samples
mod Blocking
mod Queues
mod Workers
mod Manager
mod Connection
mod Tasks
mod Boxes
mod Groups
mod Runs
mod Jobs
mod Wrappers
mod Compilations
mod Generators
mod Judged
