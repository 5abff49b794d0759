-- ===== src/Tests.antt =====
-- Concrete runs, and the theorems at concrete inputs.
mod Memory
mod Samples
mod Pass
mod Passes
mod Cycle
mod Window
mod Store
mod Agents
mod Waits
mod Interleaved
mod Turns
mod Machines
mod Reboots
mod Evictions
mod Commands
mod UpdateAgent
mod Statuses
mod Leading
