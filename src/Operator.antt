-- ===== src/Operator.antt =====
-- pkg/operator: the reconciliation loop that decides which nodes may reboot.
pub mod Vars
pub mod Config
pub mod Checks
pub mod Marks
pub mod Process
pub mod Run
pub mod Lease
