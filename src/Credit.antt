-- ===== src/Credit.antt =====
-- The credit system: policy, tables, cycle lifecycle and accounting.
pub mod Code
pub mod Policy
pub mod Tables
pub mod Lifecycle
pub mod Accounting
pub mod Contract
mod Tests
