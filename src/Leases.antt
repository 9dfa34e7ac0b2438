-- ===== src/Leases.antt =====
-- deepiri_zepgpu/database/repositories/node_task_repository.py and rooms/assignment_sweep.py: the
-- leases under which providers run tasks.
pub mod TaskRow
pub mod Rows
pub mod Lifecycle
pub mod Operations
pub mod Sweep
pub mod Reconcile
pub mod Advance
pub mod Rewrites
pub mod Shares
pub mod Goes
pub mod Moves
pub mod Calls
pub mod Serve
pub mod Loops
pub mod Sequence
pub mod Expiry
mod Tests
