-- ===== src/Ledger/Service.antt =====
-- deepiri_zepgpu/compute_ledger/service.py: the ledger service over the rows of its chain. Its
-- operations are in Service/Handlers, its checks and exports in Service/Verify.
pub mod Session
pub mod Setup
pub mod Propose
pub mod Persist
pub mod Handlers
pub mod Books
mod Tests
pub mod Approve
pub mod Verify
