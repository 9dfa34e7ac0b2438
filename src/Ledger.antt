-- ===== src/Ledger.antt =====
-- deepiri_zepgpu/compute_ledger: the permissioned compute ledger.
pub mod Json
pub mod Merkle
pub mod Transaction
pub mod Replay
pub mod Block
pub mod Dictionary
pub mod Poa
pub mod LightClient
pub mod Store
pub mod Service
mod BlockTests
mod HeaderTests
