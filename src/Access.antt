-- ===== src/Access.antt =====
-- deepiri_zepgpu/security/access_control.py: quotas of users and their usage in a period. Times and
-- GPU time are whole seconds and storage is whole gigabytes; `now` is the time of the call.
pub mod Control
pub mod Quotas
pub mod Granted
mod Tests
