-- ===== src/Training.antt =====
-- deepiri_zepgpu/training: the updates that workers send to each other in a training run.
pub mod Integrity
pub mod Unique
pub mod Texts
pub mod Live
pub mod FileGuard
pub mod Restart
mod Tests
mod RestartTests
mod LiveTests
