-- ===== src/Pipeline.antt =====
-- deepiri_zepgpu/core/pipeline_manager.py: pipelines of stages that depend on one another. The
-- results that asyncio.wait reports are an input: one list of finished tasks for each round.
pub mod Stage
pub mod Rounds
pub mod Keys
pub mod Depends
pub mod Progress
pub mod Relaunch
pub mod Retry
pub mod Registry
pub mod Listing
mod Tests
