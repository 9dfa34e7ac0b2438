-- ===== src/Scheduling.antt =====
-- Devices, the pool of local and remote GPUs, and the task queue: core/gpu_manager.py,
-- vpn/gpu_pool.py, vpn/remote_gpu_lock.py and core/scheduler.py.
pub mod Device
pub mod Manager
pub mod Lock
pub mod Pool
pub mod Task
pub mod Queue
pub mod Scheduler
pub mod Steps
pub mod Counts
pub mod Invariant
pub mod Slots
pub mod Cancelled
pub mod Reach
pub mod Listing
pub mod Tests
mod SchedulerTests
