-- ===== src/Tests.antt =====
-- Runs of the kernel's parts at concrete states.
pub mod Kernel
pub mod Message
pub mod Process
pub mod Ide
pub mod Timer
pub mod Exec
pub mod Irq
pub mod Print
pub mod Waiters
pub mod Files
pub mod Paging
pub mod Memory
pub mod Calls
pub mod Terminal
pub mod Console
