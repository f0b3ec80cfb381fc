-- ===== src/Proc.antt =====
-- kernel/proc/: processes, the scheduler and the ELF loader.
pub mod Process
pub mod Scheduler
pub mod Elf
