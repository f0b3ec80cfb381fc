-- ===== src/Fs.antt =====
-- kernel/fs: open files above the file system.
pub mod Interface
pub mod Vfs
pub mod MiniFs
pub mod Composed
