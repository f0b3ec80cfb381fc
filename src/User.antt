-- ===== src/User.antt =====
-- user/libc/: the library of the user programs.
pub mod Io
