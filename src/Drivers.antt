-- ===== src/Drivers.antt =====
-- kernel/drivers/.
pub mod Keyboard
