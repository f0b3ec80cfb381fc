-- ===== src/Mm.antt =====
-- kernel/mm: physical pages, the heap and copies from and to user memory.
pub mod Bitmap
pub mod Pmm
pub mod Usercopy
