-- ===== src/Fs/Interface.antt =====
-- kernel/include/minios/fs/minifs.h: what the VFS calls of MiniFS, as operations on a state.
use mini_orange_os.Prelude.{ℕ, Option, List}
use mini_orange_os.Prelude.Int.{ℤ}

-- struct minifs_stat
pub record Stat : Type 0 where
  pub inode : ℕ
  pub mode : ℕ
  pub link_count : ℕ
  pub size : ℕ

-- struct minifs_dirent; the name's bytes lie before its terminator.
pub record Dirent : Type 0 where
  pub inode : ℕ
  pub mode : ℕ
  pub name_length : ℕ
  pub name : List ℕ

abbrev pub mode_regular : ℕ
mode_regular = 1

abbrev pub mode_directory : ℕ
mode_directory = 2

-- Each operation returns the int32_t result, what it stores through its pointers, and its state. A
-- path is `none` for NULL; the data of a read is the bytes that it stores.
pub record MiniFs : Type 1 where
  pub State : Type 0
  pub lookup : Option (List ℕ) → State → ℤ × Stat × State
  pub create : Option (List ℕ) → State → ℤ × Stat × State
  pub read : ℕ → ℕ → ℕ → State → ℤ × List ℕ × State
  pub write : ℕ → ℕ → List ℕ → State → ℤ × State
  pub stat_inode : ℕ → State → ℤ × Stat × State
  pub truncate : ℕ → ℕ → State → ℤ × State
  pub mkdir : Option (List ℕ) → State → ℤ × State
  pub unlink : Option (List ℕ) → State → ℤ × State
  pub readdir : ℕ → ℕ → State → ℤ × ℕ × Dirent × State
