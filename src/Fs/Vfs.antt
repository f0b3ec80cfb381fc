-- ===== src/Fs/Vfs.antt =====
-- kernel/fs/vfs.c: the table of open files, its handles, and the lock. The static variables are the
-- record `Vfs`; `file_table_address` is where the linker put the table. A pointer to an open file is
-- its index, a handle its address. `ops` is NULL or the one table of MiniFS operations.
pub mod Table
pub mod Step
pub mod Open
pub mod Laws
mod Tests
use mini_orange_os.Prelude.Search.{find_from}
use mini_orange_os.Prelude.{
  ltb, leb, ◌==◌, if◌then◌else◌, get_or, set, replicate, ℕ, ◌+◌, ◌-◌, ◌*◌, ◌/◌, ◌%◌, ◌^◌, bit_and,
  Bool, true, false, ◌&&◌, ◌||◌, not, Option, none, some, List,
}

abbrev pub file_limit : ℕ
file_limit = 32

-- sizeof(struct vfs_file)
abbrev pub file_size : ℕ
file_size = 32

abbrev pub o_wronly : ℕ
o_wronly = 1

abbrev pub o_rdwr : ℕ
o_rdwr = 2

abbrev pub o_creat : ℕ
o_creat = 0x100

abbrev pub o_trunc : ℕ
o_trunc = 0x200

pub record File : Type 0 where
  pub used : Bool
  pub refcount : ℕ
  pub has_ops : Bool
  pub inode : ℕ
  pub offset : ℕ
  pub flags : ℕ
  pub mode : ℕ

pub record Vfs : Type 0 where
  pub file_table_address : ℕ
  pub file_table : List File
  pub initialized : Bool
  pub busy : Bool

-- clear_file: every field is written.
abbrev pub cleared_file : File
cleared_file = record {
  used = false;
  refcount = 0;
  has_ops = false;
  inode = 0;
  offset = 0;
  flags = 0;
  mode = 0;
}

abbrev pub file_at : Vfs → ℕ → File
file_at v i = get_or v.file_table i cleared_file

abbrev pub put_file : ℕ → File → Vfs → Vfs
put_file i f v = record v { file_table = set v.file_table i f }

-- (uintptr_t)&file_table[i]
abbrev pub handle_of : Vfs → ℕ → ℕ
handle_of v i = v.file_table_address + i * file_size

-- allocate_file: the first slot that is not used, with used and refcount set.
unfoldable pub allocate_file : Vfs → Option (ℕ × Vfs)
allocate_file v = elim (find_from (λ i. not (file_at v i).used) file_limit 0) [
  | none ↦ none
  | some i ↦ some (i, put_file i (record cleared_file { used = true; refcount = 1 }) v)
]

-- file_from_handle
unfoldable pub file_from_handle : ℕ → Vfs → Option ℕ
file_from_handle handle v =
    let offset = handle - v.file_table_address in
    let file = file_at v (offset / file_size) in
    if ltb handle v.file_table_address || leb (handle_of v file_limit) handle
    then none
    else if not (offset % file_size == 0)
    then none
    else if file.used && ltb 0 file.refcount && file.has_ops
    then some (offset / file_size)
    else none

-- flags & MINIOS_O_ACCMODE
abbrev pub access_of : ℕ → ℕ
access_of flags = bit_and flags 3

-- (flags & bit) != 0
abbrev pub has_flag : ℕ → ℕ → Bool
has_flag flags bit = not (bit_and flags bit == 0)

-- flags_valid; ~VFS_ALLOWED_FLAGS is 2^32 - 1 - 0x303.
unfoldable pub flags_valid : ℕ → Bool
flags_valid flags =
    bit_and flags (2 ^ 32 - 1 - 0x303) == 0
    && leb (access_of flags) o_rdwr
    && (not (has_flag flags o_trunc) || not (access_of flags == 0))

abbrev pub file_readable : File → Bool
file_readable f = not (access_of f.flags == o_wronly)

abbrev pub file_writable : File → Bool
file_writable f = not (access_of f.flags == 0)

-- vfs_init
unfoldable pub init : ℕ → Vfs
init address = record {
  file_table_address = address;
  file_table = replicate file_limit cleared_file;
  initialized = true;
  busy = false;
}
