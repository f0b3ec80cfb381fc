-- ===== src/Fs/Vfs/Table.antt =====
-- Handles: the address of a slot of the file table stands for that slot alone, and only for an open
-- file.
use mini_orange_os.Prelude.{ltb, ℕ, ◌-◌, ◌/◌, ◌<◌, ◌≡◌, ◌↔◌, Bool, true, ◌&&◌, some, arith}
use mini_orange_os.Fs.Vfs.{Vfs, File, file_limit, file_size, file_at, handle_of, file_from_handle}

-- The slot holds an open file.
abbrev pub is_open : File → Bool
is_open f = f.used && ltb 0 f.refcount && f.has_ops

-- A handle is accepted exactly if it is the address of a slot that holds an open file.
pub file_from_handle_iff :
    (v : Vfs) (handle i : ℕ)
    → (file_from_handle handle v ≡ some i)
      ↔ ((i < file_limit) × (handle ≡ handle_of v i) × (is_open (file_at v i) ≡ true))
unfolding file_from_handle
file_from_handle_iff v handle i = (to, from)
  where
    to :
        file_from_handle handle v ≡ some i
        → (i < file_limit) × (handle ≡ handle_of v i) × (is_open (file_at v i) ≡ true)
    to e = ground arith

    from :
        (i < file_limit) × (handle ≡ handle_of v i) × (is_open (file_at v i) ≡ true)
        → file_from_handle handle v ≡ some i
    from h =
        let same : (handle - v.file_table_address) / file_size ≡ i = omega arith in
        rw (same, file_from_handle) (ground arith)
