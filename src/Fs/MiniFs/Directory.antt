-- ===== src/Fs/MiniFs/Directory.antt =====
-- kernel/fs/minifs.c: directory entries of 64 bytes, and the search of a directory for a name. A name
-- that the caller passes is its bytes; one on the disk starts at an offset of the buffer.
pub mod NameBytes
pub mod Entries
use mini_orange_os.Fs.MiniFs.DataBlocks.{inode_block_at}
use mini_orange_os.Fs.MiniFs.InodeTable.{read_inode_internal}
use mini_orange_os.Errno.{enoent, eio, einval}
use mini_orange_os.Fs.MiniFs.Command.{◌>>◌, pure, fail, ◌>>=◌, or_fail, refuse_if}
use mini_orange_os.Fs.MiniFs.Volume.{Layout, Action, read_volume_block, mounted, buffer}
use mini_orange_os.Fs.MiniFs.Bytes.{read_le32, clear_bytes, write_le32}
use mini_orange_os.Block.{Ata}
use mini_orange_os.Fs.MiniFs.{
  directory_entry_size, name_max, directory_name_bytes, Inode, entries_per_block, mode_directory,
  mode_regular, block_size,
}
use mini_orange_os.Prelude.{
  ltb, leb, ◌==◌, if◌then◌else◌, length, get_or, set, add32, mul32, ℕ, zero, suc, ◌+◌, ◌-◌, ◌*◌,
  ◌/◌, Bool, true, false, ◌&&◌, ◌||◌, not, Option, none, some, List, [], ◌∷◌,
}

-- struct minifs_directory_record
pub record DirectoryRecord : Type 0 where
  pub inode : ℕ
  pub offset : ℕ
  pub kind : ℕ
  pub name : List ℕ

-- A character that a name may hold, beside the terminator.
abbrev name_character : ℕ → Bool
name_character value = leb value 0x7F && not (value == b'/')

-- The loop of directory_name_valid.
unfoldable pub name_bytes_valid : ℕ → ℕ → Bool → List ℕ → ℕ → Bool
name_bytes_valid zero index terminated block start = terminated
name_bytes_valid (suc rounds) index terminated block start =
    let value = get_or block (start + index) 0 in
    let open_name = name_bytes_valid rounds (suc index) false block start in
    let ended = name_bytes_valid rounds (suc index) true block start in
    if terminated
    then (if value == 0 then ended else false)
    else if value == 0
    then (if index == 0 then false else ended)
    else if name_character value
    then open_name
    else false

unfoldable pub directory_name_valid : List ℕ → ℕ → Bool
directory_name_valid block start = name_bytes_valid directory_name_bytes 0 false block start

-- The loop of directory_name_equal, from `start` on.
unfoldable pub name_bytes_equal : List ℕ → ℕ → List ℕ → Bool
name_bytes_equal block start [] = true
name_bytes_equal block start (c ∷ component) =
    let rest = name_bytes_equal block (suc start) component in
    if get_or block start 0 == c then rest else false

unfoldable pub directory_name_equal : List ℕ → ℕ → List ℕ → Bool
directory_name_equal block start component =
    let equal = name_bytes_equal block start component in
    if ltb name_max (length component) || not (get_or block (start + length component) 0 == 0)
    then false
    else equal

-- The loop of directory_entry_unused.
unfoldable pub all_zero : ℕ → List ℕ → ℕ → Bool
all_zero zero block start = true
all_zero (suc rounds) block start =
    let rest = all_zero rounds block (suc start) in
    if get_or block start 0 == 0 then rest else false

unfoldable pub directory_entry_unused : List ℕ → ℕ → Bool
directory_entry_unused block start = all_zero directory_entry_size block start

-- The loop of encode_directory_entry.
unfoldable pub write_name : List ℕ → ℕ → List ℕ → List ℕ
write_name [] start block = block
write_name (c ∷ name) start block = write_name name (suc start) (set block start c)

unfoldable pub encode_directory_entry : ℕ → ℕ → List ℕ → ℕ → List ℕ → List ℕ
encode_directory_entry child_number entry_type name start block =
    let cleared = clear_bytes block start directory_entry_size in
    let with_child = write_le32 cleared start child_number in
    write_name name (start + 5) (set with_child (start + 4) entry_type)

-- What a round of directory_find_internal makes of an entry.
pub data Verdict : Type 0 where
  unused : Verdict
  corrupt : Verdict
  another : Verdict
  found : Verdict

unfoldable pub examine_entry : ℕ → List ℕ → ℕ → List ℕ → Verdict
examine_entry total_inodes block start component =
    let entry_type = get_or block (start + 4) 0 in
    if entry_type == 0
    then (if directory_entry_unused block start then unused else corrupt)
    else if not (entry_type == 1 || entry_type == 2)
        || leb total_inodes (read_le32 block start)
        || not (directory_name_valid block (start + 5))
    then corrupt
    else if directory_name_equal block (start + 5) component
    then found
    else another

-- The name copied to the record.
unfoldable pub name_at : ℕ → List ℕ → ℕ → List ℕ
name_at zero block start = []
name_at (suc rounds) block start = get_or block start 0 ∷ name_at rounds block (suc start)

module _ (A : Ata) (L : Layout) where
  -- The end of a search, at the entry that was found. The types of an entry are the modes of an inode.
  unfoldable pub accept_entry : List ℕ → ℕ → ℕ → Action A L DirectoryRecord
  accept_entry block index file_block = do
    let start = index * directory_entry_size
    let child = read_le32 block start
    let entry_type = get_or block (start + 4) 0
    inode ← or_fail (read_inode_internal A L child) eio
    refuse_if
        ((entry_type == 2 && not (inode.mode == mode_directory))
          || (entry_type == 1 && not (inode.mode == mode_regular)))
        eio
    pure (record {
      inode = child;
      offset = add32 (mul32 file_block block_size) (index * directory_entry_size);
      kind = entry_type;
      name = name_at directory_name_bytes block (start + 5);
    })

  -- The loop on the entries of one block, which stands in the buffer: `none` if none of them is it.
  unfoldable pub find_in_block :
      ℕ → ℕ → List ℕ → ℕ → ℕ → List ℕ → Action A L (Option DirectoryRecord)
  find_in_block zero index block total_inodes file_block component = pure none
  find_in_block (suc rounds) index block total_inodes file_block component =
      let next = find_in_block rounds (suc index) block total_inodes file_block component in
      let accepted = (do entry ← accept_entry block index file_block; pure (some entry)) in
      elim (examine_entry total_inodes block (index * directory_entry_size) component) [
        | unused ↦ next
        | corrupt ↦ fail eio
        | another ↦ next
        | found ↦ accepted
      ]

  -- The loop on the blocks. Each round takes at least one entry, so that as many rounds as entries
  -- are enough.
  unfoldable pub find_in_blocks : ℕ → ℕ → ℕ → Inode → List ℕ → Action A L DirectoryRecord
  find_in_blocks zero remaining file_block directory component = fail enoent
  find_in_blocks (suc rounds) remaining file_block directory component =
      let entries = if ltb entries_per_block remaining then entries_per_block else remaining in
      let next = find_in_blocks rounds (remaining - entries) (suc file_block) directory component in
      let body = (do
        disk_block ← or_fail (inode_block_at A L directory file_block) eio
        or_fail (read_volume_block A L disk_block) eio
        s ← mounted A L
        bytes ← buffer A L
        result ← find_in_block entries 0 bytes s.total_inodes file_block component
        elim result [ none ↦ next | some entry ↦ pure entry ]) in
      if remaining == 0 then fail enoent else body

  unfoldable pub directory_find_internal : Inode → List ℕ → Action A L DirectoryRecord
  directory_find_internal directory component = do
    refuse_if
        (not (directory.mode == mode_directory)
          || length component == 0
          || ltb name_max (length component))
        einval
    let entries = directory.size / directory_entry_size
    find_in_blocks entries entries 0 directory component

  unfoldable pub directory_find : Inode → List ℕ → Action A L ℕ
  directory_find directory component = do
    entry ← directory_find_internal directory component
    pure entry.inode
