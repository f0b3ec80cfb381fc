-- ===== src/Fs/MiniFs/Inodes.antt =====
-- kernel/fs/minifs.c: an inode as the 64 bytes of a table entry, and the shape of its block pointers.
-- The bytes are those of the buffer that holds the table block, from an offset on.
pub mod Encoding
pub mod RoundTrip
use mini_orange_os.Fs.MiniFs.Bytes.{write_le32, read_le32, read_le16, clear_bytes, write_le16}
use mini_orange_os.Fs.MiniFs.{
  Inode, mode_regular, direct_count, divide_round_up, block_size, inode_size, mode_directory,
  max_file_size, directory_entry_size,
}
use mini_orange_os.Prelude.{
  ltb, leb, ◌==◌, if◌then◌else◌, get_or, replicate, ℕ, zero, suc, ◌+◌, ◌*◌, ◌%◌, Bool, true, false,
  ◌&&◌, ◌||◌, not, Option, none, some, List, [], ◌∷◌,
}

-- The loop of decode_inode on the direct pointers.
unfoldable pub decode_direct : ℕ → ℕ → List ℕ → ℕ → List ℕ
decode_direct zero index source start = []
decode_direct (suc rounds) index source start =
    read_le32 source (start + 8 + index * 4) ∷ decode_direct rounds (suc index) source start

-- The fields that decode_inode stores in *result.
unfoldable pub inode_fields : List ℕ → ℕ → Inode
inode_fields source start = record {
  mode = read_le16 source start;
  link_count = read_le16 source (start + 2);
  size = read_le32 source (start + 4);
  direct = decode_direct direct_count 0 source start;
  indirect = read_le32 source (start + 48);
  created_tick = read_le32 source (start + 52);
  modified_tick = read_le32 source (start + 56);
}

-- The conditions of decode_inode on the fields and on the reserved word.
unfoldable pub inode_accepted : Inode → ℕ → Bool
inode_accepted inode reserved =
    (inode.mode == mode_regular || inode.mode == mode_directory)
    && not (inode.link_count == 0)
    && leb inode.size max_file_size
    && reserved == 0
    && not (
        inode.mode == mode_directory
        && (inode.size == 0 || not (inode.size % directory_entry_size == 0)))

-- decode_inode; `none` is false.
unfoldable pub decode_inode : List ℕ → ℕ → Option Inode
decode_inode source start =
    let inode = inode_fields source start in
    if inode_accepted inode (read_le32 source (start + 60)) then some inode else none

-- The loop of encode_inode on the direct pointers.
unfoldable pub encode_direct : ℕ → ℕ → List ℕ → ℕ → List ℕ → List ℕ
encode_direct zero index direct start block = block
encode_direct (suc rounds) index direct start block =
    encode_direct rounds (suc index) direct start
      (write_le32 block (start + 8 + index * 4) (get_or direct index 0))

-- The writes of encode_inode before its loop.
unfoldable pub encode_head : Inode → ℕ → List ℕ → List ℕ
encode_head inode start block =
    let cleared = clear_bytes block start inode_size in
    let with_mode = write_le16 cleared start inode.mode in
    let with_links = write_le16 with_mode (start + 2) inode.link_count in
    write_le32 with_links (start + 4) inode.size

unfoldable pub encode_inode : Inode → ℕ → List ℕ → List ℕ
encode_inode inode start block =
    let with_direct =
      encode_direct direct_count 0 inode.direct start (encode_head inode start block) in
    let with_indirect = write_le32 with_direct (start + 48) inode.indirect in
    let with_created = write_le32 with_indirect (start + 52) inode.created_tick in
    write_le32 with_created (start + 56) inode.modified_tick

-- clear_inode: a fresh regular file.
unfoldable pub clear_inode : Inode
clear_inode = record {
  mode = mode_regular;
  link_count = 1;
  size = 0;
  direct = replicate direct_count 0;
  indirect = 0;
  created_tick = 0;
  modified_tick = 0;
}

-- The loop of inode_pointer_shape_valid.
unfoldable pub direct_shape_valid : ℕ → ℕ → ℕ → List ℕ → Bool
direct_shape_valid zero index direct_required direct = true
direct_shape_valid (suc rounds) index direct_required direct =
    let rest = direct_shape_valid rounds (suc index) direct_required direct in
    if (ltb index direct_required && get_or direct index 0 == 0)
      || (leb direct_required index && not (get_or direct index 0 == 0))
    then false
    else rest

unfoldable pub inode_pointer_shape_valid : Inode → Bool
inode_pointer_shape_valid inode =
    let required_blocks = divide_round_up inode.size block_size in
    let direct_required =
      if ltb direct_count required_blocks then direct_count else required_blocks in
    direct_shape_valid direct_count 0 direct_required inode.direct
    && ((ltb direct_count required_blocks && not (inode.indirect == 0))
        || (leb required_blocks direct_count && inode.indirect == 0))
