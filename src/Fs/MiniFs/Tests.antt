-- ===== src/Fs/MiniFs/Tests.antt =====
-- kernel/fs/minifs.c: the theorems on the sample volume.
mod Sample
use mini_orange_os.Fs.Composed.{read_file-minifs_operations}
use mini_orange_os.Fs.MiniFs.Listing.{minifs_operations}
use mini_orange_os.Fs.Vfs.Step.{read_file, advanced, release}
use mini_orange_os.Fs.Vfs.Open.{opened}
use mini_orange_os.Proc.Process.{cleared, running}
use mini_orange_os.Proc.Scheduler.Files.{put_fd, fd_get, fd_refused}
use mini_orange_os.Fs.Interface.{Stat}
use mini_orange_os.Proc.Scheduler.{Scheduler}
use mini_orange_os.Fs.Vfs.{Vfs, file_from_handle, init, put_file}
use mini_orange_os.Fs.MiniFs.Writing.RoundTrip.{minifs_read-minifs_write}
use mini_orange_os.Fs.MiniFs.Bytes.{Outside}
use mini_orange_os.Fs.MiniFs.Tests.Sample.{
  layout, file, files, file-IsStorable, volume, length-contents, volume-IsMounted, known,
  contents-Bytes, file-IsIntact, present, file-IsSeparate, entry, file_shape,
}
use mini_orange_os.Fs.MiniFs.DataBlocks.Store.{free_block_lem, Taken, allocate_block_lem}
use mini_orange_os.Fs.MiniFs.InodeTable.Laws.{
  allocate_inode_lem, read_inode-write_inode, free_inode_lem,
}
use mini_orange_os.Prelude.Int.{pos}
use mini_orange_os.Errno.{einval, eio}
use mini_orange_os.Fs.MiniFs.Files.{minifs_read}
use mini_orange_os.Fs.MiniFs.Writing.Chunks.{IsSeparate, Overwritten, write_chunk_locked_lem}
use mini_orange_os.Fs.MiniFs.Paths.Scan.{walk_enough, next_component-IsName}
use mini_orange_os.Fs.MiniFs.Command.{failed, ok}
use mini_orange_os.Fs.MiniFs.Writing.{write_chunk_locked, minifs_write}
use mini_orange_os.Fs.MiniFs.Directory.{examine_entry, encode_directory_entry, found, another}
use mini_orange_os.Fs.MiniFs.Mounting.Laws.{IsFormatted, IsServing, minifs_mount_lem}
use mini_orange_os.Fs.MiniFs.DataBlocks.{free_block, allocate_block}
use mini_orange_os.Fs.MiniFs.InodeTable.{
  write_inode_internal, free_inode, allocate_inode, read_inode_internal,
}
use mini_orange_os.Fs.MiniFs.Mounting.{FileSystem, minifs_mount, cleared_superblock}
use mini_orange_os.Fs.MiniFs.Paths.{
  walk, next_component, skip_slashes, component_end, slice, component,
}
use mini_orange_os.Fs.MiniFs.Files.Reading.{minifs_read_lem}
use mini_orange_os.Fs.MiniFs.Files.Pointers.{pointer_of, InUse, IsIntact, file_byte}
use mini_orange_os.Fs.MiniFs.Directory.Entries.{examine-encode_directory_entry}
use mini_orange_os.Fs.MiniFs.Directory.NameBytes.{IsName}
use mini_orange_os.Block.Memory.{memory_ata, memory_disk}
use mini_orange_os.Fs.MiniFs.Inodes.RoundTrip.{decode_inode-encode_inode}
use mini_orange_os.Fs.MiniFs.Inodes.Encoding.{IsStorable, length-encode_inode, encode_inode-Bytes}
use mini_orange_os.Fs.MiniFs.Volume.Bitmaps.{bit_at, Scanned, first_clear, Marked}
use mini_orange_os.Mm.Bitmap.Laws.{Bytes, length-fill, fill-Bytes, bitmap_get-fill}
use mini_orange_os.Fs.MiniFs.Volume.Store.{block_of}
use mini_orange_os.Fs.MiniFs.Inodes.{
  encode_inode, inode_pointer_shape_valid, inode_accepted, direct_shape_valid, decode_inode,
}
use mini_orange_os.Fs.MiniFs.{Inode, Superblock, divide_round_up}
use mini_orange_os.Fs.MiniFs.Mount.Geometry.{IsLaidOut}
use mini_orange_os.Fs.MiniFs.Volume.{Layout, Volume}
use mini_orange_os.Fs.MiniFs.InodeTable.Store.{entry_of, IsMounted, inode_present, InodeWritten}
use mini_orange_os.Mm.Bitmap.{fill}
use mini_orange_os.Prelude.{
  length, get_or, replicate, ℕ, zero, suc, ◌+◌, ◌-◌, ◌≤◌, ◌<◌, ◌≡◌, refl, ◌≢◌, ◌⊎◌, inl, true,
  false, some, List, [], ◌∷◌, arith,
}

decode_inode-encode_inode_example : decode_inode (encode_inode file 64 (fill 4096 0)) 64 ≡ some file
decode_inode-encode_inode_example =
    decode_inode-encode_inode file 64 (fill 4096 0) (omega (arith, length-fill 4096 0))
      file-IsStorable

read_inode-write_inode_example :
    (w : Volume memory_ata layout) × (write_inode_internal memory_ata layout 1 file volume
      ≡ ok tt w)
    × InodeWritten memory_ata memory_disk layout volume 1 volume-IsMounted known file w
    × ((w' : Volume memory_ata layout) × (read_inode_internal memory_ata layout 1 w ≡ ok file w'))
read_inode-write_inode_example =
    read_inode-write_inode memory_ata memory_disk layout volume 1 file volume-IsMounted known
      present file-IsStorable file_shape

allocate_inode_lem_example :
    Scanned memory_ata memory_disk layout volume volume.superblock.inode_bitmap_start
      (first_clear memory_ata memory_disk layout volume volume.superblock.inode_bitmap_start
        (volume.superblock.total_inodes - 1)
        1)
      (allocate_inode memory_ata layout volume)
allocate_inode_lem_example =
    allocate_inode_lem memory_ata memory_disk layout volume volume-IsMounted known

length-auxiliary_block : length volume.auxiliary_block ≡ 4096
unfolding volume
length-auxiliary_block = length-fill 4096 0

auxiliary_block-Bytes : Bytes volume.auxiliary_block
unfolding volume
auxiliary_block-Bytes = fill-Bytes 4096 0 (omega arith)

allocate_block_lem_example :
    Taken memory_ata memory_disk layout volume
      (first_clear memory_ata memory_disk layout volume volume.superblock.block_bitmap_start
        (volume.superblock.total_blocks - volume.superblock.data_start)
        volume.superblock.data_start)
      (allocate_block memory_ata layout volume)
allocate_block_lem_example =
    allocate_block_lem memory_ata memory_disk layout volume volume-IsMounted length-auxiliary_block
      auxiliary_block-Bytes

minifs_read_lem_example :
    (out : List ℕ) × (fs' : FileSystem memory_ata layout) × (minifs_read memory_ata layout 1 2 10
        files
      ≡ (pos 3, out, fs'))
    × (length out ≡ 3)
    × ((k : ℕ)
        → k < 3
        → get_or out k 0 ≡ file_byte memory_ata memory_disk layout volume file (2 + k))
    × (fs'.operation_busy ≡ false)
unfolding files file
minifs_read_lem_example =
    minifs_read_lem memory_ata memory_disk layout files 1 file 2 10 refl refl volume-IsMounted known
      present entry file_shape refl file-IsIntact

disk-IsFormatted : IsFormatted memory_ata memory_disk layout volume.device
unfolding volume layout memory_disk
disk-IsFormatted = record {
  device_count = refl;
  device_small = omega arith;
  volume_small = omega arith;
  volume_some = omega arith;
  lengths = λ b h. length-contents (b - 1);
  bytes = λ b h. contents-Bytes (b - 1);
}

minifs_mount_lem_example :
    (fs' : FileSystem memory_ata layout) × (fs'.operation_busy ≡ false)
    × (((minifs_mount memory_ata layout files ≡ (pos 0, fs'))
          × (fs'.is_mounted ≡ true)
          × IsServing memory_ata memory_disk layout fs'.volume)
        ⊎ ((minifs_mount memory_ata layout files ≡ (eio, fs'))
            × (fs'.is_mounted ≡ false)
            × (fs'.volume.superblock ≡ cleared_superblock)))
unfolding files
minifs_mount_lem_example =
    minifs_mount_lem memory_ata memory_disk layout files refl disk-IsFormatted

-- `ab` and `b` are names.
IsName-a_and_b : IsName (97 ∷ 98 ∷ [])
IsName-a_and_b = record {
  proper = omega arith;
  short = omega arith;
  characters = (
    (omega arith, omega arith, λ e. omega arith),
    ((omega arith, omega arith, λ e. omega arith), tt),
  );
}

IsName-b_alone : IsName (98 ∷ [])
IsName-b_alone = record {
  proper = omega arith;
  short = omega arith;
  characters = ((omega arith, omega arith, λ e. omega arith), tt);
}

abbrev b_alone : List ℕ
b_alone = 98 ∷ []

abbrev a_and_b : List ℕ
a_and_b = 97 ∷ 98 ∷ []

examine-encode_directory_entry_example :
    ((b_alone ≡ a_and_b)
      × (examine_entry 64 (encode_directory_entry 1 1 (97 ∷ 98 ∷ []) 0 (fill 4096 0)) 0 (98 ∷ [])
          ≡ found))
    ⊎ ((b_alone ≢ a_and_b)
        × (examine_entry 64 (encode_directory_entry 1 1 (97 ∷ 98 ∷ []) 0 (fill 4096 0)) 0 (98 ∷ [])
            ≡ another))
examine-encode_directory_entry_example =
    examine-encode_directory_entry 1 1 (97 ∷ 98 ∷ []) 0 (fill 4096 0)
      (omega (arith, length-fill 4096 0)) IsName-a_and_b 64 (98 ∷ []) (omega arith) (omega arith)
      (inl refl) IsName-b_alone

-- The path `/ab/b`.
test_path : List ℕ
test_path = 47 ∷ 97 ∷ 98 ∷ 47 ∷ 98 ∷ []

path_text : (k : ℕ) → k < 5 → get_or test_path k 0 ≢ 0
unfolding test_path
path_text zero h e = omega arith
path_text (suc zero) h e = omega arith
path_text (suc (suc zero)) h e = omega arith
path_text (suc (suc (suc zero))) h e = omega arith
path_text (suc (suc (suc (suc zero)))) h e = omega arith
path_text (suc (suc (suc (suc (suc k))))) h e = omega arith

first_component : next_component 5 1 test_path ≡ component (97 ∷ 98 ∷ []) 3
unfolding test_path next_component skip_slashes component_end slice
first_component = refl

next_component-IsName_example : (1 < 3) × (3 ≤ 5) × IsName (97 ∷ 98 ∷ [])
next_component-IsName_example =
    next_component-IsName 5 1 test_path (97 ∷ 98 ∷ []) 3 path_text (omega arith) first_component

walk_enough_example :
    walk memory_ata layout 5 5 test_path 1 0 volume
    ≡ walk memory_ata layout 9 5 test_path 1 0 volume
walk_enough_example =
    walk_enough memory_ata layout test_path 5 path_text 5 9 1 0 volume (omega arith) (omega arith)

minifs_read-minifs_write_example :
    (fs' : FileSystem memory_ata layout) × (fs'' : FileSystem memory_ata layout) × (minifs_write
        memory_ata layout 1 2
        (8 ∷ 9 ∷ [])
        files
      ≡ (pos 2, fs'))
    × (minifs_read memory_ata layout 1 2 2 fs' ≡ (pos 2, 8 ∷ 9 ∷ [], fs''))
    × ((p : ℕ)
        → p < 5
        → Outside p 2 2
        → file_byte memory_ata memory_disk layout fs'.volume file p
          ≡ file_byte memory_ata memory_disk layout volume file p)
unfolding files file
minifs_read-minifs_write_example =
    minifs_read-minifs_write memory_ata memory_disk layout files 1 file 2 (8 ∷ 9 ∷ []) refl refl
      volume-IsMounted known present entry file_shape refl file-IsIntact file-IsSeparate
      (omega arith) (omega arith)

-- Slot 0 of the file table and descriptor 3 hold the file, open for reading.
abbrev file_status : Stat
file_status = record { inode = 1; mode = 1; link_count = 1; size = 5 }

abbrev open_tables : Vfs
open_tables = put_file 0 (opened 0 file_status) (init 4096)

abbrev reader : Scheduler
reader = put_fd 3 4096 (record {
  process_table = record cleared { state = running } ∷ replicate 15 cleared;
  current = 0;
  next_pid = 1;
})

handle_lem : file_from_handle (fd_get (pos 3) reader) open_tables ≡ some 0
unfolding file_from_handle fd_get fd_refused init cleared
handle_lem = refl

read_file-minifs_operations_example :
    (out : List ℕ) × (fs' : FileSystem memory_ata layout) × (read_file
        (minifs_operations memory_ata layout)
        (pos 3)
        true
        10
        (open_tables, reader, files)
      ≡ (
        (pos 5, out),
        (put_file 0 (advanced (pos 5) (opened 0 file_status)) (release open_tables), reader, fs'),
      ))
    × ((k : ℕ)
        → k < 5
        → get_or out k 0 ≡ file_byte memory_ata memory_disk layout volume file (0 + k))
unfolding init files file
read_file-minifs_operations_example =
    read_file-minifs_operations memory_ata memory_disk layout (pos 3) 10 0 open_tables reader files
      file refl refl handle_lem refl refl refl refl volume-IsMounted known present entry file_shape
      refl file-IsIntact
