-- ===== src/Fs/MiniFs/Mounting/Laws.antt =====
-- kernel/fs/minifs.c: what a mount that succeeds has established.
use mini_orange_os.Fs.MiniFs.Mount.Geometry.{decode_superblock-IsLaidOut}
use mini_orange_os.Prelude.Int.{pos}
use mini_orange_os.Fs.MiniFs.Mount.{decode_superblock}
use mini_orange_os.Fs.MiniFs.Inodes.{inode_pointer_shape_valid}
use mini_orange_os.Block.OneBlock.{block_read_one}
use mini_orange_os.Fs.MiniFs.InodeTable.{require_bit, read_inode_internal, checked_inode}
use mini_orange_os.Errno.{eio}
use mini_orange_os.Fs.MiniFs.Command.{
  ok, failed, and_then, Outcome, ◌>>=◌, or_fail, refuse_if, ◌>>◌,
}
use mini_orange_os.Fs.MiniFs.InodeTable.Store.{
  IsMounted, inode_present, entry_of, bitmap_lem, read_inode_internal_lem, inode_read,
}
use mini_orange_os.Fs.MiniFs.Volume.Bitmaps.{bit_at, bitmap_bit_set_lem}
use mini_orange_os.Fs.MiniFs.{Superblock, Inode, mode_directory}
use mini_orange_os.Fs.MiniFs.Volume.Store.{block_of, IsReady, IsReady-buffer}
use mini_orange_os.Mm.Bitmap.Laws.{Bytes}
use mini_orange_os.Fs.MiniFs.Mounting.{
  require_reserved, mount_volume, minifs_mount, FileSystem, cleared_superblock,
}
use mini_orange_os.Fs.MiniFs.Volume.{Layout, Volume}
use mini_orange_os.Block.RoundTrip.{Disk}
use mini_orange_os.Block.{Ata}
use native.Mathlib.Decide.{ℕ_discrete}
use mini_orange_os.Prelude.{
  ltb, ◌==◌, ==_iff, Bool-cases, Option-cases, length, ℕ, zero, suc, ◌+◌, ◌-◌, ◌/◌, ◌^◌, ◌≤◌, ◌<◌,
  ◌≡◌, refl, ap, ◌∙◌, ◌⊎◌, inl, inr, true, false, ◌||◌, not, Option, none, some, List, arith,
}

module _ (A : Ata) (D : Disk A) (L : Layout) where
  -- A device of whole blocks of bytes, of the size that block_init found.
  pub record IsFormatted (a : A.State) : Type 0 where
    pub device_count : L.device_block_count ≡ A.sector_count a / 8
    pub device_small : L.device_block_count < 2 ^ 29
    pub volume_small : L.volume_block_count < 2 ^ 32
    pub volume_some : 0 < L.volume_block_count
    pub lengths : (b : ℕ) → b < L.device_block_count → length (D.view a b) ≡ 4096
    pub bytes : (b : ℕ) → b < L.device_block_count → Bytes (D.view a b)

  -- A mounted volume whose metadata blocks are reserved and whose root is a directory.
  pub record IsServing (w : Volume A L) : Type 0 where
    pub volume_mounted : IsMounted A D L w
    pub reserved :
        (b : ℕ)
        → b < w.superblock.data_start
        → bit_at A D L w w.superblock.block_bitmap_start b ≡ true
    pub root_present : inode_present A D L w w.superblock.root_inode ≡ true
    pub root : Inode
    pub root_entry : entry_of A D L w w.superblock.root_inode ≡ some root
    pub root_directory : root.mode ≡ 2

  ready_lem :
      (v : Volume A L) (s : Superblock)
      → IsFormatted v.device
      → L.volume_start_block + L.volume_block_count ≤ L.device_block_count
      → s.total_blocks ≡ L.volume_block_count
      → IsReady A D L (record v { superblock = s })
  unfolding block_of
  ready_lem v s F fits e = record {
    device_count = F.device_count;
    device_small = F.device_small;
    on_device = fits;
    total = e;
    block_length = λ r h. F.lengths (L.volume_start_block + r) (omega arith);
    block_bytes = λ r h. F.bytes (L.volume_start_block + r) (omega arith);
  }

  abbrev Reserved : Volume A L → ℕ → ℕ → Type 0
  Reserved v rounds block =
      (q : ℕ)
      → block ≤ q
      → q < block + rounds
      → bit_at A D L v v.superblock.block_bitmap_start q ≡ true

  require_reserved_lem :
      (rounds block : ℕ) (v : Volume A L)
      → IsMounted A D L v
      → block + rounds ≤ v.superblock.data_start
      → ((bytes : List ℕ) × (require_reserved A L rounds block v
            ≡ ok tt (record v { io_block = bytes }))
          × Reserved v rounds block)
        ⊎ ((bytes : List ℕ) × (require_reserved A L rounds block v
              ≡ failed eio (record v { io_block = bytes })))
  unfolding require_reserved bit_at block_of
  require_reserved_lem zero block v M h = inl (v.io_block, refl, λ q lo hi. absurd (omega arith))
  require_reserved_lem (suc n) block v M h =
      let s = M.laid_out in
      let i1 = s.inode_bitmap in
      let i2 = s.inode_table in
      let i3 = s.data_blocks in
      let i4 = s.data_inside in
      let i5 = s.block_bits in
      let bitmap = block_of A D L v (v.superblock.block_bitmap_start + block / 32768) in
      let tested =
        bitmap_bit_set_lem A D L v v.superblock.block_bitmap_start v.superblock.block_bitmap_blocks
          block M.ready (omega arith) (omega arith) in
      elim (Bool-cases (bit_at A D L v v.superblock.block_bitmap_start block)) [
        | inr clear ↦ inr (bitmap, rw (tested, clear) refl)
        | inl marked ↦
            let M1 : IsMounted A D L (record v { io_block = bitmap }) = record {
              ready = IsReady-buffer A D L v bitmap M.ready;
              laid_out = s;
            } in
            elim (require_reserved_lem n (suc block) (record v { io_block = bitmap }) M1
              (omega arith)) [
                | inl (bytes, done, all) ↦ inl (
                  bytes,
                  rw (tested, marked) done,
                  λ q lo hi. elim (ℕ_discrete q block) [
                    | yes e ↦ rw e marked
                    | no ne ↦ all q (omega arith) (omega arith)
                  ],
                )
                | inr (bytes, done) ↦ inr (bytes, rw (tested, marked) done)
              ]
      ]

  abbrev Mounted : Outcome (Volume A L) (Unit {0}) → Type 0
  Mounted (ok x w) = IsServing w
  Mounted (failed e w) = e ≡ eio

  -- The last steps: the root.
  root_checked :
      (w : Volume A L) (entry : Option Inode)
      → IsMounted A D L w
      → Reserved w w.superblock.data_start 0
      → inode_present A D L w w.superblock.root_inode ≡ true
      → entry_of A D L w w.superblock.root_inode ≡ entry
      → Mounted (
          and_then
            (or_fail (checked_inode A L entry) eio w)
            (λ root. refuse_if (not (root.mode == mode_directory)) eio))
  root_checked w none M all here e = refl
  root_checked w (some root) M all here e = elim (Bool-cases (inode_pointer_shape_valid root)) [
    | inr bad ↦ rw bad refl
    | inl fine ↦ elim (Bool-cases (root.mode == 2)) [
      | inr other ↦ rw (fine, other) refl
      | inl directory ↦
          rw (fine, directory)
            (record {
              volume_mounted = M;
              reserved = λ b h. all b (omega arith) (omega arith);
              root_present = here;
              root = root;
              root_entry = e;
              root_directory = (==_iff root.mode 2).0 directory;
            })
    ]
  ]

  root_lem :
      (v : Volume A L)
      → IsMounted A D L v
      → Reserved v v.superblock.data_start 0
      → Mounted (
          and_then
            (require_bit A L v.superblock.inode_bitmap_start v.superblock.inode_bitmap_blocks
              v.superblock.root_inode eio v)
            (λ _. do
              root ← or_fail (read_inode_internal A L v.superblock.root_inode) eio
              refuse_if (not (root.mode == mode_directory)) eio))
  unfolding bit_at block_of entry_of
  root_lem v M all =
      let s = v.superblock in
      let number = s.root_inode in
      let (room, inside) = bitmap_lem A D L v number M M.laid_out.root in
      let bitmap = block_of A D L v (s.inode_bitmap_start + number / 32768) in
      let tested =
        bitmap_bit_set_lem A D L v s.inode_bitmap_start s.inode_bitmap_blocks number M.ready room
          inside in
      let v1 : Volume A L = record v { io_block = bitmap } in
      let M1 : IsMounted A D L v1 = record {
        ready = IsReady-buffer A D L v bitmap M.ready;
        laid_out = M.laid_out;
      } in
      let (w, read, (bytes, e)) = read_inode_internal_lem A D L v1 number M1 M.laid_out.root in
      elim (Bool-cases (inode_present A D L v number)) [
        | inr gone ↦ rw (tested, gone) refl
        | inl here ↦
            let w' : Volume A L = record v { io_block = bytes } in
            let M' : IsMounted A D L w' = record {
              ready = IsReady-buffer A D L v bytes M.ready;
              laid_out = M.laid_out;
            } in
            let checked = root_checked w' (entry_of A D L v number) M' all here refl in
            let read' : read_inode_internal A L number v1
                ≡ inode_read A D L (inode_present A D L v number) (entry_of A D L v number) w' =
              read
              ∙ ap (inode_read A D L (inode_present A D L v number) (entry_of A D L v number)) e in
            rw (tested, here, read', here) checked
      ]

  -- The steps from a decoded superblock on.
  decoded_lem :
      (v : Volume A L)
      → IsMounted A D L v
      → Mounted (
          and_then (require_reserved A L v.superblock.data_start 0 v) (λ _. do
            require_bit A L v.superblock.inode_bitmap_start v.superblock.inode_bitmap_blocks
                v.superblock.root_inode eio
            root ← or_fail (read_inode_internal A L v.superblock.root_inode) eio
            refuse_if (not (root.mode == mode_directory)) eio))
  unfolding bit_at block_of
  decoded_lem v M = elim (require_reserved_lem v.superblock.data_start 0 v M (omega arith)) [
    | inr (bytes, stopped) ↦ rw stopped refl
    | inl (bytes, done, all) ↦
        let M' : IsMounted A D L (record v { io_block = bytes }) = record {
          ready = IsReady-buffer A D L v bytes M.ready;
          laid_out = M.laid_out;
        } in
        rw done (root_lem (record v { io_block = bytes }) M' all)
  ]

  mount_volume_lem : (v : Volume A L) → IsFormatted v.device → Mounted (mount_volume A L v)
  unfolding mount_volume
  mount_volume_lem v F =
      elim (Bool-cases (
        ltb L.device_block_count L.volume_start_block
        || ltb (L.device_block_count - L.volume_start_block) L.volume_block_count)) [
          | inl bad ↦ rw bad refl
          | inr good ↦
              let some_blocks = F.volume_some in
              let fits : L.volume_start_block + L.volume_block_count ≤ L.device_block_count =
                ground arith in
              let bytes = D.view v.device L.volume_start_block in
              let read =
                block_read_one A D L.device_block_count L.volume_start_block v.device (omega arith)
                  F.device_small F.device_count in
              elim (Option-cases (decode_superblock L.volume_block_count bytes)) [
                | inl refused ↦ rw (good, read, refused) refl
                | inr (s, decoded) ↦
                    let (size, laid) =
                      decode_superblock-IsLaidOut L.volume_block_count bytes s F.volume_small
                        decoded in
                    let v' : Volume A L = record v { io_block = bytes } in
                    rw (good, read, decoded)
                      (decoded_lem (record v' { superblock = s })
                        (record { ready = ready_lem v' s F fits size; laid_out = laid }))
              ]
        ]

  -- minifs_mount on a free lock and a device of blocks of 4096 bytes, with the block count of block_init,
  -- for a volume of 1 to 2^32 - 1 blocks: if it returns 0, the volume is mounted, its
  -- superblock is laid out and has the size of the volume, every block before the data area is marked
  -- in the block bitmap, and the root inode is present and a directory; otherwise it returns EIO, the
  -- volume is not mounted and its superblock is cleared. The lock is free afterwards.
  pub minifs_mount_lem :
      (fs : FileSystem A L)
      → fs.operation_busy ≡ false
      → IsFormatted fs.volume.device
      → (fs' : FileSystem A L) × (fs'.operation_busy ≡ false)
        × (((minifs_mount A L fs ≡ (pos 0, fs')) × (fs'.is_mounted ≡ true) × IsServing fs'.volume)
            ⊎ ((minifs_mount A L fs ≡ (eio, fs'))
                × (fs'.is_mounted ≡ false)
                × (fs'.volume.superblock ≡ cleared_superblock)))
  unfolding minifs_mount
  minifs_mount_lem fs free F =
      from_outcome (mount_volume A L fs.volume) refl (mount_volume_lem fs.volume F)
    where
      from_outcome :
          (o : Outcome (Volume A L) (Unit {0}))
          → mount_volume A L fs.volume ≡ o
          → Mounted o
          → (fs' : FileSystem A L) × (fs'.operation_busy ≡ false)
            × (((minifs_mount A L fs ≡ (pos 0, fs'))
                  × (fs'.is_mounted ≡ true)
                  × IsServing fs'.volume)
                ⊎ ((minifs_mount A L fs ≡ (eio, fs'))
                    × (fs'.is_mounted ≡ false)
                    × (fs'.volume.superblock ≡ cleared_superblock)))
      from_outcome (ok x w) e S = (
        record { volume = w; is_mounted = true; operation_busy = false },
        refl,
        inl (rw (free, e) refl, refl, S),
      )
      from_outcome (failed x w) e h = (
        record {
          volume = record w { superblock = cleared_superblock };
          is_mounted = false;
          operation_busy = false;
        },
        refl,
        inr (rw (free, e, h) refl, refl, refl),
      )
