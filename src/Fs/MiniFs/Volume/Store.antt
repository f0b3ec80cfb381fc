-- ===== src/Fs/MiniFs/Volume/Store.antt =====
-- kernel/fs/minifs.c: block transfers of a mounted volume, on a disk that keeps what is written.
use mini_orange_os.Block.OneBlock.{block_write_one, block_read_one}
use mini_orange_os.Mm.Bitmap.Laws.{Bytes}
use mini_orange_os.Fs.MiniFs.Command.{ok}
use mini_orange_os.Fs.MiniFs.Volume.{
  Layout, read_volume_block, outside_volume, Volume, write_volume_block_from,
}
use mini_orange_os.Block.RoundTrip.{Disk}
use mini_orange_os.Block.{Ata}
use mini_orange_os.Prelude.{
  ◌==◌, if◌then◌else◌, Bool-cases, length, add32, ℕ, ◌+◌, ◌/◌, ◌^◌, ◌≤◌, ◌<◌, ◌≡◌, refl, sym, ap,
  ◌∙◌, subst, inl, inr, false, List, arith,
}

module _ (A : Ata) (D : Disk A) (L : Layout) where
  -- Block `r` of the volume.
  unfoldable pub block_of : Volume A L → ℕ → List ℕ
  block_of v r = D.view v.device (L.volume_start_block + r)

  -- A volume that lies on its device, whose blocks are blocks of bytes, with the size that
  -- decode_superblock demands.
  pub record IsReady (v : Volume A L) : Type 0 where
    pub device_count : L.device_block_count ≡ A.sector_count v.device / 8
    pub device_small : L.device_block_count < 2 ^ 29
    pub on_device : L.volume_start_block + L.volume_block_count ≤ L.device_block_count
    pub total : v.superblock.total_blocks ≡ L.volume_block_count
    pub block_length : (r : ℕ) → r < v.superblock.total_blocks → length (block_of v r) ≡ 4096
    pub block_bytes : (r : ℕ) → r < v.superblock.total_blocks → Bytes (block_of v r)

  -- `w` is `v` after a write of `bytes` to block `r`.
  pub record Stored (r : ℕ) (bytes : List ℕ) (v w : Volume A L) : Type 0 where
    pub superblock : w.superblock ≡ v.superblock
    pub buffer : w.io_block ≡ v.io_block
    pub auxiliary : w.auxiliary_block ≡ v.auxiliary_block
    pub content : (c : ℕ) → block_of w c ≡ (if r == c then bytes else block_of v c)
    pub ready : IsReady w

  inside_volume :
      (v : Volume A L) (r : ℕ)
      → IsReady v
      → r < v.superblock.total_blocks
      → outside_volume A L r v ≡ false
  unfolding outside_volume
  inside_volume v r R h = let e = R.total in ground arith

  number_lem :
      (v : Volume A L) (r : ℕ)
      → IsReady v
      → r < v.superblock.total_blocks
      → add32 L.volume_start_block r ≡ L.volume_start_block + r
  number_lem v r R h = omega (arith, R.total, R.on_device, R.device_small)

  pub read_volume_block_lem :
      (v : Volume A L) (r : ℕ)
      → IsReady v
      → r < v.superblock.total_blocks
      → read_volume_block A L r v ≡ ok tt (record v { io_block = block_of v r })
  unfolding read_volume_block block_of
  read_volume_block_lem v r R h =
      rw
        (
          inside_volume v r R h,
          number_lem v r R h,
          block_read_one A D L.device_block_count (L.volume_start_block + r) v.device
              (omega (arith, R.total, R.on_device)) R.device_small R.device_count,
        )
        refl

  shifted :
      (s r c : ℕ) (x y : List ℕ) → (if s + r == s + c then x else y) ≡ (if r == c then x else y)
  shifted s r c x y = ground arith

  chosen : (P : List ℕ → Type 0) (r c : ℕ) (x y : List ℕ) → P x → P y → P (if r == c then x else y)
  chosen P r c x y px py = elim (Bool-cases (r == c)) [ inl e ↦ rw e px | inr e ↦ rw e py ]

  pub write_volume_block_from_lem :
      (v : Volume A L) (r : ℕ) (bytes : List ℕ)
      → IsReady v
      → r < v.superblock.total_blocks
      → length bytes ≡ 4096
      → Bytes bytes
      → (w : Volume A L) × (write_volume_block_from A L r bytes v ≡ ok tt w) × Stored r bytes v w
  unfolding write_volume_block_from block_of
  write_volume_block_from_lem v r bytes R h len small =
      let (a', wrote, same, seen) =
        block_write_one A D L.device_block_count (L.volume_start_block + r) bytes v.device
          (omega (arith, R.total, R.on_device)) R.device_small R.device_count in
      let after : (c : ℕ)
          → D.view a' (L.volume_start_block + c)
            ≡ (if r == c then bytes else D.view v.device (L.volume_start_block + c)) =
        λ c. seen (L.volume_start_block + c) ∙ shifted L.volume_start_block r c bytes _ in
      (
        record v { device = a' },
        rw (inside_volume v r R h, number_lem v r R h, wrote) refl,
        record {
          superblock = refl;
          buffer = refl;
          auxiliary = refl;
          content = after;
          ready = record {
            device_count = R.device_count ∙ sym (ap (λ (n : ℕ). n / 8) same);
            device_small = R.device_small;
            on_device = R.on_device;
            total = R.total;
            block_length = λ c lt.
                subst (λ b. length b ≡ 4096) (sym (after c))
                  (chosen (λ b. length b ≡ 4096) r c bytes _ len (R.block_length c lt));
            block_bytes = λ c lt.
                subst Bytes (sym (after c)) (chosen Bytes r c bytes _ small (R.block_bytes c lt));
          };
        },
      )

  -- A new content of a buffer changes nothing on the disk.
  pub IsReady-buffer :
      (v : Volume A L) (bytes : List ℕ) → IsReady v → IsReady (record v { io_block = bytes })
  unfolding block_of
  IsReady-buffer v bytes R = record {
    device_count = R.device_count;
    device_small = R.device_small;
    on_device = R.on_device;
    total = R.total;
    block_length = R.block_length;
    block_bytes = R.block_bytes;
  }

  pub IsReady-auxiliary :
      (v : Volume A L) (bytes : List ℕ) → IsReady v → IsReady (record v { auxiliary_block = bytes })
  unfolding block_of
  IsReady-auxiliary v bytes R = record {
    device_count = R.device_count;
    device_small = R.device_small;
    on_device = R.on_device;
    total = R.total;
    block_length = R.block_length;
    block_bytes = R.block_bytes;
  }
