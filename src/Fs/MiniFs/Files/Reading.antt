-- ===== src/Fs/MiniFs/Files/Reading.antt =====
-- kernel/fs/minifs.c: a read returns the bytes of the file, across its blocks.
use mini_orange_os.Fs.MiniFs.Files.Pointers.{
  IsIntact, file_byte, available, pointer_of, length-slice, length-append, get_or-append_left,
  get_or-slice, get_or-append_right, with_buffer, inode_block_at_lem, IsReady-with_buffer,
}
use mini_orange_os.Fs.MiniFs.InodeTable.{read_inode_internal}
use mini_orange_os.Prelude.Int.{pos}
use mini_orange_os.Fs.MiniFs.Inodes.{inode_pointer_shape_valid}
use mini_orange_os.Fs.MiniFs.Mounting.{FileSystem}
use mini_orange_os.Fs.MiniFs.Files.{read_rounds, minifs_read, read_locked}
use native.Mathlib.Decide.{dec_lt}
use mini_orange_os.Fs.MiniFs.Command.{ok}
use mini_orange_os.Fs.MiniFs.Volume.Store.{block_of, read_volume_block_lem}
use mini_orange_os.Fs.MiniFs.InodeTable.Store.{
  IsMounted, inode_present, entry_of, read_inode_internal_lem,
}
use mini_orange_os.Fs.MiniFs.{Inode}
use mini_orange_os.Fs.MiniFs.Volume.{Layout, Volume}
use mini_orange_os.Block.RoundTrip.{Disk}
use mini_orange_os.Fs.MiniFs.Paths.{slice}
use mini_orange_os.Block.{Ata}
use mini_orange_os.Prelude.{
  ltb, leb, ◌==◌, if◌then◌else◌, Bool-cases, length, get_or, add32, ℕ, zero, suc, ◌+◌, ◌-◌, ◌/◌,
  ◌%◌, ◌≤◌, ◌<◌, ◌≡◌, refl, ap, ◌∙◌, subst, inl, inr, true, false, ◌||◌, some, List, [], ◌++◌,
  arith,
}

module _ (A : Ata) (D : Disk A) (L : Layout) where
  module _ (v : Volume A L) (M : IsMounted A D L v) where
    -- Bytes that are those of the file from `p` on.
    record Shows (inode : Inode) (p n : ℕ) (out : List ℕ) : Type 0 where
      count : length out ≡ n
      content : (k : ℕ) → k < n → get_or out k 0 ≡ file_byte A D L v inode (p + k)

    -- A chunk inside one block, followed by the bytes behind it.
    chunk_lem :
        (inode : Inode) (p c n : ℕ) (rest : List ℕ)
        → p % 4096 + c ≤ 4096
        → c ≤ n
        → Shows inode (p + c) (n - c) rest
        → Shows inode p n
            (slice c (p % 4096) (block_of A D L v (pointer_of A D L v inode (p / 4096))) ++ rest)
    unfolding file_byte
    chunk_lem inode p c n rest fits le S =
        let block = block_of A D L v (pointer_of A D L v inode (p / 4096)) in
        let part = slice c (p % 4096) block in
        let len = length-slice c (p % 4096) block in
        record {
          count = omega (arith, length-append part rest, len, S.count);
          content = λ k h. elim (dec_lt k c) [
            | yes lt ↦
                let quotient : (p + k) / 4096 ≡ p / 4096 = omega arith in
                let remainder : (p + k) % 4096 ≡ p % 4096 + k = omega arith in
                rw (quotient, remainder)
                  (get_or-append_left part rest k (omega (arith, len))
                    ∙ get_or-slice c (p % 4096) k block lt)
            | no ge ↦
                let split : k ≡ length part + (k - c) = omega (arith, len) in
                let moved : p + c + (k - c) ≡ p + k = omega arith in
                ap (λ (j : ℕ). get_or (part ++ rest) j 0) split
                ∙ get_or-append_right part rest (k - c)
                ∙ S.content (k - c) (omega arith)
                ∙ ap
                    (λ (j : ℕ).
                      get_or (block_of A D L v (pointer_of A D L v inode (j / 4096))) (j % 4096) 0)
                    moved
          ];
        }

    read_rounds_lem :
        (rounds : ℕ) (inode : Inode) (offset len completed : ℕ) (bytes : List ℕ)
        → IsIntact A D L v inode
        → offset + len ≤ inode.size
        → completed ≤ len
        → len ≤ completed + rounds
        → (out : List ℕ) × (bytes' : List ℕ) × (read_rounds A L rounds inode offset len completed
              (with_buffer A D L v M bytes)
            ≡ ok out (with_buffer A D L v M bytes'))
          × Shows inode (offset + completed) (len - completed) out
    unfolding read_rounds block_of
    read_rounds_lem zero inode offset len completed bytes I fits le enough =
        ([], bytes, refl, record { count = omega arith; content = λ k h. absurd (omega arith) })
    read_rounds_lem (suc n) inode offset len completed bytes I fits le enough =
        elim (Bool-cases (leb len completed)) [
          | inl done ↦ (
            [],
            bytes,
            rw done refl,
            record { count = ground arith; content = λ k h. absurd (ground arith) },
          )
          | inr more ↦
              let bound = I.size_bound in
              let left : completed < len = ground arith in
              let position = add32 offset completed in
              let sum : position ≡ offset + completed = omega arith in
              let space = 4096 - position % 4096 in
              let chunk = if ltb (len - completed) space then len - completed else space in
              let some_bytes : 0 < chunk = ground arith in
              let in_block : position % 4096 + chunk ≤ 4096 = ground arith in
              let no_more : chunk ≤ len - completed = ground arith in
              let (bytes1, located) =
                inode_block_at_lem A D L v M inode (position / 4096) bytes I (omega arith) in
              let used = I.blocks_used (position / 4096) (omega arith) in
              let block = block_of A D L v (pointer_of A D L v inode (position / 4096)) in
              let load =
                read_volume_block_lem A D L (with_buffer A D L v M bytes1)
                  (pointer_of A D L v inode (position / 4096))
                  (IsReady-with_buffer A D L v M bytes1) (used.1) in
              let (rest, bytes2, next, S) =
                read_rounds_lem n inode offset len (completed + chunk) block I fits (omega arith)
                  (omega arith) in
              let S' : Shows inode (position + chunk) (len - completed - chunk) rest = record {
                count = omega (arith, S.count);
                content = λ k h.
                    let same : offset + (completed + chunk) + k ≡ position + chunk + k =
                      omega arith in
                    S.content k (omega arith) ∙ ap (file_byte A D L v inode) same;
              } in
              (
                slice chunk (position % 4096) block ++ rest,
                bytes2,
                rw (more, located, load, next) refl,
                subst
                    (λ (p : ℕ).
                      Shows inode p (len - completed) (slice chunk (position % 4096) block ++ rest))
                    sum (chunk_lem inode position chunk (len - completed) rest in_block no_more S'),
              )
        ]

  read_locked_lem :
      (v : Volume A L) (M : IsMounted A D L v) (number : ℕ) (inode : Inode) (offset len : ℕ)
      → number < v.superblock.total_inodes
      → inode_present A D L v number ≡ true
      → entry_of A D L v number ≡ some inode
      → inode_pointer_shape_valid inode ≡ true
      → (inode.mode == 2) ≡ false
      → IsIntact A D L v inode
      → (out : List ℕ) × (bytes : List ℕ) × (read_locked A L number offset len v
          ≡ ok out (record v { io_block = bytes }))
        × Shows v M inode offset (available inode.size offset len) out
  unfolding read_locked
  read_locked_lem v M number inode offset len known present stored shape file I =
      let (w, read, (bytes, e)) = read_inode_internal_lem A D L v number M known in
      let entry : read_inode_internal A L number v ≡ ok inode (record v { io_block = bytes }) =
        read ∙ rw (present, stored, shape, e) refl in
      let wanted = if ltb (inode.size - offset) len then inode.size - offset else len in
      let bound = I.size_bound in
      elim (Bool-cases (leb inode.size offset || len == 0)) [
        | inl nothing ↦ (
          [],
          bytes,
          rw (entry, file, nothing) refl,
          record { count = ground arith; content = λ k h. absurd (ground arith) },
        )
        | inr something ↦
            let same : wanted ≡ available inode.size offset len = ground arith in
            let (out, bytes', done, S) =
              read_rounds_lem v M wanted inode offset wanted 0 bytes I (ground arith) (omega arith)
                (omega arith) in
            let z : offset + 0 ≡ offset = omega arith in
            let n : wanted - 0 ≡ available inode.size offset len = omega (arith, same) in
            (
              out,
              bytes',
              rw (entry, file, something) done,
              subst (λ (p : ℕ). Shows v M inode p (available inode.size offset len) out) z
                  (subst (λ (m : ℕ). Shows v M inode (offset + 0) m out) n S),
            )
      ]

  -- On a mounted file system with a free lock: minifs_read of an inode that is present, has pointers of
  -- the shape of its size, is no directory and whose blocks are all in use returns exactly as many bytes
  -- as the file has from the offset on, up to the length asked for; they are the bytes of the file,
  -- across block boundaries and through the indirect block; and the lock is free again.
  pub minifs_read_lem :
      (fs : FileSystem A L) (number : ℕ) (inode : Inode) (offset len : ℕ)
      → fs.is_mounted ≡ true
      → fs.operation_busy ≡ false
      → IsMounted A D L fs.volume
      → number < fs.volume.superblock.total_inodes
      → inode_present A D L fs.volume number ≡ true
      → entry_of A D L fs.volume number ≡ some inode
      → inode_pointer_shape_valid inode ≡ true
      → (inode.mode == 2) ≡ false
      → IsIntact A D L fs.volume inode
      → (out : List ℕ) × (fs' : FileSystem A L) × (minifs_read A L number offset len fs
          ≡ (pos (available inode.size offset len), out, fs'))
        × (length out ≡ available inode.size offset len)
        × ((k : ℕ)
            → k < available inode.size offset len
            → get_or out k 0 ≡ file_byte A D L fs.volume inode (offset + k))
        × (fs'.operation_busy ≡ false)
  unfolding minifs_read
  minifs_read_lem fs number inode offset len on free M known present stored shape file I =
      let (out, bytes, done, S) =
        read_locked_lem fs.volume M number inode offset len known present stored shape file I in
      let v' : Volume A L = record (fs.volume) { io_block = bytes } in
      let fs' : FileSystem A L = record {
        volume = v';
        is_mounted = true;
        operation_busy = false;
      } in
      (out, fs', rw (on, free, done) (λ i. (pos (S.count i), out, fs')), S.count, S.content, refl)
