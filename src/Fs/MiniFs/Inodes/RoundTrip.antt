-- ===== src/Fs/MiniFs/Inodes/RoundTrip.antt =====
-- kernel/fs/minifs.c: encode_inode and decode_inode are inverse, and touch 64 bytes only.
use mini_orange_os.Fs.MiniFs.Inodes.Encoding.{
  get_or-encode_inode_tail, IsStorable, length-encode_direct, get_or-encode_direct,
  length-encode_head, get_or-encode_head, decode_direct-encode_direct, entries_from_all,
}
use mini_orange_os.Fs.MiniFs.Bytes.{
  length-write_le32, write_le32, read_le32, read_le32_cong, read_le32-write_le32, read_le32_zero,
  length-write_le16, read_le16_cong, write_le16, clear_bytes, read_le32-write_le32_ne, read_le16,
  get_or-clear_bytes, length-clear_bytes, read_le16-write_le32_ne, read_le16-write_le16,
  read_le16-write_le16_ne,
}
use mini_orange_os.Fs.MiniFs.Inodes.{
  encode_direct, decode_direct, inode_accepted, decode_inode, encode_inode, inode_fields,
  encode_head,
}
use mini_orange_os.Fs.MiniFs.{Inode}
use mini_orange_os.Prelude.{
  if◌then◌else◌, length, get_or, ℕ, zero, suc, ◌+◌, ◌*◌, ◌^◌, ◌≤◌, ◌<◌, ◌≡◌, refl, ◌∙◌, Option,
  none, some, List, ◌∷◌, arith,
}

module _ (inode : Inode) (start : ℕ) (block : List ℕ) (fits : start + 64 ≤ length block) where
  head_mode : inode.mode < 2 ^ 16 → read_le16 (encode_head inode start block) start ≡ inode.mode
  unfolding encode_head
  head_mode small =
      let l = length-clear_bytes block start 64 in
      read_le16-write_le32_ne _ (start + 4) inode.size start (omega arith)
      ∙ read_le16-write_le16_ne _ (start + 2) inode.link_count start (omega arith)
      ∙ read_le16-write_le16 _ start inode.mode (omega (arith, l)) small

  head_links :
      inode.link_count < 2 ^ 16
      → read_le16 (encode_head inode start block) (start + 2) ≡ inode.link_count
  unfolding encode_head
  head_links small =
      let l = length-clear_bytes block start 64 in
      let m = length-write_le16 (clear_bytes block start 64) start inode.mode in
      read_le16-write_le32_ne _ (start + 4) inode.size (start + 2) (omega arith)
      ∙ read_le16-write_le16 _ (start + 2) inode.link_count (omega (arith, l, m)) small

  head_size :
      inode.size < 2 ^ 32 → read_le32 (encode_head inode start block) (start + 4) ≡ inode.size
  unfolding encode_head
  head_size small =
      let w = write_le16 (clear_bytes block start 64) start inode.mode in
      let l = length-clear_bytes block start 64 in
      let m = length-write_le16 (clear_bytes block start 64) start inode.mode in
      let k = length-write_le16 w (start + 2) inode.link_count in
      read_le32-write_le32 _ (start + 4) inode.size (omega (arith, l, m, k)) small

  -- A field of the head is still there at the end.
  kept_head :
      (i : ℕ)
      → i < start + 8
      → get_or (encode_inode inode start block) i 0 ≡ get_or (encode_head inode start block) i 0
  kept_head i h =
      get_or-encode_inode_tail inode start block i (omega arith)
      ∙ get_or-encode_direct 10 0 inode.direct start _ i (omega arith)

  decode_direct_kept :
      (n index : ℕ) (d e : List ℕ)
      → ((i : ℕ) → i < start + 8 + (index + n) * 4 → get_or d i 0 ≡ get_or e i 0)
      → decode_direct n index d start ≡ decode_direct n index e start
  unfolding decode_direct
  decode_direct_kept zero index d e h = refl
  decode_direct_kept (suc n) index d e h =
      let o = start + 8 + index * 4 in
      λ i.
        read_le32_cong d e o o (λ k lt. h (o + k) (omega arith)) i
        ∷ decode_direct_kept n (suc index) d e (λ i lt. h i (omega arith)) i

  direct_back :
      IsStorable inode → decode_direct 10 0 (encode_inode inode start block) start ≡ inode.direct
  direct_back S =
      let l = length-encode_head inode start block in
      decode_direct_kept 10 0 _
        (encode_direct 10 0 inode.direct start (encode_head inode start block))
        (λ i h. get_or-encode_inode_tail inode start block i (omega arith))
      ∙ decode_direct-encode_direct 10 0 inode.direct start _ (omega (arith, l)) S.direct_fit
      ∙ entries_from_all 10 inode.direct S.direct_length

  tail_back :
      IsStorable inode
      → (read_le32 (encode_inode inode start block) (start + 48) ≡ inode.indirect)
        × (read_le32 (encode_inode inode start block) (start + 52) ≡ inode.created_tick)
        × (read_le32 (encode_inode inode start block) (start + 56) ≡ inode.modified_tick)
  unfolding encode_inode
  tail_back S =
      let b0 = encode_direct 10 0 inode.direct start (encode_head inode start block) in
      let b1 = write_le32 b0 (start + 48) inode.indirect in
      let b2 = write_le32 b1 (start + 52) inode.created_tick in
      let l0 =
        length-encode_direct 10 0 inode.direct start (encode_head inode start block)
        ∙ length-encode_head inode start block in
      let l1 = length-write_le32 b0 (start + 48) inode.indirect in
      let l2 = length-write_le32 b1 (start + 52) inode.created_tick in
      (
        read_le32-write_le32_ne b2 (start + 56) inode.modified_tick (start + 48) (omega arith)
            ∙ read_le32-write_le32_ne b1 (start + 52) inode.created_tick (start + 48) (omega arith)
            ∙ read_le32-write_le32 b0 (start + 48) inode.indirect (omega (arith, l0))
                S.indirect_fits,
        read_le32-write_le32_ne b2 (start + 56) inode.modified_tick (start + 52) (omega arith)
            ∙ read_le32-write_le32 b1 (start + 52) inode.created_tick (omega (arith, l0, l1))
                S.created_fits,
        read_le32-write_le32 b2 (start + 56) inode.modified_tick (omega (arith, l0, l1, l2))
            S.modified_fits,
      )

  reserved_zero : read_le32 (encode_inode inode start block) (start + 60) ≡ 0
  reserved_zero = read_le32_zero _ (start + 60) (λ i lo hi.
      get_or-encode_inode_tail inode start block i (omega arith)
      ∙ get_or-encode_direct 10 0 inode.direct start _ i (omega arith)
      ∙ get_or-encode_head inode start block i (omega arith)
      ∙ get_or-clear_bytes block start 64 i fits (omega arith) (omega arith))

  fields_back : IsStorable inode → inode_fields (encode_inode inode start block) start ≡ inode
  unfolding inode_fields
  fields_back S = λ i. record {
    mode =
        (read_le16_cong _ (encode_head inode start block) start start
              (λ k h. kept_head (start + k) (omega arith))
            ∙ head_mode S.mode_fits)
          i;
    link_count =
        (read_le16_cong _ (encode_head inode start block) (start + 2) (start + 2)
              (λ k h. kept_head (start + 2 + k) (omega arith))
            ∙ head_links S.links_fit)
          i;
    size =
        (read_le32_cong _ (encode_head inode start block) (start + 4) (start + 4)
              (λ k h. kept_head (start + 4 + k) (omega arith))
            ∙ head_size S.size_fits)
          i;
    direct = direct_back S i;
    indirect = (tail_back S).0 i;
    created_tick = (tail_back S).1 i;
    modified_tick = (tail_back S).2 i;
  }

  -- An inode that decode_inode may accept and whose fields fit, encoded anywhere in a buffer, is what
  -- decode_inode reads back from there.
  pub decode_inode-encode_inode :
      IsStorable inode → decode_inode (encode_inode inode start block) start ≡ some inode
  unfolding decode_inode
  decode_inode-encode_inode S = rw (fields_back S, reserved_zero, S.accepted) refl

-- What decode_inode depends on: 64 bytes.
module _ (d e : List ℕ) (start : ℕ)
    (same : (i : ℕ) → start ≤ i → i < start + 64 → get_or d i 0 ≡ get_or e i 0) where
  word_same : (o : ℕ) → start ≤ o → o + 4 ≤ start + 64 → read_le32 d o ≡ read_le32 e o
  word_same o lo hi = read_le32_cong d e o o (λ k h. same (o + k) (omega arith) (omega arith))

  half_same : (o : ℕ) → start ≤ o → o + 2 ≤ start + 64 → read_le16 d o ≡ read_le16 e o
  half_same o lo hi = read_le16_cong d e o o (λ k h. same (o + k) (omega arith) (omega arith))

  direct_same :
      (n index : ℕ) → index + n ≤ 14 → decode_direct n index d start ≡ decode_direct n index e start
  unfolding decode_direct
  direct_same zero index h = refl
  direct_same (suc n) index h = λ i.
      word_same (start + 8 + index * 4) (omega arith) (omega arith) i
      ∷ direct_same n (suc index) (omega arith) i

  pub decode_inode_cong : decode_inode d start ≡ decode_inode e start
  unfolding decode_inode inode_fields
  decode_inode_cong = λ i.
      decode (half_same start (omega arith) (omega arith) i)
        (half_same (start + 2) (omega arith) (omega arith) i)
        (word_same (start + 4) (omega arith) (omega arith) i) (direct_same 10 0 (omega arith) i)
        (word_same (start + 48) (omega arith) (omega arith) i)
        (word_same (start + 52) (omega arith) (omega arith) i)
        (word_same (start + 56) (omega arith) (omega arith) i)
        (word_same (start + 60) (omega arith) (omega arith) i)
    where
      decode : ℕ → ℕ → ℕ → List ℕ → ℕ → ℕ → ℕ → ℕ → Option Inode
      decode mode link_count size direct indirect created_tick modified_tick reserved =
          let inode : Inode = record {
            mode = mode;
            link_count = link_count;
            size = size;
            direct = direct;
            indirect = indirect;
            created_tick = created_tick;
            modified_tick = modified_tick;
          } in
          if inode_accepted inode reserved then some inode else none
