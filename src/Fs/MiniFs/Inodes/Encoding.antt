-- ===== src/Fs/MiniFs/Inodes/Encoding.antt =====
-- kernel/fs/minifs.c: which bytes encode_inode writes.
use mini_orange_os.Mm.Bitmap.Laws.{Bytes}
use mini_orange_os.Fs.MiniFs.Bytes.{
  Outside, length-write_le32, get_or-write_le32, write_le32, read_le32, read_le32_cong,
  read_le32-write_le32, length-write_le16, clear_bytes, get_or-clear_bytes-Outside,
  length-clear_bytes, get_or-write_le16, write_le32-Bytes, write_le16-Bytes, clear_bytes-Bytes,
}
use mini_orange_os.Fs.MiniFs.Inodes.{
  encode_direct, decode_direct, inode_accepted, encode_inode, encode_head,
}
use mini_orange_os.Fs.MiniFs.{Inode, direct_count}
use mini_orange_os.Prelude.{
  length, get_or, All, All-get_or, ℕ, zero, suc, ◌+◌, ◌*◌, ◌^◌, ◌≤◌, ◌<◌, ◌≡◌, refl, ap, ◌∙◌, true,
  List, [], ◌∷◌, arith,
}

-- What a program may store: numbers that fit their fields, ten direct pointers, and what decode_inode
-- asks for.
pub record IsStorable (inode : Inode) : Type 0 where
  pub accepted : inode_accepted inode 0 ≡ true
  pub mode_fits : inode.mode < 2 ^ 16
  pub links_fit : inode.link_count < 2 ^ 16
  pub size_fits : inode.size < 2 ^ 32
  pub direct_length : length inode.direct ≡ direct_count
  pub direct_fit : All (λ x. x < 2 ^ 32) inode.direct
  pub indirect_fits : inode.indirect < 2 ^ 32
  pub created_fits : inode.created_tick < 2 ^ 32
  pub modified_fits : inode.modified_tick < 2 ^ 32

-- The elements of a list from an index on.
pub entries_from : ℕ → ℕ → List ℕ → List ℕ
entries_from zero index xs = []
entries_from (suc n) index xs = get_or xs index 0 ∷ entries_from n (suc index) xs

pub entries_from-tail :
    (n index x : ℕ) (xs : List ℕ) → entries_from n (suc index) (x ∷ xs) ≡ entries_from n index xs
unfolding entries_from
entries_from-tail zero index x xs = refl
entries_from-tail (suc n) index x xs =
    ap (◌∷◌ (get_or xs index 0)) (entries_from-tail n (suc index) x xs)

pub entries_from_all : (n : ℕ) (xs : List ℕ) → length xs ≡ n → entries_from n 0 xs ≡ xs
unfolding entries_from
entries_from_all zero [] e = refl
entries_from_all zero (x ∷ xs) e = absurd (omega arith)
entries_from_all (suc n) [] e = absurd (omega arith)
entries_from_all (suc n) (x ∷ xs) e =
    ap (◌∷◌ x) (entries_from-tail n 0 x xs ∙ entries_from_all n xs (omega arith))

pub length-encode_direct :
    (n index : ℕ) (direct : List ℕ) (start : ℕ) (block : List ℕ)
    → length (encode_direct n index direct start block) ≡ length block
unfolding encode_direct
length-encode_direct zero index direct start block = refl
length-encode_direct (suc n) index direct start block =
    length-encode_direct n (suc index) direct start _
    ∙ length-write_le32 block (start + 8 + index * 4) (get_or direct index 0)

pub get_or-encode_direct :
    (n index : ℕ) (direct : List ℕ) (start : ℕ) (block : List ℕ) (i : ℕ)
    → Outside i (start + 8 + index * 4) (n * 4)
    → get_or (encode_direct n index direct start block) i 0 ≡ get_or block i 0
unfolding encode_direct
get_or-encode_direct zero index direct start block i out = refl
get_or-encode_direct (suc n) index direct start block i out =
    get_or-encode_direct n (suc index) direct start _ i (omega arith)
    ∙ get_or-write_le32 block (start + 8 + index * 4) (get_or direct index 0) i (omega arith)

pub decode_direct-encode_direct :
    (n index : ℕ) (direct : List ℕ) (start : ℕ) (block : List ℕ)
    → start + 8 + (index + n) * 4 ≤ length block
    → All (λ x. x < 2 ^ 32) direct
    → decode_direct n index (encode_direct n index direct start block) start
      ≡ entries_from n index direct
unfolding encode_direct decode_direct entries_from
decode_direct-encode_direct zero index direct start block fits small = refl
decode_direct-encode_direct (suc n) index direct start block fits small =
    let o = start + 8 + index * 4 in
    let v = get_or direct index 0 in
    let b1 = write_le32 block o v in
    let l = length-write_le32 block o v in
    let head : read_le32 (encode_direct n (suc index) direct start b1) o ≡ v =
      read_le32_cong _ b1 o o
        (λ k h. get_or-encode_direct n (suc index) direct start b1 (o + k) (omega arith))
      ∙ read_le32-write_le32 block o v (omega arith)
          (All-get_or (λ x. x < 2 ^ 32) direct index 0 (omega arith) small) in
    λ i.
      head i ∷ decode_direct-encode_direct n (suc index) direct start b1 (omega (arith, l)) small i

pub length-encode_head :
    (inode : Inode) (start : ℕ) (block : List ℕ)
    → length (encode_head inode start block) ≡ length block
unfolding encode_head
length-encode_head inode start block =
    length-write_le32 _ (start + 4) inode.size
    ∙ length-write_le16 _ (start + 2) inode.link_count
    ∙ length-write_le16 _ start inode.mode
    ∙ length-clear_bytes block start 64

pub length-encode_inode :
    (inode : Inode) (start : ℕ) (block : List ℕ)
    → length (encode_inode inode start block) ≡ length block
unfolding encode_inode
length-encode_inode inode start block =
    length-write_le32 _ (start + 56) inode.modified_tick
    ∙ length-write_le32 _ (start + 52) inode.created_tick
    ∙ length-write_le32 _ (start + 48) inode.indirect
    ∙ length-encode_direct 10 0 inode.direct start _
    ∙ length-encode_head inode start block

pub encode_direct-Bytes :
    (n index : ℕ) (direct : List ℕ) (start : ℕ) (block : List ℕ)
    → Bytes block
    → Bytes (encode_direct n index direct start block)
unfolding encode_direct
encode_direct-Bytes zero index direct start block h = h
encode_direct-Bytes (suc n) index direct start block h =
    encode_direct-Bytes n (suc index) direct start _
      (write_le32-Bytes block (start + 8 + index * 4) (get_or direct index 0) h)

pub encode_inode-Bytes :
    (inode : Inode) (start : ℕ) (block : List ℕ)
    → Bytes block
    → Bytes (encode_inode inode start block)
unfolding encode_inode encode_head
encode_inode-Bytes inode start block h = write_le32-Bytes _ (start + 56) inode.modified_tick (
    write_le32-Bytes _ (start + 52) inode.created_tick (
      write_le32-Bytes _ (start + 48) inode.indirect (
        encode_direct-Bytes 10 0 inode.direct start _ (
          write_le32-Bytes _ (start + 4) inode.size (
            write_le16-Bytes _ (start + 2) inode.link_count
              (write_le16-Bytes _ start inode.mode (clear_bytes-Bytes block start 64 h)))))))

-- The writes of the head change its eight bytes and clear the others.
pub get_or-encode_head :
    (inode : Inode) (start : ℕ) (block : List ℕ) (i : ℕ)
    → Outside i start 8
    → get_or (encode_head inode start block) i 0 ≡ get_or (clear_bytes block start 64) i 0
unfolding encode_head
get_or-encode_head inode start block i out =
    get_or-write_le32 _ (start + 4) inode.size i (omega arith)
    ∙ get_or-write_le16 _ (start + 2) inode.link_count i (omega arith)
    ∙ get_or-write_le16 _ start inode.mode i (omega arith)

-- The three writes after the loop change bytes 48 to 59.
pub get_or-encode_inode_tail :
    (inode : Inode) (start : ℕ) (block : List ℕ) (i : ℕ)
    → Outside i (start + 48) 12
    → get_or (encode_inode inode start block) i 0
      ≡ get_or (encode_direct 10 0 inode.direct start (encode_head inode start block)) i 0
unfolding encode_inode
get_or-encode_inode_tail inode start block i out =
    get_or-write_le32 _ (start + 56) inode.modified_tick i (omega arith)
    ∙ get_or-write_le32 _ (start + 52) inode.created_tick i (omega arith)
    ∙ get_or-write_le32 _ (start + 48) inode.indirect i (omega arith)

pub get_or-encode_inode :
    (inode : Inode) (start : ℕ) (block : List ℕ) (i : ℕ)
    → Outside i start 64
    → get_or (encode_inode inode start block) i 0 ≡ get_or block i 0
get_or-encode_inode inode start block i out =
    get_or-encode_inode_tail inode start block i (omega arith)
    ∙ get_or-encode_direct 10 0 inode.direct start _ i (omega arith)
    ∙ get_or-encode_head inode start block i (omega arith)
    ∙ get_or-clear_bytes-Outside block start 64 i out
