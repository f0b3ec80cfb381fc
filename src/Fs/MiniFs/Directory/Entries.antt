-- ===== src/Fs/MiniFs/Directory/Entries.antt =====
-- kernel/fs/minifs.c: an entry that encode_directory_entry wrote is found under its name alone.
use mini_orange_os.Fs.MiniFs.Directory.NameBytes.{
  IsName, name_valid, get_or-write_name-Outside, equal_name, Holds, name_equal, get_or-write_name,
  get_or_beyond,
}
use mini_orange_os.Fs.MiniFs.Bytes.{
  read_le32, clear_bytes, write_le32, length-clear_bytes, read_le32_cong, length-write_le32,
  get_or-write_le32, read_le32-write_le32, get_or-clear_bytes,
}
use mini_orange_os.Fs.MiniFs.Directory.{
  directory_name_equal, examine_entry, encode_directory_entry, found, directory_name_valid, another,
}
use native.Mathlib.Decide.{dec_lt}
use mini_orange_os.Prelude.{
  leb, ◌==◌, if◌then◌else◌, Bool-cases, length, get_or, set, length-set, get_or-set_self,
  get_or-set_ne, ℕ, ◌+◌, ◌^◌, ◌≤◌, ◌<◌, ◌≡◌, refl, sym, ap, ◌∙◌, ◌≢◌, ◌⊎◌, inl, inr, true, false,
  ◌||◌, not, List, arith,
}

module _ (child kind : ℕ) (name : List ℕ) (start : ℕ) (block : List ℕ)
    (fits : start + 64 ≤ length block) (N : IsName name) where
  entry : List ℕ
  entry = encode_directory_entry child kind name start block

  entry_name : Holds entry (start + 5) name
  unfolding entry encode_directory_entry
  entry_name k h =
      let cleared = clear_bytes block start 64 in
      let with_child = write_le32 cleared start child in
      let typed = set with_child (start + 4) kind in
      let short = N.short in
      let l1 = length-clear_bytes block start 64 in
      let l2 = length-write_le32 cleared start child in
      let l3 = length-set with_child (start + 4) kind in
      elim (dec_lt k (length name)) [
        | yes lt ↦ get_or-write_name name (start + 5) typed k (omega arith) lt
        | no ge ↦
            get_or-write_name-Outside name (start + 5) typed (start + 5 + k) (omega arith)
            ∙ get_or-set_ne with_child (start + 4) (start + 5 + k) kind 0 (omega arith)
            ∙ get_or-write_le32 cleared start child (start + 5 + k) (omega arith)
            ∙ get_or-clear_bytes block start 64 (start + 5 + k) fits (omega arith) (omega arith)
            ∙ sym (get_or_beyond name k (omega arith))
      ]

  entry_kind : get_or entry (start + 4) 0 ≡ kind
  unfolding entry encode_directory_entry
  entry_kind =
      let cleared = clear_bytes block start 64 in
      let with_child = write_le32 cleared start child in
      let l1 = length-clear_bytes block start 64 in
      let l2 = length-write_le32 cleared start child in
      get_or-write_name-Outside name (start + 5) _ (start + 4) (omega arith)
      ∙ get_or-set_self with_child (start + 4) kind 0 (omega arith)

  entry_child : child < 2 ^ 32 → read_le32 entry start ≡ child
  unfolding entry encode_directory_entry
  entry_child small =
      let cleared = clear_bytes block start 64 in
      let with_child = write_le32 cleared start child in
      let l1 = length-clear_bytes block start 64 in
      read_le32_cong _ with_child start start (λ k h.
        get_or-write_name-Outside name (start + 5) _ (start + k) (omega arith)
        ∙ get_or-set_ne with_child (start + 4) (start + k) kind 0 (omega arith))
      ∙ read_le32-write_le32 cleared start child (omega arith) small

  -- The tests of the search on the entry.
  verdict :
      (total_inodes : ℕ) (component : List ℕ)
      → child < total_inodes
      → total_inodes < 2 ^ 32
      → (kind ≡ 1) ⊎ (kind ≡ 2)
      → examine_entry total_inodes entry start component
        ≡ (if directory_name_equal entry (start + 5) component then found else another)
  unfolding examine_entry directory_name_valid
  verdict total_inodes component known small k =
      let valid = name_valid 59 0 entry (start + 5) name entry_name N (omega arith) (omega arith) in
      let used : (kind == 0) ≡ false = ground arith in
      let typed : not (kind == 1 || kind == 2) ≡ false = ground arith in
      let inside : leb total_inodes child ≡ false = ground arith in
      rw (entry_kind, entry_child (omega arith), used, typed, inside, valid) refl

  -- An entry that encode_directory_entry wrote anywhere in a buffer, for an inode of the volume, with
  -- one of the two types and a name of 1 to 58 ASCII characters without a slash, is accepted by the
  -- search of a directory and found under exactly that name.
  pub examine-encode_directory_entry :
      (total_inodes : ℕ) (component : List ℕ)
      → child < total_inodes
      → total_inodes < 2 ^ 32
      → (kind ≡ 1) ⊎ (kind ≡ 2)
      → IsName component
      → ((component ≡ name)
          × (examine_entry total_inodes
                (encode_directory_entry child kind name start block)
                start
                component
              ≡ found))
        ⊎ ((component ≢ name)
            × (examine_entry total_inodes
                  (encode_directory_entry child kind name start block)
                  start
                  component
                ≡ another))
  unfolding entry
  examine-encode_directory_entry total_inodes component known small k C =
      let v = verdict total_inodes component known small k in
      elim (Bool-cases (directory_name_equal entry (start + 5) component)) [
        | inl e ↦ inl (equal_name entry (start + 5) name component entry_name N C e, v ∙ rw e refl)
        | inr ne ↦ inr (
          λ e.
              let contradiction : false ≡ true =
                sym ne
                ∙ ap (λ (c : List ℕ). directory_name_equal entry (start + 5) c) e
                ∙ name_equal entry (start + 5) name entry_name N in
              cc,
          v ∙ rw ne refl,
        )
      ]
