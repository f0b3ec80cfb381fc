-- ===== src/Fs/MiniFs/Paths.antt =====
-- kernel/fs/minifs.c: paths, and the walk from the root to the inode that a path names. A path is the
-- bytes before its terminator, so that a read behind them finds 0; it is `none` for NULL.
pub mod Scan
use mini_orange_os.Fs.MiniFs.Directory.{directory_find}
use mini_orange_os.Fs.MiniFs.InodeTable.{read_inode_internal}
use mini_orange_os.Errno.{einval, enotdir}
use mini_orange_os.Fs.Interface.{Stat, mode_directory}
use mini_orange_os.Fs.MiniFs.Command.{◌>>=◌, pure, fail, ◌>>◌, refuse_if}
use mini_orange_os.Fs.MiniFs.Volume.{Layout, Action, mounted}
use mini_orange_os.Fs.MiniFs.{name_max, Inode}
use mini_orange_os.Block.{Ata}
use mini_orange_os.Prelude.{
  ltb, leb, ◌==◌, if◌then◌else◌, get_or, ℕ, zero, suc, ◌-◌, Bool, false, ◌&&◌, ◌||◌, not, Option,
  none, some, List, [], ◌∷◌,
}

abbrev pub path_max : ℕ
path_max = 256

-- The loop of bounded_path_length: the first terminator.
unfoldable pub find_terminator : ℕ → ℕ → List ℕ → Option ℕ
find_terminator zero index path = none
find_terminator (suc rounds) index path =
    let rest = find_terminator rounds (suc index) path in
    if get_or path index 0 == 0 then some index else rest

abbrev some_length : Option ℕ → Option ℕ
some_length none = none
some_length (some n) = if n == 0 then none else some n

-- bounded_path_length; `none` is -MINIOS_EINVAL.
unfoldable pub bounded_path_length : Option (List ℕ) → Option ℕ
bounded_path_length none = none
bounded_path_length (some path) =
    if not (get_or path 0 0 == b'/') then none else some_length (find_terminator path_max 0 path)

-- The loop over slashes, with limit - index rounds.
unfoldable pub skip_slashes : ℕ → ℕ → List ℕ → ℕ
skip_slashes zero index path = index
skip_slashes (suc rounds) index path =
    let rest = skip_slashes rounds (suc index) path in
    if get_or path index 0 == b'/' then rest else index

-- The loop over a component; `none` where a byte is not ASCII.
unfoldable pub component_end : ℕ → ℕ → List ℕ → Option ℕ
component_end zero index path = some index
component_end (suc rounds) index path =
    let rest = component_end rounds (suc index) path in
    if get_or path index 0 == b'/'
    then some index
    else if ltb 0x7F (get_or path index 0)
    then none
    else rest

-- The bytes of a component.
unfoldable pub slice : ℕ → ℕ → List ℕ → List ℕ
slice zero index path = []
slice (suc rounds) index path = get_or path index 0 ∷ slice rounds (suc index) path

-- What one round of lookup_locked or of resolve_parent_locked reads of the path from `index` on: no
-- more component, a component and the index behind it, or an error.
pub data Component : Type 0 where
  exhausted : Component
  component : List ℕ → ℕ → Component
  malformed : Component

abbrev component_from : ℕ → Option ℕ → List ℕ → Component
component_from start none path = malformed
component_from start (some end) path =
    if end - start == 0 || ltb name_max (end - start)
    then malformed
    else component (slice (end - start) start path) end

unfoldable pub next_component : ℕ → ℕ → List ℕ → Component
next_component path_length index path =
    let start = skip_slashes (path_length - index) index path in
    if start == path_length
    then exhausted
    else component_from start (component_end (path_length - start) start path) path

-- The tests for the names `.` and `..`.
abbrev pub is_dot : List ℕ → Bool
is_dot (c ∷ []) = c == b'.'
is_dot cs = false

abbrev pub is_dot_dot : List ℕ → Bool
is_dot_dot (c ∷ d ∷ []) = c == b'.' && d == b'.'
is_dot_dot cs = false

module _ (A : Ata) (L : Layout) where
  -- A round of lookup_locked, by the component that it reads; `next` is the rounds after it.
  abbrev pub walk_round : ℕ → (ℕ → ℕ → Action A L ℕ) → Component → Action A L ℕ
  walk_round current next exhausted = pure current
  walk_round current next malformed = fail einval
  walk_round current next (component name end) = do
    directory ← read_inode_internal A L current
    refuse_if (not (directory.mode == mode_directory)) enotdir
    child ← (if is_dot name then pure current else directory_find A L directory name)
    next end child

  -- The loop of lookup_locked. Each round reads a component, so the length of the path is enough fuel.
  unfoldable pub walk : ℕ → ℕ → List ℕ → ℕ → ℕ → Action A L ℕ
  walk zero path_length path index current = pure current
  walk (suc rounds) path_length path index current =
      let body =
        walk_round current (walk rounds path_length path) (next_component path_length index path) in
      if leb path_length index then pure current else body

  -- struct minifs_stat of an inode.
  abbrev pub stat_of : ℕ → Inode → Stat
  stat_of number inode = record {
    inode = number;
    mode = inode.mode;
    link_count = inode.link_count;
    size = inode.size;
  }

  abbrev length_or_fail : Option ℕ → Action A L ℕ
  length_or_fail none = fail einval
  length_or_fail (some n) = pure n

  abbrev path_bytes : Option (List ℕ) → List ℕ
  path_bytes none = []
  path_bytes (some path) = path

  unfoldable pub lookup_locked : Option (List ℕ) → Action A L Stat
  lookup_locked path_or_null = do
    path_length ← length_or_fail (bounded_path_length path_or_null)
    let path = path_bytes path_or_null
    let trailing_slash = ltb 1 path_length && get_or path (path_length - 1) 0 == b'/'
    s ← mounted A L
    current ← walk path_length path_length path 1 s.root_inode
    inode ← read_inode_internal A L current
    refuse_if (trailing_slash && not (inode.mode == mode_directory)) enotdir
    pure (stat_of current inode)

  -- What resolve_parent_locked stores: the directory and the last component.
  pub record Parent : Type 0 where
    pub number : ℕ
    pub directory : Inode
    pub name : List ℕ

  -- Its loop.
  unfoldable pub walk_to_parent : ℕ → ℕ → List ℕ → ℕ → ℕ → Action A L Parent
  walk_to_parent zero path_length path index current = fail einval
  walk_to_parent (suc rounds) path_length path index current =
      let body = elim (next_component path_length index path) as (λ c. Action A L Parent) [
        | exhausted ↦ fail einval
        | malformed ↦ fail einval
        | component name end ↦ (do
          directory ← read_inode_internal A L current
          refuse_if (not (directory.mode == mode_directory)) enotdir
          let next = skip_slashes (path_length - end) end path
          let last = (do
            refuse_if (is_dot name || is_dot_dot name) einval
            pure (record { number = current; directory = directory; name = name }))
          let deeper = (do
            child ← (if is_dot name then pure current else directory_find A L directory name)
            walk_to_parent rounds path_length path next child)
          if next == path_length then last else deeper)
      ] in
      if leb path_length index then fail einval else body

  unfoldable pub resolve_parent_locked : Option (List ℕ) → Action A L Parent
  resolve_parent_locked path_or_null = do
    path_length ← length_or_fail (bounded_path_length path_or_null)
    let path = path_bytes path_or_null
    refuse_if (leb path_length 1 || get_or path (path_length - 1) 0 == b'/') einval
    s ← mounted A L
    walk_to_parent path_length path_length path 1 s.root_inode
