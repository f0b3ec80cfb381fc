-- ===== src/Fs/MiniFs/Paths/Scan.antt =====
-- kernel/fs/minifs.c: what the scan of a path reads, and that it ends.
use mini_orange_os.Fs.MiniFs.Volume.{Layout, Action, Volume}
use mini_orange_os.Block.{Ata}
use mini_orange_os.Fs.MiniFs.Directory.NameBytes.{IsCharacter, IsName}
use mini_orange_os.Fs.MiniFs.Paths.{
  slice, next_component, component_end, find_terminator, skip_slashes, component, Component,
  component_from, malformed, walk, exhausted, walk_round,
}
use native.Mathlib.Decide.{ℕ_discrete}
use mini_orange_os.Prelude.{
  ltb, leb, ◌==◌, if◌then◌else◌, ==_iff, Bool-cases, length, get_or, All, ℕ, zero, suc, ◌+◌, ◌-◌,
  ◌≤◌, ◌<◌, ◌≡◌, refl, sym, ap, ◌∙◌, subst, ◌≢◌, ◌⊎◌, inl, inr, Bool, true, false, ◌||◌, Option,
  none, some, List, arith,
}

-- The terminator is the first zero.
pub find_terminator_lem :
    (rounds index : ℕ) (path : List ℕ) (n : ℕ)
    → find_terminator rounds index path ≡ some n
    → (index ≤ n)
      × (n < index + rounds)
      × (get_or path n 0 ≡ 0)
      × ((k : ℕ) → index ≤ k → k < n → get_or path k 0 ≢ 0)
unfolding find_terminator
find_terminator_lem zero index path n h = absurd (ground arith)
find_terminator_lem (suc rounds) index path n h = elim (Bool-cases (get_or path index 0 == 0)) [
  | inl z ↦
      let e : index ≡ n = ground arith in
      (omega arith, omega arith, rw (← e) ((==_iff _ _).0 z), λ k lo hi. absurd (omega arith))
  | inr nz ↦
      let (lo, hi, terminator, before) =
        find_terminator_lem rounds (suc index) path n (ground arith) in
      (
        omega arith,
        omega arith,
        terminator,
        λ k low high. elim (ℕ_discrete k index) [
          | yes e ↦ rw e (λ bad. ground arith)
          | no ne ↦ before k (omega arith) high
        ],
      )
]

skip_slashes_lem :
    (rounds index : ℕ) (path : List ℕ)
    → (index ≤ skip_slashes rounds index path)
      × (skip_slashes rounds index path ≤ index + rounds)
      × ((skip_slashes rounds index path ≡ index + rounds)
          ⊎ (get_or path (skip_slashes rounds index path) 0 ≢ 0x2F))
unfolding skip_slashes
skip_slashes_lem zero index path = (omega arith, omega arith, inl (omega arith))
skip_slashes_lem (suc n) index path = elim (Bool-cases (get_or path index 0 == 0x2F)) [
  | inl slash ↦
      let (lo, hi, stop) = skip_slashes_lem n (suc index) path in
      rw (slash)
        (omega arith, omega arith, elim stop [ inl e ↦ inl (omega arith) | inr ne ↦ inr ne ])
  | inr other ↦ rw other (omega arith, omega arith, inr (λ e. ground arith))
]

-- The characters of a component.
component_end_lem :
    (rounds index : ℕ) (path : List ℕ) (end : ℕ)
    → component_end rounds index path ≡ some end
    → (index ≤ end)
      × (end ≤ index + rounds)
      × ((k : ℕ) → index ≤ k → k < end → (get_or path k 0 ≤ 0x7F) × (get_or path k 0 ≢ 0x2F))
unfolding component_end
component_end_lem zero index path end h =
    let e : index ≡ end = ground arith in
    (omega arith, omega arith, λ k lo hi. absurd (omega arith))
component_end_lem (suc n) index path end h = elim (Bool-cases (get_or path index 0 == 0x2F)) [
  | inl slash ↦
      let e : index ≡ end = ground arith in
      (omega arith, omega arith, λ k lo hi. absurd (omega arith))
  | inr other ↦ elim (Bool-cases (ltb 0x7F (get_or path index 0))) [
    | inl high ↦ absurd (ground arith)
    | inr ascii ↦
        let (lo, hi, chars) = component_end_lem n (suc index) path end (ground arith) in
        (
          omega arith,
          omega arith,
          λ k low top. elim (ℕ_discrete k index) [
            | yes e ↦ rw e (ground arith, λ bad. ground arith)
            | no ne ↦ chars k (omega arith) top
          ],
        )
  ]
]

-- A component is what directory_find takes.
slice_characters :
    (n start : ℕ) (path : List ℕ)
    → ((k : ℕ) → start ≤ k → k < start + n → IsCharacter (get_or path k 0))
    → (length (slice n start path) ≡ n) × All IsCharacter (slice n start path)
unfolding slice
slice_characters zero start path h = (refl, tt)
slice_characters (suc n) start path h =
    let ih = slice_characters n (suc start) path (λ k lo hi. h k (omega arith) (omega arith)) in
    (ap suc ih.0, (h start (omega arith) (omega arith), ih.1))

same_component :
    {name name' : List ℕ} {end end' : ℕ}
    → component name end ≡ component name' end'
    → (name ≡ name') × (end ≡ end')
same_component {name} {end = end} e = (
  ap (λ (c : Component). elim c [ exhausted ↦ name | malformed ↦ name | component n m ↦ n ]) e,
  ap (λ (c : Component). elim c [ exhausted ↦ end | malformed ↦ end | component n m ↦ m ]) e,
)

-- The part of next_component behind the slashes.
component_from_lem :
    (n start : ℕ) (path : List ℕ) (ended : Option ℕ) (name : List ℕ) (end : ℕ)
    → ((k : ℕ) → k < n → get_or path k 0 ≢ 0)
    → start ≤ n
    → component_end (n - start) start path ≡ ended
    → component_from start ended path ≡ component name end
    → (start < end) × (end ≤ n) × IsName name
component_from_lem n start path none name end text inside e h = absurd (ground arith)
component_from_lem n start path (some m) name end text inside e h =
    elim (Bool-cases (m - start == 0 || ltb 58 (m - start))) [
      | inl bad ↦ absurd (ground arith)
      | inr good ↦
          let (lo, hi, chars) = component_end_lem (n - start) start path m e in
          let (same, at_end) =
            same_component
              (sym (not_malformed (m - start == 0 || ltb 58 (m - start)) _ m good) ∙ h) in
          let (len, fine) = slice_characters (m - start) start path (λ k low high.
            let (ascii, no_slash) = chars k low (omega arith) in
            let present = text k (omega arith) in (omega arith, ascii, no_slash)) in
          let proper : 0 < m - start = ground arith in
          let short : m - start ≤ 58 = ground arith in
          (
            omega arith,
            omega arith,
            subst IsName same
                (record { proper = omega arith; short = omega arith; characters = fine }),
          )
    ]
  where
    not_malformed :
        (b : Bool) (c : List ℕ) (m : ℕ)
        → b ≡ false
        → (if b then malformed else component c m) ≡ component c m
    not_malformed b c m e = rw e refl

-- A component that the scan reads of a path without zeros lies behind the index, ends inside the path,
-- and is a name of 1 to 58 ASCII characters without a slash.
pub next_component-IsName :
    (path_length index : ℕ) (path : List ℕ) (name : List ℕ) (end : ℕ)
    → ((k : ℕ) → k < path_length → get_or path k 0 ≢ 0)
    → index < path_length
    → next_component path_length index path ≡ component name end
    → (index < end) × (end ≤ path_length) × IsName name
unfolding next_component
next_component-IsName n index path name end text inside h =
    let start = skip_slashes (n - index) index path in
    let (lo, hi, stop) = skip_slashes_lem (n - index) index path in
    elim (Bool-cases (start == n)) [
      | inl e ↦ absurd (ground arith)
      | inr ne ↦
          let (behind, ends, fine) =
            component_from_lem n start path (component_end (n - start) start path) name end text
              (omega arith) refl (ground arith) in
          (omega arith, ends, fine)
    ]

-- The rounds of lookup_locked: as many as the path has bytes are enough, and more change nothing.
module _ (A : Ata) (L : Layout) (path : List ℕ) (path_length : ℕ)
    (text : (k : ℕ) → k < path_length → get_or path k 0 ≢ 0) where
  Component-cases :
      (c : Component)
      → (c ≡ exhausted)
        ⊎ ((c ≡ malformed) ⊎ ((name : List ℕ) × (end : ℕ) × (c ≡ component name end)))
  Component-cases exhausted = inl refl
  Component-cases malformed = inr (inl refl)
  Component-cases (component name end) = inr (inr (name, end, refl))

  -- A round uses the rounds after it at its own end only.
  round_lem :
      (current : ℕ) (name : List ℕ) (end : ℕ) (next next' : ℕ → ℕ → Action A L ℕ) (v : Volume A L)
      → next end ≡ next' end
      → walk_round A L current next (component name end) v
        ≡ walk_round A L current next' (component name end) v
  round_lem current name end next next' v e =
      λ i. walk_round A L current (λ m. e i) (component name end) v

  -- Along a path whose bytes are not zero, the walk of lookup_locked gives the same result and the same
  -- volume with any two numbers of rounds that are at least the bytes left of the path.
  pub walk_enough :
      (rounds rounds' index current : ℕ) (v : Volume A L)
      → path_length ≤ index + rounds
      → path_length ≤ index + rounds'
      → walk A L rounds path_length path index current v
        ≡ walk A L rounds' path_length path index current v
  unfolding walk
  walk_enough zero zero index current v h h' = refl
  walk_enough zero (suc g) index current v h h' =
      let over : leb path_length index ≡ true = ground arith in rw over refl
  walk_enough (suc f) zero index current v h h' =
      let over : leb path_length index ≡ true = ground arith in rw over refl
  walk_enough (suc f) (suc g) index current v h h' = elim (Bool-cases (leb path_length index)) [
    | inl over ↦ rw over refl
    | inr on ↦ elim (Component-cases (next_component path_length index path)) [
      | inl e ↦ rw (on, e) refl
      | inr (inl e) ↦ rw (on, e) refl
      | inr (inr (name, end, e)) ↦
          let inside : index < path_length = ground arith in
          let (behind, ends, fine) =
            next_component-IsName path_length index path name end text inside e in
          let ih : walk A L f path_length path end ≡ walk A L g path_length path end =
            λ i child w. walk_enough f g end child w (omega arith) (omega arith) i in
          rw (on, e)
            (round_lem current name end (walk A L f path_length path) (walk A L g path_length path)
              v ih)
    ]
  ]
