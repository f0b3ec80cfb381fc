-- ===== src/Fs/MiniFs/Directory/NameBytes.antt =====
-- kernel/fs/minifs.c: the name of an entry, checked and compared byte by byte.
use mini_orange_os.Fs.MiniFs.Bytes.{Outside}
use mini_orange_os.Fs.MiniFs.Directory.{
  write_name, name_bytes_equal, name_bytes_valid, name_character, directory_name_equal,
}
use native.Mathlib.Decide.{ℕ_discrete, dec_lt}
use mini_orange_os.Prelude.{
  ltb, ◌==◌, if◌then◌else◌, ==_iff, ==_refl, length, get_or, set, All, length-set, get_or-set_self,
  get_or-set_ne, ℕ, zero, suc, ◌+◌, ◌≤◌, ◌<◌, ◌≡◌, refl, sym, ◌∙◌, ◌≢◌, Bool, true, false, ◌||◌,
  not, List, [], ◌∷◌, arith,
}

-- A character and a name that may stand in an entry.
abbrev pub IsCharacter : ℕ → Type 0
IsCharacter c = (0 < c) × (c ≤ 0x7F) × (c ≢ 0x2F)

pub record IsName (name : List ℕ) : Type 0 where
  pub proper : 0 < length name
  pub short : length name ≤ 58
  pub characters : All IsCharacter name

pub get_or_beyond : (xs : List ℕ) (i : ℕ) → length xs ≤ i → get_or xs i 0 ≡ 0
get_or_beyond [] i h = refl
get_or_beyond (x ∷ xs) zero h = absurd (omega arith)
get_or_beyond (x ∷ xs) (suc i) h = get_or_beyond xs i (omega arith)

pub IsCharacter-get_or :
    (xs : List ℕ) (i : ℕ) → All IsCharacter xs → i < length xs → IsCharacter (get_or xs i 0)
IsCharacter-get_or [] i h lt = absurd (omega arith)
IsCharacter-get_or (x ∷ xs) zero h lt = h.0
IsCharacter-get_or (x ∷ xs) (suc i) h lt = IsCharacter-get_or xs i h.1 (omega arith)

pub length-write_name :
    (name : List ℕ) (start : ℕ) (block : List ℕ)
    → length (write_name name start block) ≡ length block
unfolding write_name
length-write_name [] start block = refl
length-write_name (c ∷ name) start block =
    length-write_name name (suc start) (set block start c) ∙ length-set block start c

pub get_or-write_name-Outside :
    (name : List ℕ) (start : ℕ) (block : List ℕ) (i : ℕ)
    → Outside i start (length name)
    → get_or (write_name name start block) i 0 ≡ get_or block i 0
unfolding write_name
get_or-write_name-Outside [] start block i out = refl
get_or-write_name-Outside (c ∷ name) start block i out =
    get_or-write_name-Outside name (suc start) (set block start c) i (omega arith)
    ∙ get_or-set_ne block start i c 0 (omega arith)

pub get_or-write_name :
    (name : List ℕ) (start : ℕ) (block : List ℕ) (k : ℕ)
    → start + length name ≤ length block
    → k < length name
    → get_or (write_name name start block) (start + k) 0 ≡ get_or name k 0
unfolding write_name
get_or-write_name [] start block k fits h = absurd (omega arith)
get_or-write_name (c ∷ name) start block zero fits h =
    let z : start + 0 ≡ start = omega arith in
    rw z (
      get_or-write_name-Outside name (suc start) (set block start c) start (omega arith)
      ∙ get_or-set_self block start c 0 (omega arith))
get_or-write_name (c ∷ name) start block (suc k) fits h =
    let z : start + suc k ≡ suc start + k = omega arith in
    rw z (
      get_or-write_name name (suc start) (set block start c) k
        (omega (arith, length-set block start c)) (omega arith))

-- The 59 bytes from `start` on are those of a name, padded with zeros.
abbrev pub Holds : List ℕ → ℕ → List ℕ → Type 0
Holds block start name = (k : ℕ) → k < 59 → get_or block (start + k) 0 ≡ get_or name k 0

pub padding_valid :
    (rounds index : ℕ) (block : List ℕ) (start : ℕ) (name : List ℕ)
    → Holds block start name
    → index + rounds ≤ 59
    → length name ≤ index
    → name_bytes_valid rounds index true block start ≡ true
unfolding name_bytes_valid
padding_valid zero index block start name held hi past = refl
padding_valid (suc n) index block start name held hi past =
    rw (held index (omega arith), get_or_beyond name index past)
      (padding_valid n (suc index) block start name held (omega arith) (omega arith))

pub character_lem : (c : ℕ) → IsCharacter c → ((c == 0) ≡ false) × (name_character c ≡ true)
character_lem c h = ground arith

pub name_valid :
    (rounds index : ℕ) (block : List ℕ) (start : ℕ) (name : List ℕ)
    → Holds block start name
    → IsName name
    → index + rounds ≡ 59
    → index ≤ length name
    → name_bytes_valid rounds index false block start ≡ true
unfolding name_bytes_valid
name_valid zero index block start name held N hi lo = absurd (omega (arith, N.short))
name_valid (suc n) index block start name held N hi lo = elim (ℕ_discrete index (length name)) [
  | yes here ↦
      let proper : (index == 0) ≡ false = ground (arith, N.proper) in
      rw (held index (omega arith), get_or_beyond name index (omega arith), proper)
        (padding_valid n (suc index) block start name held (omega arith) (omega arith))
  | no before ↦
      let (set_, fine) =
        character_lem _ (IsCharacter-get_or name index N.characters (omega arith)) in
      rw (held index (omega arith), set_, fine)
        (name_valid n (suc index) block start name held N (omega arith) (omega arith))
]

pub both : (t r : Bool) → (if t then r else false) ≡ true → (t ≡ true) × (r ≡ true)
both t r h = ground arith

-- The loop of directory_name_equal compares every byte.
pub equal_sound :
    (block : List ℕ) (start : ℕ) (component : List ℕ) (k : ℕ)
    → name_bytes_equal block start component ≡ true
    → k < length component
    → get_or block (start + k) 0 ≡ get_or component k 0
unfolding name_bytes_equal
equal_sound block start [] k h lt = absurd (omega arith)
equal_sound block start (c ∷ component) zero h lt =
    let z : start + 0 ≡ start = omega arith in
    rw z ((==_iff _ _).0 ((both (get_or block start 0 == c) _ h).0))
equal_sound block start (c ∷ component) (suc k) h lt =
    let z : start + suc k ≡ suc start + k = omega arith in
    rw z (
      equal_sound block (suc start) component k ((both (get_or block start 0 == c) _ h).1)
        (omega arith))

pub equal_complete :
    (block : List ℕ) (start : ℕ) (component : List ℕ)
    → ((k : ℕ) → k < length component → get_or block (start + k) 0 ≡ get_or component k 0)
    → name_bytes_equal block start component ≡ true
unfolding name_bytes_equal
equal_complete block start [] h = refl
equal_complete block start (c ∷ component) h =
    let z : start + 0 ≡ start = omega arith in
    let first : get_or block start 0 ≡ c = sym (λ i. get_or block (z i) 0) ∙ h 0 (omega arith) in
    let rest = equal_complete block (suc start) component (λ k lt.
      let y : suc start + k ≡ start + suc k = omega arith in rw y (h (suc k) (omega arith))) in
    rw (first, ==_refl c) rest

-- Two lists of one length with the same elements.
pub same_elements :
    (xs ys : List ℕ)
    → length xs ≡ length ys
    → ((k : ℕ) → k < length xs → get_or xs k 0 ≡ get_or ys k 0)
    → xs ≡ ys
same_elements [] [] e h = refl
same_elements [] (y ∷ ys) e h = absurd (omega arith)
same_elements (x ∷ xs) [] e h = absurd (omega arith)
same_elements (x ∷ xs) (y ∷ ys) e h =
    λ i. h 0 (omega arith) i ∷ same_elements xs ys (omega arith) (λ k lt. h (suc k) (omega arith)) i

pub passed : (u t r : Bool) → (if u || not t then false else r) ≡ true → (t ≡ true) × (r ≡ true)
passed u t r h = ground arith

pub passes :
    (u t r : Bool) → u ≡ false → t ≡ true → r ≡ true → (if u || not t then false else r) ≡ true
passes u t r hu ht hr = ground arith

-- A name on the disk is equal to itself alone.
pub equal_name :
    (block : List ℕ) (start : ℕ) (name component : List ℕ)
    → Holds block start name
    → IsName name
    → IsName component
    → directory_name_equal block start component ≡ true
    → component ≡ name
unfolding directory_name_equal
equal_name block start name component held N C h =
    let n = length component in
    let (end, same) =
      passed (ltb 58 n) (get_or block (start + n) 0 == 0) (name_bytes_equal block start component)
        h in
    let stop : get_or name n 0 ≡ 0 = sym (held n (omega (arith, C.short))) ∙ (==_iff _ _).0 end in
    let agree : (k : ℕ) → k < n → get_or component k 0 ≡ get_or name k 0 =
      λ k lt. sym (equal_sound block start component k same lt) ∙ held k (omega (arith, C.short)) in
    let le : length name ≤ n = elim (dec_lt n (length name)) [
      | yes lt ↦ absurd (omega (arith, stop, (IsCharacter-get_or name n N.characters lt).0))
      | no ge ↦ omega arith
    ] in
    let ge : n ≤ length name = elim (dec_lt (length name) n) [
      | yes lt ↦ absurd (
          omega (
            arith,
            agree (length name) lt,
            get_or_beyond name (length name) (omega arith),
            (IsCharacter-get_or component (length name) C.characters lt).0,
          ))
      | no other ↦ omega arith
    ] in
    same_elements component name (omega arith) agree

pub name_equal :
    (block : List ℕ) (start : ℕ) (name : List ℕ)
    → Holds block start name
    → IsName name
    → directory_name_equal block start name ≡ true
unfolding directory_name_equal
name_equal block start name held N =
    let n = length name in
    let short = N.short in
    passes (ltb 58 n) (get_or block (start + n) 0 == 0) (name_bytes_equal block start name)
      (ground arith) ((==_iff _ _).1 (held n (omega arith) ∙ get_or_beyond name n (omega arith)))
      (equal_complete block start name (λ k lt. held k (omega arith)))
