-- ===== src/Proc/Scheduler/Table.antt =====
-- Reads and writes of the process table, and the round-robin search through it.
use mini_orange_os.Prelude.{
  ltb, ◌==◌, if◌then◌else◌, ==_iff, ==_refl, Bool-cases, Option-cases, length, length-set,
  get_or-set_self, get_or-set_ne, ℕ, ◌+◌, ◌-◌, ◌%◌, ◌≤◌, ◌<◌, ◌≡◌, refl, sym, ap, ◌∙◌, subst, inl,
  inr, Bool, true, false, none, some, arith,
}
use mini_orange_os.Prelude.Search.{find_from, find_from-some, find_from-none, find_from-finds}
use mini_orange_os.Proc.Process.{
  Process, ProcessState, cleared, unused, new, ready, running, blocked, zombie, reaped, is_ready,
}
use mini_orange_os.Proc.Scheduler.{Scheduler, process_at, put, find_next_ready, state_at, ready_at}

pub process_at-put :
    (s : Scheduler) (i j : ℕ) (p : Process)
    → i < length s.process_table
    → process_at (put i p s) j ≡ (if i == j then p else process_at s j)
process_at-put s i j p h = elim (Bool-cases (i == j)) [
  | inl e ↦ rw (e, ← (==_iff i j).0 e) (get_or-set_self s.process_table i p cleared h)
  | inr ne ↦ rw ne (get_or-set_ne s.process_table i j p cleared (λ e. ground (arith, e, ==_refl i)))
]

pub state_at-put :
    (s : Scheduler) (i j : ℕ) (p : Process)
    → i < length s.process_table
    → state_at (put i p s) j ≡ (if i == j then p.state else state_at s j)
state_at-put s i j p h = ap (λ x. x.state) (process_at-put s i j p h) ∙ if-state (i == j)
  where
    if-state :
        (b : Bool) → (if b then p else process_at s j).state ≡ (if b then p.state else state_at s j)
    if-state true = refl
    if-state false = refl

pub length-put :
    (s : Scheduler) (i : ℕ) (p : Process)
    → length (put i p s).process_table ≡ length s.process_table
length-put s i p = length-set s.process_table i p

-- How far `i` lies behind `start`, going round the table: from 1 to 16.
abbrev pub ahead : ℕ → ℕ → ℕ
ahead start i = if ltb start i then i - start else i + 16 - start

-- What find_next_ready returns: the ready process that comes first after `start`.
pub record NextReady (s : Scheduler) (start next : ℕ) : Type 0 where
  pub in_table : next < 16
  pub is_next : state_at s next ≡ ready
  pub nearest :
      (j : ℕ) → j < 16 → ahead start j < ahead start next → is_ready (state_at s j) ≡ false

is_ready-eq : (x : ProcessState) → is_ready x ≡ true → x ≡ ready
is_ready-eq unused h = cc
is_ready-eq new h = cc
is_ready-eq ready h = refl
is_ready-eq running h = cc
is_ready-eq blocked h = cc
is_ready-eq zombie h = cc
is_ready-eq reaped h = cc

round_trip : (start j : ℕ) → start < 16 → j < 16 → (start + ahead start j) % 16 ≡ j
round_trip start j hs hj = ground arith

ahead-mod :
    (start offset : ℕ)
    → start < 16
    → 1 ≤ offset
    → offset < 17
    → ahead start ((start + offset) % 16) ≡ offset
ahead-mod start offset hs lo hi = ground arith

pub find_next_ready-some :
    (s : Scheduler) (start next : ℕ)
    → start < 16
    → find_next_ready start s ≡ some next
    → NextReady s start next
unfolding find_next_ready
find_next_ready-some s start next hs e = elim (Option-cases (find_from (ready_at s start) 16 1)) [
  | inl n ↦ absurd (ground arith)
  | inr (offset, found) ↦
      let f = find_from-some (ready_at s start) 16 1 offset found in
      let same : (start + offset) % 16 ≡ next = ground arith in
      rw (← same) (record {
        in_table = omega arith;
        is_next = is_ready-eq _ f.passes;
        nearest = λ j hj close.
            subst (λ x. is_ready (state_at s x) ≡ false) (round_trip start j hs hj)
              (f.least (ahead start j) (ground arith)
                (omega (arith, close, ahead-mod start offset hs f.lower f.upper)));
      })
]

pub find_next_ready-none :
    (s : Scheduler) (start : ℕ)
    → start < 16
    → find_next_ready start s ≡ none
    → (j : ℕ) → j < 16
    → is_ready (state_at s j) ≡ false
unfolding find_next_ready
find_next_ready-none s start hs e j hj = elim (Option-cases (find_from (ready_at s start) 16 1)) [
  | inl n ↦
      subst (λ x. is_ready (state_at s x) ≡ false) (round_trip start j hs hj)
        (find_from-none (ready_at s start) 16 1 n (ahead start j) (ground arith) (ground arith))
  | inr (offset, found) ↦ absurd (ground arith)
]

-- A ready process is found, or one that lies nearer.
pub find_next_ready-finds :
    (s : Scheduler) (start j : ℕ)
    → start < 16
    → j < 16
    → state_at s j ≡ ready
    → (next : ℕ) × (find_next_ready start s ≡ some next) × (ahead start next ≤ ahead start j)
unfolding find_next_ready
find_next_ready-finds s start j hs hj r =
    let f = find_from-finds (ready_at s start) 16 1 (ahead start j) (ground arith) (ground arith) (
      subst (λ x. is_ready (state_at s x) ≡ true) (sym (round_trip start j hs hj))
        (ap is_ready r)) in
    let g = find_from-some (ready_at s start) 16 1 f.0 f.1 in
    (
      (start + f.0) % 16,
      rw (f.1, find_next_ready) refl,
      rw (ahead-mod start f.0 hs g.lower (omega (arith, g.upper))) f.2,
    )
