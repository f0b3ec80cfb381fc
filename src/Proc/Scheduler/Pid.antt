-- ===== src/Proc/Scheduler/Pid.antt =====
-- allocate_pid: there is always an identifier, and no process has it.
use mini_orange_os.Prelude.{
  ◌==◌, if◌then◌else◌, Bool-cases, Option-cases, length, get_or, add32, ℕ, zero, suc, ◌≤◌, ◌<◌, ◌≡◌,
  refl, subst, ◌≢◌, inl, inr, Bool, true, false, ◌&&◌, ◌||◌, not, none, some, List, [], ◌∷◌, arith,
}
use mini_orange_os.Prelude.Search.{find_from-none, find_from-some, find_from}
use mini_orange_os.Proc.Process.{Process, cleared, process_limit, pid_maximum, is_unused}
use mini_orange_os.Proc.Scheduler.{
  Scheduler, process_at, state_at, allocate_pid, find_process_by_pid, pid_unused,
}

-- The identifier is one of the table's.
taken : ℕ → List Process → Bool
taken c [] = false
taken c (p ∷ ps) = p.pid == c || taken c ps

without : ℕ → List Process → List Process
without c [] = []
without c (p ∷ ps) = let rest = without c ps in if p.pid == c then rest else p ∷ rest

length-without_le : (c : ℕ) (ps : List Process) → length (without c ps) ≤ length ps
unfolding without
length-without_le c [] = omega arith
length-without_le c (p ∷ ps) = ground (arith, length-without_le c ps)

length-without : (c : ℕ) (ps : List Process) → taken c ps ≡ true → length (without c ps) < length ps
unfolding without taken
length-without c [] h = ground (arith, h)
length-without c (p ∷ ps) h = ground (arith, h, length-without c ps, length-without_le c ps)

taken-without :
    (c d : ℕ) (ps : List Process) → c ≢ d → taken c ps ≡ true → taken c (without d ps) ≡ true
unfolding without taken
taken-without c d [] ne h = h
taken-without c d (p ∷ ps) ne h = ground (arith, ne, h, taken-without c d ps ne)

-- A table that has every identifier from 1 to k has k slots or more.
pigeonhole :
    (k : ℕ) (ps : List Process) → ((c : ℕ) → 1 ≤ c → c ≤ k → taken c ps ≡ true) → k ≤ length ps
pigeonhole zero ps all = omega arith
pigeonhole (suc k) ps all =
    let fewer = length-without (suc k) ps (all (suc k) (omega arith) (omega arith)) in
    let rest = pigeonhole k (without (suc k) ps) (λ c lo hi.
      taken-without c (suc k) ps (λ e. omega (arith, e, hi)) (all c lo (omega arith))) in
    omega (arith, fewer, rest)

taken-at : (ps : List Process) (i : ℕ) → i < length ps → taken (get_or ps i cleared).pid ps ≡ true
unfolding taken
taken-at [] i h = absurd (omega arith)
taken-at (p ∷ ps) zero h = ground arith
taken-at (p ∷ ps) (suc i) h = ground (arith, taken-at ps i (omega arith))

used_pid :
    (s : Scheduler) (c : ℕ)
    → length s.process_table ≡ process_limit
    → pid_unused s c ≡ false
    → taken c s.process_table ≡ true
unfolding find_process_by_pid
used_pid s c size used =
    let test = λ (i : ℕ). not (is_unused (state_at s i)) && (process_at s i).pid == c in
    elim (Option-cases (find_from test 16 0)) [
      | inl n ↦ absurd (ground (arith, n, used))
      | inr (i, found) ↦
          (let f = find_from-some test 16 0 i found in
            let same : (process_at s i).pid ≡ c = ground (arith, f.passes) in
            subst (λ x. taken x s.process_table ≡ true) same
              (taken-at s.process_table i (omega (arith, size, f.upper))))
    ]

-- An identifier that is not in use in the table is no process's.
unused_pid :
    (s : Scheduler) (c i : ℕ)
    → pid_unused s c ≡ true
    → i < process_limit
    → is_unused (state_at s i) ≡ false
    → (process_at s i).pid ≢ c
unfolding find_process_by_pid
unused_pid s c i free hi used e =
    let test = λ (i : ℕ). not (is_unused (state_at s i)) && (process_at s i).pid == c in
    elim (Option-cases (find_from test 16 0)) [
      | inl n ↦
          ground (arith, find_from-none test 16 0 n i (omega arith) (omega (arith, hi)), used, e)
      | inr (j, found) ↦ ground (arith, found, free)
    ]

-- While identifiers are handed out in order, those in use are smaller than the next.
pub record IsOrdered (s : Scheduler) : Type 0 where
  pub size : length s.process_table ≡ process_limit
  pub next_bound : s.next_pid ≤ pid_maximum
  pub smaller :
      s.next_pid ≢ 0
      → (i : ℕ) → i < process_limit
      → is_unused (state_at s i) ≡ false
      → (process_at s i).pid < s.next_pid

-- An identifier that no process of the table has.
pub record IsFresh (s : Scheduler) (pid : ℕ) : Type 0 where
  pub lower : 1 ≤ pid
  pub upper : pid ≤ pid_maximum
  pub fresh :
      (i : ℕ) → i < process_limit → is_unused (state_at s i) ≡ false → (process_at s i).pid ≢ pid

some_unused :
    (s : Scheduler)
    → length s.process_table ≡ process_limit
    → find_from (pid_unused s) pid_maximum 1 ≢ none
some_unused s size n =
    let full = pigeonhole 17 s.process_table (λ c lo hi.
      used_pid s c size (find_from-none (pid_unused s) pid_maximum 1 n c lo (omega (arith, hi)))) in
    omega (arith, full, size)

-- On a table of 16 slots where every process has an identifier below the next one, as long as the
-- identifiers have not been exhausted: allocate_pid succeeds, also after they were, with an identifier
-- from 1 to PID_MAXIMUM that no process of the table has.
pub allocate_pid-IsFresh :
    (s : Scheduler)
    → IsOrdered s
    → (pid : ℕ) × (s' : Scheduler) × (allocate_pid s ≡ some (pid, s')) × IsFresh s pid
unfolding allocate_pid
allocate_pid-IsFresh s o = elim (Bool-cases (s.next_pid == 0)) [
  | inr more ↦ (
    s.next_pid,
    record s { next_pid = if s.next_pid == pid_maximum then 0 else add32 s.next_pid 1 },
    rw more refl,
    record {
      lower = ground (arith, more);
      upper = o.next_bound;
      fresh = λ i hi used e. omega (arith, o.smaller (λ z. ground (arith, z, more)) i hi used, e);
    },
  )
  | inl exhausted ↦ elim (Option-cases (find_from (pid_unused s) pid_maximum 1)) [
    | inl n ↦ absurd (some_unused s o.size n)
    | inr (c, found) ↦
        (let f = find_from-some (pid_unused s) pid_maximum 1 c found in
          (
            c,
            s,
            rw exhausted (rw found refl),
            record {
              lower = f.lower;
              upper = omega (arith, f.upper);
              fresh = λ i hi used. unused_pid s c i f.passes hi used;
            },
          ))
  ]
]
