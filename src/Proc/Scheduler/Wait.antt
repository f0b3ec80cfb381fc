-- ===== src/Proc/Scheduler/Wait.antt =====
-- scheduler_waitpid: an ended child is collected.
use mini_orange_os.Prelude.Search.{find_from-finds, find_from-some}
use mini_orange_os.Proc.Scheduler.Table.{length-put}
use mini_orange_os.Proc.Scheduler.Step.{
  reap_process, World, waitpid, collect, returned, waitpid_round, panicked, Waited,
}
use mini_orange_os.Prelude.{
  ◌==◌, if◌then◌else◌, Bool-cases, length, get_or-set_self, get_or-set_ne, ℕ, ◌≤◌, ◌<◌, ◌≡◌, refl,
  sym, ap, ◌∙◌, ◌≢◌, ◌⊎◌, inl, inr, Bool, true, false, not, some, arith,
}
use mini_orange_os.Prelude.Int.{pos}
use mini_orange_os.Proc.Process.{zombie, process_limit, cleared, null_process, is_zombie}
use mini_orange_os.Proc.Scheduler.{
  Scheduler, Kernel, process_at, put, state_at, find_child, is_child,
}
use mini_orange_os.Proc.Scheduler.Invariant.{Inv}

module _ (K : Kernel) where
  -- The kernel state after the address space of slot `c` was destroyed, if it has one, and whether that
  -- succeeded.
  abbrev pub destruction : Scheduler → K.State → ℕ → Bool × K.State
  destruction s k c =
      if (process_at s c).page_directory == 0
      then (true, k)
      else K.destroy_address_space (process_at s c).page_directory k

  -- The same for the stack, which is released after that.
  abbrev pub stack_release : Scheduler → K.State → ℕ → Bool × K.State
  stack_release s k c = K.kfree (process_at s c).kernel_stack_allocation (destruction s k c).1

  -- A wait that has collected slot `c`: its resources are released and its slot is cleared.
  pub record Collected (s : Scheduler) (k : K.State) (c : ℕ) (w : World K) : Type 0 where
    pub destroyed : (destruction s k c).0 ≡ true
    pub released : (stack_release s k c).0 ≡ true
    pub kernel : w.1 ≡ (stack_release s k c).1
    pub slot_cleared : process_at w.0 c ≡ cleared
    pub others : (j : ℕ) → j ≢ c → process_at w.0 j ≡ process_at s j
    pub same_current : w.0.current ≡ s.current

  -- The address space could not be destroyed, or the heap refused the stack.
  abbrev pub Refused : Scheduler → K.State → ℕ → Type 0
  Refused s k c =
      ((destruction s k c).0 ≡ false)
      ⊎ (((destruction s k c).0 ≡ true) × ((stack_release s k c).0 ≡ false))

  -- The scheduler state before the slot is cleared.
  abbrev unmapped : Scheduler → ℕ → Scheduler
  unmapped s c =
      if (process_at s c).page_directory == 0
      then s
      else put c (record (process_at s c) { page_directory = 0 }) s

  length-unmapped :
      (s : Scheduler) (c : ℕ) → length (unmapped s c).process_table ≡ length s.process_table
  length-unmapped s c = elim (Bool-cases ((process_at s c).page_directory == 0)) [
    | inl y ↦ rw y refl
    | inr x ↦ rw x (length-put s c (record (process_at s c) { page_directory = 0 }))
  ]

  unmapped_ne : (s : Scheduler) (c j : ℕ) → j ≢ c → process_at (unmapped s c) j ≡ process_at s j
  unmapped_ne s c j other = elim (Bool-cases ((process_at s c).page_directory == 0)) [
    | inl y ↦ rw y refl
    | inr x ↦ rw x (
        get_or-set_ne s.process_table c j (record (process_at s c) { page_directory = 0 }) cleared
          (λ e. other (sym e)))
  ]

  unmapped_current : (s : Scheduler) (c : ℕ) → (unmapped s c).current ≡ s.current
  unmapped_current s c = ground arith

  -- reap_process on a zombie with a stack that is not the current process.
  reap_process_lem :
      (s : Scheduler) (k : K.State) (c : ℕ)
      → c < process_limit
      → c ≢ s.current
      → state_at s c ≡ zombie
      → (process_at s c).kernel_stack_allocation ≢ 0
      → reap_process K c (s, k) ≡ (
          if not (destruction s k c).0
          then (false, (s, (destruction s k c).1))
          else if not (stack_release s k c).0
          then (false, (unmapped s c, (stack_release s k c).1))
          else (true, (put c cleared (unmapped s c), (stack_release s k c).1)))
  unfolding reap_process
  reap_process_lem s k c hi ne dead stack =
      let a : (c == null_process) ≡ false = ground (arith, hi) in
      let b : not (is_zombie (state_at s c)) ≡ false = ap (λ z. not (is_zombie z)) dead in
      let d : (c == s.current) ≡ false = ground (arith, ne) in
      let f : ((process_at s c).kernel_stack_allocation == 0) ≡ false = ground (arith, stack) in
      rw (a, b, d, f) refl

  -- The zombie in slot `c` is the only one that a wait for its identifier can find.
  abbrev pub Awaited : Scheduler → ℕ → Type 0
  Awaited s c =
      (is_child s.current (pos (process_at s c).pid) true s c ≡ true)
      × ((j : ℕ)
          → j < process_limit
          → is_child s.current (pos (process_at s c).pid) true s j ≡ true
          → j ≡ c)

  find_child-some :
      (s : Scheduler) (c : ℕ)
      → Awaited s c
      → 1 ≤ c
      → c < process_limit
      → find_child s.current (pos (process_at s c).pid) true s ≡ some c
  unfolding find_child
  find_child-some s c (passes, only) lo hi =
      let f =
        find_from-finds (is_child s.current (pos (process_at s c).pid) true s) 15 1 c lo
          (omega (arith, hi)) passes in
      let g = find_from-some (is_child s.current (pos (process_at s c).pid) true s) 15 1 f.0 f.1 in
      f.1 ∙ ap some (only f.0 (omega (arith, g.upper)) g.passes)

  collect_reaped :
      (s : Scheduler) (k : K.State) (c : ℕ) (ok : Bool) (w : World K)
      → reap_process K c (s, k) ≡ (ok, w)
      → collect K c (s, k) ≡ (
          if ok
          then returned (pos (process_at s c).pid) (some (process_at s c).exit_code) w
          else panicked)
  unfolding collect
  collect_reaped s k c ok w e = rw (e, collect) refl

  -- How scheduler_waitpid ends where it finds the zombie in slot `c`.
  abbrev pub Ended : Scheduler → K.State → ℕ → Waited (World K) → Type 0
  Ended s k c result =
      ((w : World K) × (result
          ≡ returned (pos (process_at s c).pid) (some (process_at s c).exit_code) w)
        × Collected s k c w)
      ⊎ ((result ≡ panicked) × Refused s k c)

  collect-Ended :
      (s : Scheduler) (k : K.State) (c : ℕ)
      → Inv s
      → c < process_limit
      → c ≢ s.current
      → state_at s c ≡ zombie
      → (process_at s c).kernel_stack_allocation ≢ 0
      → Ended s k c (collect K c (s, k))
  collect-Ended s k c v hi ne dead stack =
      let reaped = reap_process_lem s k c hi ne dead stack in
      let s1 = unmapped s c in
      let inside : c < length s1.process_table = omega (arith, hi, v.size, length-unmapped s c) in
      elim (Bool-cases (destruction s k c).0) [
        | inr undestroyed ↦ inr (
          collect_reaped s k c false (s, (destruction s k c).1) (reaped ∙ rw undestroyed refl),
          inl undestroyed,
        )
        | inl destroyed ↦ elim (Bool-cases (stack_release s k c).0) [
          | inr unreleased ↦ inr (
            collect_reaped s k c false (s1, (stack_release s k c).1)
                (reaped ∙ rw (destroyed, unreleased) refl),
            inr (destroyed, unreleased),
          )
          | inl released ↦
              (let w : World K = (put c cleared s1, (stack_release s k c).1) in
                inl (
                  w,
                  collect_reaped s k c true w (reaped ∙ rw (destroyed, released) refl),
                  record {
                    destroyed = destroyed;
                    released = released;
                    kernel = refl;
                    slot_cleared = get_or-set_self s1.process_table c cleared cleared inside;
                    others = λ j other.
                        get_or-set_ne s1.process_table c j cleared cleared (λ e. other (sym e))
                        ∙ unmapped_ne s c j other;
                    same_current = unmapped_current s c;
                  },
                ))
        ]
      ]

  -- On a valid state, for a child in slot `c` that is a zombie with a stack and the only one with its
  -- identifier, which is not 0: scheduler_waitpid for that identifier destroys the child's address
  -- space, if it has one, and then releases its stack. If both succeed it returns at once the identifier
  -- and the child's exit code, the kernel is left as the second left it, the slot is cleared, every
  -- other process is as it was, and the caller keeps the processor. It panics otherwise, and only where
  -- one of the two was refused.
  pub waitpid-Collected :
      (s : Scheduler) (k : K.State) (c : ℕ)
      → Inv s
      → 1 ≤ c
      → c < process_limit
      → c ≢ s.current
      → state_at s c ≡ zombie
      → (process_at s c).kernel_stack_allocation ≢ 0
      → (process_at s c).pid ≢ 0
      → Awaited s c
      → Ended s k c (waitpid K (pos (process_at s c).pid) (s, k))
  unfolding waitpid waitpid_round
  waitpid-Collected s k c v lo hi ne dead stack named awaited =
      let nonzero : not ((process_at s c).pid == 0) ≡ true = ground (arith, named) in
      rw nonzero (
        rw (find_child-some s c awaited lo hi, waitpid_round)
          (collect-Ended s k c v hi ne dead stack))
