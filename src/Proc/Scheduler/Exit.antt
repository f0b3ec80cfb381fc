-- ===== src/Proc/Scheduler/Exit.antt =====
-- scheduler_exit_current: the process becomes a zombie with its code, and its waiting parent wakes.
use mini_orange_os.Proc.Scheduler.Table.{
  length-put, find_next_ready-finds, find_next_ready-some, NextReady,
}
use mini_orange_os.Proc.Scheduler.Yield.{Activates, switch_to-Activates}
use mini_orange_os.Proc.Scheduler.Step.{exit_current, World, switch_to, exit_closed}
use native.Mathlib.Decide.{ℕ_discrete}
use mini_orange_os.Prelude.{
  ltb, leb, ◌==◌, if◌then◌else◌, Bool-cases, length, get_or-set_self, get_or-set_ne, ℕ, zero, suc,
  ◌+◌, ◌≤◌, ◌<◌, ◌≡◌, refl, sym, ap, ◌∙◌, subst, ◌≢◌, ◌⊎◌, inl, inr, Bool, true, false, ◌&&◌, ◌||◌,
  none, some, List, arith,
}
use mini_orange_os.Prelude.Int.{ℤ}
use mini_orange_os.Proc.Process.{
  Process, zombie, running, ready, null_process, is_blocked, process_limit, cleared,
  default_time_slice,
}
use mini_orange_os.Proc.Scheduler.{
  Scheduler, Kernel, process_at, put, state_at, wake_parent, wake_parents, wake_waiting_parent,
  switched, find_next_ready,
}
use mini_orange_os.Proc.Scheduler.Sweep.{
  visit, sweep, changed, length-visit, length-sweep, current-sweep, visit_lem, sweep_lem,
}
use mini_orange_os.Proc.Scheduler.Invariant.{Inv, Idle, put-Idle, put_current-Inv, switched-Inv}

-- The process of slot `j` is blocked in a wait that the end of slot `child` ends, whose parent is the
-- process with the identifier `parent_pid`.
abbrev pub waits : ℕ → ℕ → ℕ → Process → Bool
waits child parent_pid j p =
    is_blocked p.state && p.pid == parent_pid && (p.wait_node == child || p.wait_node == j)

abbrev pub resumed : Process → Process
resumed p = record p { wait_node = null_process; state = ready }

wake_parent-visit :
    (child i : ℕ) (s : Scheduler)
    → wake_parent child i s ≡ visit (waits child (process_at s child).parent_pid) resumed i s
unfolding wake_parent
wake_parent-visit child i s = refl

parent_kept :
    (child parent_pid j : ℕ) (b : Bool) (p : Process)
    → (changed (waits child parent_pid) resumed b j p).parent_pid ≡ p.parent_pid
parent_kept child parent_pid j b p = elim (Bool-cases (b && waits child parent_pid j p)) [
  | inl y ↦ rw y refl
  | inr x ↦ rw x refl
]

pub wake_parents-sweep :
    (child parent_pid n i : ℕ) (s : Scheduler)
    → i + n ≤ length s.process_table
    → (process_at s child).parent_pid ≡ parent_pid
    → wake_parents child n i s ≡ sweep (waits child parent_pid) resumed n i s
unfolding wake_parents sweep
wake_parents-sweep child parent_pid zero i s h e = refl
wake_parents-sweep child parent_pid (suc n) i s h e =
    let same : wake_parent child i s ≡ visit (waits child parent_pid) resumed i s =
      subst (λ x. wake_parent child i s ≡ visit (waits child x) resumed i s) e
        (wake_parent-visit child i s) in
    let size = length-visit (waits child parent_pid) resumed s i in
    let kept : (process_at (visit (waits child parent_pid) resumed i s) child).parent_pid
        ≡ parent_pid =
      ap (λ p. p.parent_pid) (visit_lem (waits child parent_pid) resumed s i child (omega arith))
      ∙ parent_kept child parent_pid child (i == child) (process_at s child)
      ∙ e in
    ap (wake_parents child n (i + 1)) same
    ∙ wake_parents-sweep child parent_pid n (i + 1) (visit (waits child parent_pid) resumed i s)
        (omega (arith, size)) kept

resumed_if-state :
    (b : Bool) (p : Process) → p.state ≢ running → (if b then resumed p else p).state ≢ running
resumed_if-state true p h e = cc e
resumed_if-state false p h e = h e

-- What a sweep over the waiting parents leaves running.
sweep-Idle :
    (child parent_pid : ℕ) (s : Scheduler)
    → Idle s
    → Idle (sweep (waits child parent_pid) resumed 16 0 s)
sweep-Idle child parent_pid s v = record {
  size = length-sweep (waits child parent_pid) resumed 16 0 s ∙ v.size;
  current_in = omega (arith, v.current_in, current-sweep (waits child parent_pid) resumed 16 0 s);
  none_runs = λ i hi r.
      resumed_if-state (leb 0 i && ltb i (0 + 16) && waits child parent_pid i (process_at s i))
        (process_at s i) (v.none_runs i hi)
        (ap (λ p. p.state)
            (sym (sweep_lem (waits child parent_pid) resumed 16 0 s i (omega (arith, v.size))))
          ∙ r);
}

module _ (K : Kernel) (code : ℤ) (s : Scheduler) (k k0 : K.State) (t : List ℕ) where
  -- The current process with its files closed, and as a zombie.
  abbrev pub closed : Scheduler
  closed = put s.current (record (process_at s s.current) { fd_table = t }) s

  abbrev ended : Scheduler
  ended =
      put closed.current
        (record (process_at closed closed.current) { exit_code = code; state = zombie }) closed

  abbrev parents_woken : Scheduler
  parents_woken = sweep (waits s.current (process_at s s.current).parent_pid) resumed 16 0 ended

  closed_there :
      Inv s → process_at closed s.current ≡ record (process_at s s.current) { fd_table = t }
  closed_there v =
      get_or-set_self s.process_table s.current _ cleared (omega (arith, v.size, v.current_in))

  ended-Idle : Inv s → Idle ended
  ended-Idle v =
      put-Idle closed _
        (put_current-Inv s (record (process_at s s.current) { fd_table = t }) v v.runs) (λ e. cc e)

  ended_there :
      Inv s
      → process_at ended s.current
        ≡ record (process_at s s.current) { fd_table = t; exit_code = code; state = zombie }
  ended_there v =
      get_or-set_self closed.process_table s.current _ cleared (
        omega (
          arith,
          v.size,
          v.current_in,
          length-put s s.current (record (process_at s s.current) { fd_table = t }),
        ))
      ∙ ap (λ (p : Process). record p { exit_code = code; state = zombie }) (closed_there v)

  ended_elsewhere : (i : ℕ) → i ≢ s.current → process_at ended i ≡ process_at s i
  ended_elsewhere i ne =
      get_or-set_ne closed.process_table s.current i _ cleared (λ e. ne (sym e))
      ∙ get_or-set_ne s.process_table s.current i _ cleared (λ e. ne (sym e))

  woken_lem : Inv s → wake_waiting_parent s.current ended ≡ parents_woken
  unfolding wake_waiting_parent
  woken_lem v =
      wake_parents-sweep s.current (process_at s s.current).parent_pid 16 0 ended
        (omega (arith, (ended-Idle v).size)) (ap (λ (p : Process). p.parent_pid) (ended_there v))

  woken_at :
      Inv s
      → (i : ℕ) → i < process_limit
      → process_at parents_woken i ≡ (
          if waits s.current (process_at s s.current).parent_pid i (process_at ended i)
          then resumed (process_at ended i)
          else process_at ended i)
  woken_at v i hi =
      let inside : leb 0 i && ltb i (0 + 16) ≡ true = ground arith in
      sweep_lem (waits s.current (process_at s s.current).parent_pid) resumed 16 0 ended i
        (omega (arith, (ended-Idle v).size))
      ∙ rw inside refl

  zombie_there :
      Inv s
      → process_at parents_woken s.current
        ≡ record (process_at s s.current) { fd_table = t; exit_code = code; state = zombie }
  zombie_there v = woken_at v s.current v.current_in ∙ (let e = ended_there v in rw e refl)

  -- The kernel at the end of scheduler_exit_current.
  pub record Exited (i : ℕ) (w : World K) : Type 0 where
    pub valid : Inv w.0
    pub is_zombie : state_at w.0 s.current ≡ zombie
    pub has_code : (process_at w.0 s.current).exit_code ≡ code
    pub parent_wakes : (state_at w.0 i ≡ ready) ⊎ (w.0.current ≡ i)

  exited :
      (i next : ℕ) (k' : K.State)
      → Inv s
      → i < process_limit
      → i ≢ s.current
      → process_at parents_woken i ≡ resumed (process_at s i)
      → NextReady parents_woken s.current next
      → Exited i (switched next parents_woken, k')
  unfolding switched
  exited i next k' v hi ne at_i n =
      let idle = sweep-Idle s.current (process_at s s.current).parent_pid ended (ended-Idle v) in
      let inside : next < length parents_woken.process_table =
        omega (arith, n.in_table, idle.size) in
      let p = record (process_at parents_woken next) {
        state = running;
        time_slice = default_time_slice;
      } in
      let other : next ≢ s.current = λ e. ground (
        arith,
        subst (λ x. state_at parents_woken x ≡ ready) e n.is_next,
        ap (λ (p : Process). p.state) (zombie_there v),
      ) in
      let there : process_at (switched next parents_woken) s.current
          ≡ process_at parents_woken s.current =
        get_or-set_ne parents_woken.process_table next s.current p cleared other in
      record {
        valid = switched-Inv parents_woken next idle n.in_table;
        is_zombie = ap (λ (p : Process). p.state) (there ∙ zombie_there v);
        has_code = ap (λ (p : Process). p.exit_code) (there ∙ zombie_there v);
        parent_wakes = elim (ℕ_discrete next i) [
          | yes e ↦ inr e
          | no apart ↦ inl (
              ap (λ (p : Process). p.state)
                (get_or-set_ne parents_woken.process_table next i p cleared apart ∙ at_i))
        ];
      }

  exit_goes :
      (next : ℕ) (w : World K)
      → Inv s
      → K.vfs_close_all_current s k ≡ (closed, k0)
      → find_next_ready s.current parents_woken ≡ some next
      → switch_to K next (parents_woken, k0) ≡ some w
      → exit_current K code (s, k) ≡ some w
  unfolding exit_current exit_closed
  exit_goes next w v closes found goes =
      ap (exit_closed K code) closes
      ∙ (λ j. elim (find_next_ready s.current (woken_lem v j)) [
        | none ↦ none
        | some n ↦ switch_to K n (woken_lem v j, k0)
      ])
      ∙ rw found goes

  -- On a valid state, if the activation of an address space does not fail and vfs_close_all_current
  -- changes nothing of the scheduler but the descriptors of the caller: when the parent in slot `i` is
  -- blocked in a wait for the caller, or for any child, scheduler_exit_current does not panic; the caller
  -- is then a zombie with the code it gave, the parent is ready or runs, and the state is valid.
  pub exit_current-Exited :
      (i : ℕ)
      → Activates K
      → Inv s
      → K.vfs_close_all_current s k ≡ (closed, k0)
      → i < process_limit
      → i ≢ s.current
      → waits s.current (process_at s s.current).parent_pid i (process_at s i) ≡ true
      → (w : World K) × (exit_current K code (s, k) ≡ some w) × Exited i w
  exit_current-Exited i good v closes hi ne waiting =
      let at_i : process_at parents_woken i ≡ resumed (process_at s i) =
        woken_at v i hi ∙ (let e = ended_elsewhere i ne in rw (e, waiting) refl) in
      let (next, found, near) =
        find_next_ready-finds parents_woken s.current i v.current_in hi (ap (λ p. p.state) at_i) in
      let n = find_next_ready-some parents_woken s.current next v.current_in found in
      let (k', goes) = switch_to-Activates K good next parents_woken k0 in
      (
        (switched next parents_woken, k'),
        exit_goes next (switched next parents_woken, k') v closes found goes,
        exited i next k' v hi ne at_i n,
      )
