-- ===== src/Proc/Scheduler/Tick.antt =====
-- scheduler_on_tick: the timer keeps the invariant, and it preempts.
use mini_orange_os.Proc.Scheduler.Step.{tick_current, World, on_tick}
use mini_orange_os.Prelude.{
  ltb, ◌==◌, Bool-cases, set, get_or-set_self, get_or-set_ne, ℕ, ◌+◌, ◌-◌, ◌≤◌, ◌<◌, ◌≡◌, refl, sym,
  ap, ◌∙◌, subst, ◌≢◌, inl, inr, false, ◌||◌, not, some, arith,
}
use mini_orange_os.Proc.Process.{
  Process, running, ready, cleared, process_limit, null_process, is_running,
}
use mini_orange_os.Proc.Scheduler.{
  Scheduler, Kernel, process_at, put, state_at, switched, wake_sleepers, set_state,
}
use mini_orange_os.Proc.Scheduler.Invariant.{Inv, put_current-Inv, switched-Inv}
use mini_orange_os.Proc.Scheduler.Sweep.{sweep-Inv}
use mini_orange_os.Proc.Scheduler.Sleep.{due, woken, wake_sleepers-sweep}
use mini_orange_os.Proc.Scheduler.Yield.{
  next_of_given_up, given_up-Idle, switch_to-Activates, Activates,
}

abbrev pub woken_by : ℕ → Scheduler → Scheduler
woken_by now s = wake_sleepers now (process_limit - 1) 1 s

not_due : (now : ℕ) (p : Process) → p.state ≡ running → due now p ≡ false
not_due now p r = rw r refl

wake_sleepers-Inv : (now : ℕ) (s : Scheduler) → Inv s → Inv (wake_sleepers now 15 1 s)
wake_sleepers-Inv now s v =
    subst Inv (sym (wake_sleepers-sweep now 15 1 s)) (
      sweep-Inv (λ j. due now) woken 15 1 s (omega arith) (λ j p r. not_due now p r) (λ p e. cc e)
        v)

module _ (K : Kernel) where
  -- What one tick does to the current process of `s`, another one being ready.
  pub record Ticked (s : Scheduler) (w : World K) : Type 0 where
    pub valid : Inv w.0
    pub counts :
        1 < (process_at s s.current).time_slice
        → (w.0.current ≡ s.current)
          × (state_at w.0 s.current ≡ running)
          × ((process_at w.0 s.current).time_slice + 1 ≡ (process_at s s.current).time_slice)
    pub preempts :
        (process_at s s.current).time_slice ≤ 1
        → (w.0.current ≢ s.current) × (state_at w.0 s.current ≡ ready)

  counted :
      (s : Scheduler) (k : K.State)
      → Inv s
      → 1 < (process_at s s.current).time_slice
      → Ticked s (
        put s.current
            (record (process_at s s.current) {
              time_slice = (process_at s s.current).time_slice - 1;
            })
            s,
        k,
      )
  counted s k v more =
      let there =
        get_or-set_self s.process_table s.current
          (record (process_at s s.current) { time_slice = (process_at s s.current).time_slice - 1 })
          cleared (omega (arith, v.size, v.current_in)) in
      record {
        valid = put_current-Inv s _ v v.runs;
        counts = λ h. (
          refl,
          ap (λ (p : Process). p.state) there ∙ v.runs,
          omega (arith, ap (λ (p : Process). p.time_slice) there, more),
        );
        preempts = λ h. absurd (omega arith);
      }

  preempted :
      (s : Scheduler) (next : ℕ) (k : K.State)
      → Inv s
      → (process_at s s.current).time_slice ≤ 1
      → next ≢ s.current
      → next < process_limit
      → Ticked s (switched next (set_state s.current ready s), k)
  unfolding switched
  preempted s next k v spent ne hn =
      let p = record (process_at s s.current) { state = ready } in
      record {
        valid = switched-Inv (set_state s.current ready s) next (given_up-Idle s v) hn;
        counts = λ h. absurd (omega arith);
        preempts = λ h. (
          ne,
          ap (λ (p : Process). p.state)
              (get_or-set_ne (set s.process_table s.current p) next s.current _ cleared ne
                ∙ get_or-set_self s.process_table s.current p cleared
                    (omega (arith, v.size, v.current_in))),
        );
      }

  tick_current-Ticked :
      (s : Scheduler) (k : K.State) (i : ℕ)
      → Activates K
      → Inv s
      → i < process_limit
      → state_at s i ≡ ready
      → (w : World K) × (tick_current K (s, k) ≡ some w) × Ticked s w
  unfolding tick_current
  tick_current-Ticked s k i good v hi r =
      let on : s.current == null_process || not (is_running (process_at s s.current).state)
          ≡ false =
        ground (arith, v.current_in, v.runs) in
      elim (Bool-cases (ltb 1 (process_at s s.current).time_slice)) [
        | inl more ↦ (_, rw on (rw more refl), counted s k v (ground (arith, more)))
        | inr spent ↦ elim (next_of_given_up s v) [
          | inl (back, quiet) ↦ absurd (ground (arith, quiet i hi, r))
          | inr (next, (found, ne, near)) ↦
              (let (k', goes) = switch_to-Activates K good next (set_state s.current ready s) k in
                let other : (next == s.current) ≡ false = ground (arith, ne) in
                (
                  _,
                  rw on (rw (spent, found) (rw other goes)),
                  preempted s next k' v (ground (arith, spent)) ne near.in_table,
                ))
        ]
      ]

  -- On a valid state, if the activation of an address space does not fail: when the first loop of
  -- scheduler_on_tick has woken the sleepers that are due and a process is ready, the tick does not
  -- panic and leaves a valid state. While the current process has more than one tick left it keeps
  -- running with one tick less; otherwise it becomes ready and another process is current.
  pub on_tick-Ticked :
      (now : ℕ) (s : Scheduler) (k : K.State) (i : ℕ)
      → Activates K
      → Inv s
      → i < process_limit
      → state_at (woken_by now s) i ≡ ready
      → (w : World K) × (on_tick K now (s, k) ≡ some w) × Ticked (woken_by now s) w
  unfolding on_tick
  on_tick-Ticked now s k i good v hi r =
      tick_current-Ticked (woken_by now s) k i good (wake_sleepers-Inv now s v) hi r
