-- ===== src/Proc/Scheduler/SleepCall.antt =====
-- scheduler_sleep_current, and the ticks of the timer that follow it.
use mini_orange_os.Proc.Scheduler.Passage.{Passes, Passes-Away}
use mini_orange_os.Proc.Scheduler.Away.{Away, sleeping}
use mini_orange_os.Prelude.{
  ltb, leb, ◌==◌, if◌then◌else◌, Bool-cases, Option-cases, length, get_or-set_self, get_or-set_ne,
  add32, ℕ, suc, ◌^◌, ◌≤◌, ◌<◌, ◌≡◌, refl, ap, ◌∙◌, inl, inr, Bool, true, ◌&&◌, some, arith,
}
use mini_orange_os.Proc.Process.{Process, cleared, blocked, ready, sleep_maximum_ticks}
use mini_orange_os.Proc.Scheduler.{
  Scheduler, Kernel, process_at, put, state_at, find_next_ready, switched, wake_sleepers,
  tick_reached,
}
use mini_orange_os.Proc.Scheduler.Step.{World, switch_to, sleep_current}
use mini_orange_os.Proc.Scheduler.Table.{NextReady, find_next_ready-some}
use mini_orange_os.Proc.Scheduler.Invariant.{Inv, put-Idle}
use mini_orange_os.Proc.Scheduler.Yield.{switch_to-some, switch_to-Inv}
use mini_orange_os.Proc.Scheduler.Sleep.{due, woken, wake_sleepers_lem, tick_reached-add}

abbrev pub asleep : ℕ → ℕ → Scheduler → Scheduler
asleep ticks now s = put s.current (sleeping ticks now (process_at s s.current)) s

-- A slot in the range of the loop is woken when its time has come.
woken_state :
    (n t d : ℕ) (p : Process) (inside : Bool)
    → inside ≡ true
    → tick_reached (add32 t d) (add32 t n) ≡ leb n d
    → (if inside && due (add32 t d) (sleeping n t p)
        then woken (sleeping n t p)
        else sleeping n t p).state
      ≡ (if leb n d then ready else blocked)
woken_state n t d p inside e tick = elim (Bool-cases (leb n d)) [
  | inl y ↦ rw (e, tick, y) refl
  | inr x ↦ rw (e, tick, x) refl
]

switched-current : (next : ℕ) (s : Scheduler) → (switched next s).current ≡ next
unfolding switched
switched-current next s = refl

module _ (K : Kernel) where
  -- A sleep of at least one tick that succeeds has blocked the caller and switched to another process.
  sleep_current-some :
      (ticks now : ℕ) (s : Scheduler) (k : K.State) (w : World K)
      → Inv s
      → 0 < ticks
      → sleep_current K ticks now (s, k) ≡ some (true, w)
      → (next : ℕ) × NextReady s s.current next
        × (ticks ≤ sleep_maximum_ticks)
        × (switch_to K next (asleep ticks now s, k) ≡ some w)
  unfolding sleep_current
  sleep_current-some ticks now s k w v pos e = elim (Bool-cases (ltb sleep_maximum_ticks ticks)) [
    | inl y ↦ absurd (ground arith)
    | inr x ↦ elim (Option-cases (find_next_ready s.current s)) [
      | inl n ↦ absurd (ground arith)
      | inr (next, found) ↦ elim (Option-cases (switch_to K next (asleep ticks now s, k))) [
        | inl n ↦ absurd (ground arith)
        | inr (w', goes) ↦ (
          next,
          find_next_ready-some s s.current next v.current_in found,
          ground arith,
          goes ∙ ap some (ground arith),
        )
      ]
    ]
  ]

  -- The sleeper's slot at the moment of the switch.
  sleeper_slot :
      (ticks now : ℕ) (s : Scheduler) (next : ℕ)
      → Inv s
      → NextReady s s.current next
      → process_at (switched next (asleep ticks now s)) s.current
        ≡ sleeping ticks now (process_at s s.current)
  unfolding switched
  sleeper_slot ticks now s next v near =
      let inside : s.current < length s.process_table = omega (arith, v.current_in, v.size) in
      get_or-set_ne (asleep ticks now s).process_table next s.current _ cleared
        (λ e. ground (arith, e, v.runs, near.is_next))
      ∙ get_or-set_self s.process_table s.current (sleeping ticks now (process_at s s.current))
          cleared inside

  -- A call of scheduler_sleep_current with at least one tick that succeeds on a valid state leaves a
  -- valid state.
  pub sleep_current-Inv :
      (ticks now : ℕ) (s : Scheduler) (k : K.State) (w : World K)
      → Inv s
      → 0 < ticks
      → sleep_current K ticks now (s, k) ≡ some (true, w)
      → Inv w.0
  sleep_current-Inv ticks now s k w v pos e =
      let (next, near, le, goes) = sleep_current-some ticks now s k w v pos e in
      switch_to-Inv K next _ k w (put-Idle s _ v (λ x. cc)) near.in_table goes

  -- The world that a sleep leaves has the sleeper in its slot.
  sleep_current-sleeper :
      (n t : ℕ) (s : Scheduler) (k : K.State) (w : World K)
      → Inv s
      → 0 < n
      → sleep_current K n t (s, k) ≡ some (true, w)
      → (n ≤ sleep_maximum_ticks) × Away s.current (sleeping n t (process_at s s.current)) w.0
  sleep_current-sleeper n t s k w v pos e =
      let (next, near, le, goes) = sleep_current-some n t s k w v pos e in
      let switch = switch_to-some K next _ k w goes in
      let valid = sleep_current-Inv n t s k w v pos e in
      (
        le,
        record {
          size = valid.size;
          current_in = valid.current_in;
          elsewhere = λ same. ground (
            arith,
            ap (λ (x : Scheduler). x.current) switch ∙ switched-current next (asleep n t s),
            same,
            v.runs,
            near.is_next,
            ap (state_at s) same,
          );
          slot = ap (λ x. process_at x s.current) switch ∙ sleeper_slot n t s next v near;
        },
      )

  -- On a valid state a process other than the boot process calls scheduler_sleep_current(n) at the
  -- 32-bit tick `t`, with n > 0, and the call succeeds. Then `d` ticks of the timer pass, fewer than
  -- `n`, each of them a call of scheduler_on_tick, and between them any calls of scheduler_yield,
  -- scheduler_sleep_current and scheduler_exit_current (past vfs_close_all_current) by other
  -- processes, and any other steps that leave the sleeper's slot and the size of the table alone and
  -- the processor with another process. The sleeper is still blocked then, and at the next tick, `t + d + 1` (mod 2^32), the wake-up loop that scheduler_on_tick begins
  -- with makes it ready if d + 1 is `n`, and leaves it blocked otherwise.
  pub sleep_current-wakes :
      (n t d : ℕ) (s : Scheduler) (k : K.State) (w w' : World K)
      → Inv s
      → 1 ≤ s.current
      → 0 < n
      → t < 2 ^ 32
      → sleep_current K n t (s, k) ≡ some (true, w)
      → Passes K s.current t w d w'
      → d < n
      → (state_at w'.0 s.current ≡ blocked)
        × (state_at (wake_sleepers (add32 t (suc d)) 15 1 w'.0) s.current
            ≡ (if suc d == n then ready else blocked))
  sleep_current-wakes n t d s k w w' v boot pos ht e passes hd =
      let p = process_at s s.current in
      let (le, sleeper) = sleep_current-sleeper n t s k w v pos e in
      let a = Passes-Away K n p ht le passes hd v.current_in sleeper in
      let tick =
        wake_sleepers_lem (add32 t (suc d)) 15 1 w'.0 s.current (omega (arith, a.size))
        ∙ ap
            (λ p.
              if leb 1 s.current && ltb s.current 16 && due (add32 t (suc d)) p then woken p else p)
            a.slot in
      let over : leb n (suc d) ≡ (suc d == n) = ground (arith, hd) in
      (
        ap (λ p. p.state) a.slot,
        ap (λ p. p.state) tick
            ∙ woken_state n t (suc d) p (leb 1 s.current && ltb s.current 16)
                (ground (arith, v.current_in))
                (tick_reached-add t n (suc d) ht le (omega (arith, hd)))
            ∙ ap (λ (x : Bool). if x then ready else blocked) over,
      )
