-- ===== src/Proc/Scheduler/Others.antt =====
-- The steps of kernel/proc/scheduler.c that run on behalf of other processes, seen from a process that is
-- not ready: the yield, the sleep, the end of another process and the tick.
use mini_orange_os.Proc.Scheduler.Yield.{switch_to-some}
use mini_orange_os.Proc.Scheduler.Sleep.{due}
use mini_orange_os.Proc.Scheduler.Table.{NextReady, find_next_ready-some}
use mini_orange_os.Proc.Scheduler.Away.{
  Away, sleeping, put_current-Away, parents_woken-Away, woken-Away, switched-Away, not_next,
}
use mini_orange_os.Prelude.Int.{ℤ}
use mini_orange_os.Proc.Scheduler.Step.{
  exit_closed, on_tick, tick_current, yield_current, sleep_current, World, and_true, switch_to,
}
use mini_orange_os.Proc.Process.{
  Process, process_limit, ready, null_process, zombie, sleep_maximum_ticks, running,
  default_time_slice, is_running,
}
use mini_orange_os.Proc.Scheduler.{
  Kernel, Scheduler, set_state, put, process_at, find_next_ready, wake_sleepers,
  wake_waiting_parent,
}
use mini_orange_os.Prelude.{
  ltb, ◌==◌, if◌then◌else◌, Bool-cases, Option-cases, ℕ, ◌-◌, ◌<◌, ◌≡◌, sym, subst, ◌≢◌, inl, inr,
  Bool, false, ◌||◌, not, Option, none, some, arith,
}

-- A step that ends in `result`, if it does, leaves the process in slot `i` away with `p` in its slot.
unfoldable pub Stays : (K : Kernel) → ℕ → Process → Option (World K) → Type 0
Stays K i p result = (w : World K) → result ≡ some w → Away i p w.0

module _ (K : Kernel) where
  Stays-some : (i : ℕ) (p : Process) (w : World K) → Away i p w.0 → Stays K i p (some w)
  unfolding Stays
  Stays-some i p w a w' e = let same : w ≡ w' = cc in subst (λ (x : World K). Away i p x.0) same a

  Stays-none : (i : ℕ) (p : Process) → Stays K i p none
  unfolding Stays
  Stays-none i p w e = absurd (cc e)

  Stays-switch_to :
      (i : ℕ) (p : Process) (s : Scheduler) (k : K.State) (next : ℕ)
      → Away i p s
      → p.state ≢ ready
      → NextReady s s.current next
      → Stays K i p (switch_to K next (s, k))
  unfolding Stays
  Stays-switch_to i p s k next a waits near w e =
      subst (Away i p) (sym (switch_to-some K next s k w e))
        (switched-Away i p s next a near.in_table (not_next i p s next a waits near))

  -- The current process is ready again and another one may be switched to, or it goes on.
  Stays-given_up :
      (i : ℕ) (p : Process) (s s' : Scheduler) (k : K.State)
      → Away i p s
      → Away i p s'
      → p.state ≢ ready
      → Stays K i p (elim (find_next_ready s.current (set_state s.current ready s)) [
        | none ↦ some (s', k)
        | some next ↦
            if next == s.current
            then some (s', k)
            else switch_to K next (set_state s.current ready s, k)
      ])
  Stays-given_up i p s s' k a a' waits =
      let waiting = set_state s.current ready s in
      let b = put_current-Away i p (record (process_at s s.current) { state = ready }) s a in
      elim (Option-cases (find_next_ready s.current waiting)) [
        | inl n ↦ rw n (Stays-some i p (s', k) a')
        | inr (next, found) ↦ elim (Bool-cases (next == s.current)) [
          | inl y ↦ rw (found, y) (Stays-some i p (s', k) a')
          | inr x ↦
              rw (found, x)
                (Stays-switch_to i p waiting k next b waits
                  (find_next_ready-some waiting s.current next a.current_in found))
        ]
      ]

  pub Stays-yield_current :
      (i : ℕ) (p : Process) (s : Scheduler) (k : K.State)
      → Away i p s
      → p.state ≢ ready
      → Stays K i p (yield_current K (s, k))
  unfolding yield_current
  Stays-yield_current i p s k a waits =
      let waiting = set_state s.current ready s in
      let b = put_current-Away i p (record (process_at s s.current) { state = ready }) s a in
      let stay =
        put_current-Away i p (record (process_at waiting s.current) { state = running }) waiting
          b in
      Stays-given_up i p s (set_state s.current running waiting) k a stay waits

  Stays-tick_current :
      (i : ℕ) (p : Process) (s : Scheduler) (k : K.State)
      → Away i p s
      → p.state ≢ ready
      → Stays K i p (tick_current K (s, k))
  unfolding tick_current
  Stays-tick_current i p s k a waits =
      let c = process_at s s.current in
      let counted = put_current-Away i p (record c { time_slice = c.time_slice - 1 }) s a in
      let renewed =
        put_current-Away i p (record c { state = running; time_slice = default_time_slice }) s a in
      elim (Bool-cases (s.current == null_process || not (is_running c.state))) [
        | inl off ↦ rw off (Stays-some i p (s, k) a)
        | inr on ↦ elim (Bool-cases (ltb 1 c.time_slice)) [
          | inl more ↦ rw (on, more) (Stays-some i p (_, k) counted)
          | inr spent ↦ rw (on, spent) (Stays-given_up i p s _ k a renewed waits)
        ]
      ]

  pub Stays-on_tick :
      (i now : ℕ) (p : Process) (s : Scheduler) (k : K.State)
      → Away i p s
      → p.state ≢ ready
      → due now p ≡ false
      → Stays K i p (on_tick K now (s, k))
  unfolding on_tick
  Stays-on_tick i now p s k a waits early =
      Stays-tick_current i p (wake_sleepers now 15 1 s) k (woken-Away i now p s a early) waits

  -- What remains of a sleep or a yield that ends in a result.
  Stays-and_true :
      (i : ℕ) (p : Process) (result : Option (World K)) (b : Bool) (w : World K)
      → Stays K i p result
      → and_true K result ≡ some (b, w)
      → Away i p w.0
  unfolding Stays
  Stays-and_true i p none b w stays e = absurd (cc e)
  Stays-and_true i p (some w') b w stays e = stays w (cc e)

  pub sleep_current-Away :
      (i : ℕ) (p : Process) (ticks now : ℕ) (s : Scheduler) (k : K.State) (b : Bool) (w : World K)
      → Away i p s
      → p.state ≢ ready
      → sleep_current K ticks now (s, k) ≡ some (b, w)
      → Away i p w.0
  unfolding sleep_current Stays
  sleep_current-Away i p ticks now s k b w a waits e =
      let asleep = put s.current (sleeping ticks now (process_at s s.current)) s in
      let refused : Path (Option (Bool × World K)) (some (false, (s, k))) (some (b, w))
          → Away i p w.0 =
        λ x.
          let same : Path (World K) (s, k) w = cc x in
          subst (λ (y : World K). Away i p y.0) same a in
      elim (Bool-cases (ticks == 0)) [
        | inl y ↦
            Stays-and_true i p (yield_current K (s, k)) b w (Stays-yield_current i p s k a waits)
              (ground arith)
        | inr x ↦ elim (Bool-cases (ltb sleep_maximum_ticks ticks)) [
          | inl y ↦ refused (ground arith)
          | inr z ↦ elim (Option-cases (find_next_ready s.current s)) [
            | inl n ↦ refused (ground arith)
            | inr (next, found) ↦
                let near = find_next_ready-some s s.current next a.current_in found in
                Stays-and_true i p (switch_to K next (asleep, k)) b w
                  (λ w' goes. subst (Away i p) (sym (switch_to-some K next asleep k w' goes)) (
                    switched-Away i p asleep next
                      (put_current-Away i p (sleeping ticks now (process_at s s.current)) s a)
                      near.in_table (not_next i p s next a waits near)))
                  (ground arith)
          ]
        ]
      ]

  -- The switch to the next process after the current one, none being a panic.
  Stays-next :
      (i : ℕ) (p : Process) (s : Scheduler) (k : K.State) (start : ℕ)
      → Away i p s
      → s.current ≡ start
      → p.state ≢ ready
      → Stays K i p
          (elim (find_next_ready start s) [ none ↦ none | some next ↦ switch_to K next (s, k) ])
  Stays-next i p s k start a same waits =
      let in_table : start < process_limit = omega (arith, same, a.current_in) in
      elim (Option-cases (find_next_ready start s)) [
        | inl n ↦ rw n (Stays-none i p)
        | inr (next, found) ↦ rw found (
            Stays-switch_to i p s k next a waits (
              subst (λ x. NextReady s x next) (sym same)
                (find_next_ready-some s start next in_table found)))
      ]

  -- The end of another process wakes its waiting parent, which a sleeper is not.
  pub Stays-exit_closed :
      (i : ℕ) (p : Process) (code : ℤ) (s : Scheduler) (k : K.State)
      → i < process_limit
      → Away i p s
      → p.state ≢ ready
      → p.wait_node ≡ null_process
      → Stays K i p (exit_closed K code (s, k))
  unfolding exit_closed
  Stays-exit_closed i p code s k hi a waits free =
      let ended =
        put s.current (record (process_at s s.current) { exit_code = code; state = zombie }) s in
      let b =
        put_current-Away i p (record (process_at s s.current) { exit_code = code; state = zombie })
          s a in
      let (c, same) = parents_woken-Away i p ended hi b free in
      Stays-next i p (wake_waiting_parent s.current ended) k s.current c same waits
