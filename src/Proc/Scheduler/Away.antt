-- ===== src/Proc/Scheduler/Away.antt =====
-- kernel/proc/scheduler.c seen from a process that is not running: what its slot holds while the loops
-- and the writes to other slots go on.
use mini_orange_os.Proc.Scheduler.Sweep.{current-sweep, length-sweep, sweep_lem}
use mini_orange_os.Proc.Scheduler.Table.{NextReady, length-put}
use mini_orange_os.Proc.Scheduler.Exit.{waits, wake_parents-sweep, resumed}
use mini_orange_os.Proc.Scheduler.Sleep.{due, wake_sleepers-sweep, woken, wake_sleepers_lem}
use mini_orange_os.Proc.Process.{
  Process, process_limit, null_process, blocked, ready, running, cleared, default_time_slice,
}
use mini_orange_os.Proc.Scheduler.{
  wake_waiting_parent, switched, Scheduler, put, process_at, wake_sleepers, state_at,
}
use mini_orange_os.Prelude.{
  ltb, leb, if◌then◌else◌, length, get_or-set_ne, add32, ℕ, ◌+◌, ◌<◌, ◌≡◌, refl, sym, ap, ◌∙◌,
  subst, ◌≢◌, false, ◌&&◌, arith,
}

-- A process other than the current one, in slot `i`, holds `p`.
pub record Away (i : ℕ) (p : Process) (s : Scheduler) : Type 0 where
  pub size : length s.process_table ≡ process_limit
  pub current_in : s.current < process_limit
  pub elsewhere : s.current ≢ i
  pub slot : process_at s i ≡ p

pub put_current-Away :
    (i : ℕ) (p q : Process) (s : Scheduler) → Away i p s → Away i p (put s.current q s)
put_current-Away i p q s a = record {
  size = length-put s s.current q ∙ a.size;
  current_in = a.current_in;
  elsewhere = a.elsewhere;
  slot = get_or-set_ne s.process_table s.current i q cleared a.elsewhere ∙ a.slot;
}

pub switched-Away :
    (i : ℕ) (p : Process) (s : Scheduler) (next : ℕ)
    → Away i p s
    → next < process_limit
    → next ≢ i
    → Away i p (switched next s)
unfolding switched
switched-Away i p s next a hn ne =
    let q = record (process_at s next) { state = running; time_slice = default_time_slice } in
    record {
      size = length-put s next q ∙ a.size;
      current_in = hn;
      elsewhere = ne;
      slot = get_or-set_ne s.process_table next i q cleared ne ∙ a.slot;
    }

-- A process that is not ready is not the next one.
pub not_next :
    (i : ℕ) (p : Process) (s : Scheduler) (next : ℕ)
    → Away i p s
    → p.state ≢ ready
    → NextReady s s.current next
    → next ≢ i
not_next i p s next a waits near e =
    waits (
      sym (ap (λ (x : Process). x.state) a.slot) ∙ subst (λ j. state_at s j ≡ ready) e near.is_next)

pub woken-Away :
    (i now : ℕ) (p : Process) (s : Scheduler)
    → Away i p s
    → due now p ≡ false
    → Away i p (wake_sleepers now 15 1 s)
woken-Away i now p s a early =
    let same = wake_sleepers-sweep now 15 1 s in
    let current_same = ap (λ x. x.current) same ∙ current-sweep (λ j. due now) woken 15 1 s in
    record {
      size =
          ap (λ x. length x.process_table) same ∙ length-sweep (λ j. due now) woken 15 1 s ∙ a.size;
      current_in = omega (arith, current_same, a.current_in);
      elsewhere = λ e. a.elsewhere (sym current_same ∙ e);
      slot = wake_sleepers_lem now 15 1 s i (omega (arith, a.size)) ∙ ground (arith, a.slot, early);
    }

-- A process that waits for no other is not resumed by the end of the current one.
not_awaited :
    (child parent_pid i : ℕ) (p : Process)
    → child < process_limit
    → i < process_limit
    → p.wait_node ≡ null_process
    → waits child parent_pid i p ≡ false
not_awaited child parent_pid i p hc hi free = ground (arith, hc, hi, free)

pub parents_woken-Away :
    (i : ℕ) (p : Process) (s : Scheduler)
    → i < process_limit
    → Away i p s
    → p.wait_node ≡ null_process
    → Away i p (wake_waiting_parent s.current s)
      × ((wake_waiting_parent s.current s).current ≡ s.current)
unfolding wake_waiting_parent
parents_woken-Away i p s hi a free =
    let pid = (process_at s s.current).parent_pid in
    let same = wake_parents-sweep s.current pid 16 0 s (omega (arith, a.size)) refl in
    let current_same =
      ap (λ x. x.current) same ∙ current-sweep (waits s.current pid) resumed 16 0 s in
    let idle = not_awaited s.current pid i p a.current_in hi free in
    (
      record {
        size =
            ap (λ x. length x.process_table) same
            ∙ length-sweep (waits s.current pid) resumed 16 0 s
            ∙ a.size;
        current_in = omega (arith, current_same, a.current_in);
        elsewhere = λ e. a.elsewhere (sym current_same ∙ e);
        slot =
            ap (λ x. process_at x i) same
            ∙ sweep_lem (waits s.current pid) resumed 16 0 s i (omega (arith, a.size))
            ∙ ap
                (λ x. if leb 0 i && ltb i (0 + 16) && waits s.current pid i x then resumed x else x)
                a.slot
            ∙ (let off : (leb 0 i && ltb i (0 + 16) && waits s.current pid i p) ≡ false =
                  ground (arith, idle) in
                rw off refl);
      },
      current_same,
    )

-- What scheduler_sleep_current writes to the current process.
abbrev pub sleeping : ℕ → ℕ → Process → Process
sleeping ticks now p = record p {
  wake_tick = add32 now ticks;
  wait_node = null_process;
  state = blocked;
}
