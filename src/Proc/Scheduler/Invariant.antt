-- ===== src/Proc/Scheduler/Invariant.antt =====
-- The invariant of the process table: one process runs, and it is the current one. Between the moment
-- where the current process gives up the processor and the switch, nothing runs.
use mini_orange_os.Prelude.{length, ℕ, ◌<◌, ◌≡◌, refl, ◌∙◌, ◌≢◌, arith}
use mini_orange_os.Proc.Process.{Process, running, process_limit}
use mini_orange_os.Proc.Scheduler.{Scheduler, put, state_at, switched}
use mini_orange_os.Proc.Scheduler.Table.{length-put, state_at-put}

pub record Inv (s : Scheduler) : Type 0 where
  pub size : length s.process_table ≡ process_limit
  pub current_in : s.current < process_limit
  pub runs : state_at s s.current ≡ running
  pub alone : (i : ℕ) → i < process_limit → state_at s i ≡ running → i ≡ s.current

-- Nothing runs: the current process has given up the processor.
pub record Idle (s : Scheduler) : Type 0 where
  pub size : length s.process_table ≡ process_limit
  pub current_in : s.current < process_limit
  pub none_runs : (i : ℕ) → i < process_limit → state_at s i ≢ running

-- Giving the processor up.
pub put-Idle : (s : Scheduler) (p : Process) → Inv s → p.state ≢ running → Idle (put s.current p s)
put-Idle s p v stops =
    let inside : s.current < length s.process_table = omega (arith, v.current_in, v.size) in
    record {
      size = length-put s s.current p ∙ v.size;
      current_in = v.current_in;
      none_runs =
          λ i hi r. ground (arith, state_at-put s s.current i p inside, v.alone i hi, stops);
    }

-- Taking it up again.
pub put-Inv-of_Idle :
    (s : Scheduler) (next : ℕ) (p : Process)
    → Idle s
    → next < process_limit
    → p.state ≡ running
    → Inv (record (put next p s) { current = next })
put-Inv-of_Idle s next p v hn r =
    let inside : next < length s.process_table = omega (arith, hn, v.size) in
    record {
      size = length-put s next p ∙ v.size;
      current_in = hn;
      runs = ground (arith, state_at-put s next next p inside);
      alone = λ i hi x. ground (arith, state_at-put s next i p inside, v.none_runs i hi);
    }

pub switched-Inv :
    (s : Scheduler) (next : ℕ) → Idle s → next < process_limit → Inv (switched next s)
unfolding switched
switched-Inv s next v hn = put-Inv-of_Idle s next _ v hn refl

-- A write to another process that does not make it run keeps the invariant.
pub put-Inv :
    (s : Scheduler) (i : ℕ) (p : Process)
    → Inv s
    → i < process_limit
    → i ≢ s.current
    → p.state ≢ running
    → Inv (put i p s)
put-Inv s i p v hi ne stops =
    let inside : i < length s.process_table = omega (arith, hi, v.size) in
    record {
      size = length-put s i p ∙ v.size;
      current_in = v.current_in;
      runs = ground (arith, v.runs, state_at-put s i s.current p inside);
      alone = λ j hj x. ground (arith, state_at-put s i j p inside, v.alone j hj);
    }

pub put_current-Inv :
    (s : Scheduler) (p : Process) → Inv s → p.state ≡ running → Inv (put s.current p s)
put_current-Inv s p v r =
    let inside : s.current < length s.process_table = omega (arith, v.current_in, v.size) in
    record {
      size = length-put s s.current p ∙ v.size;
      current_in = v.current_in;
      runs = ground (arith, state_at-put s s.current s.current p inside);
      alone = λ j hj x. ground (arith, state_at-put s s.current j p inside, v.alone j hj);
    }

pub put-Idle-Idle :
    (s : Scheduler) (i : ℕ) (p : Process)
    → Idle s
    → i < process_limit
    → p.state ≢ running
    → Idle (put i p s)
put-Idle-Idle s i p v hi stops =
    let inside : i < length s.process_table = omega (arith, hi, v.size) in
    record {
      size = length-put s i p ∙ v.size;
      current_in = v.current_in;
      none_runs = λ j hj x. ground (arith, state_at-put s i j p inside, v.none_runs j hj);
    }
