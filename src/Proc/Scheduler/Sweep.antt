-- ===== src/Proc/Scheduler/Sweep.antt =====
-- The loops of kernel/proc/scheduler.c that visit slots in order and change those that pass a test.
use native.Mathlib.Decide.{ℕ_discrete}
use mini_orange_os.Proc.Scheduler.Invariant.{Inv}
use mini_orange_os.Prelude.{
  ltb, leb, ◌==◌, if◌then◌else◌, ==_refl, Bool-cases, length, length-set, get_or-set_self,
  get_or-set_ne, ℕ, zero, suc, ◌+◌, ◌≤◌, ◌<◌, ◌≡◌, refl, sym, ap, ◌∙◌, subst, ◌≢◌, inl, inr, Bool,
  true, false, ◌&&◌, arith,
}
use mini_orange_os.Proc.Process.{Process, cleared, process_limit, running}
use mini_orange_os.Proc.Scheduler.{Scheduler, process_at, put, state_at}

module _ (test : ℕ → Process → Bool) (change : Process → Process) where
  abbrev pub visit : ℕ → Scheduler → Scheduler
  visit i s = if test i (process_at s i) then put i (change (process_at s i)) s else s

  unfoldable pub sweep : ℕ → ℕ → Scheduler → Scheduler
  sweep zero i s = s
  sweep (suc n) i s = sweep n (i + 1) (visit i s)

  -- The process of slot `j` where it was visited or not.
  abbrev pub changed : Bool → ℕ → Process → Process
  changed visited j p = if visited && test j p then change p else p

  visit_self :
      (s : Scheduler) (i : ℕ)
      → i < length s.process_table
      → process_at (visit i s) i ≡ changed true i (process_at s i)
  visit_self s i h = elim (Bool-cases (test i (process_at s i))) [
    | inl y ↦ rw y (get_or-set_self s.process_table i (change (process_at s i)) cleared h)
    | inr x ↦ rw x refl
  ]

  visit_ne : (s : Scheduler) (i j : ℕ) → i ≢ j → process_at (visit i s) j ≡ process_at s j
  visit_ne s i j ne = elim (Bool-cases (test i (process_at s i))) [
    | inl y ↦ rw y (get_or-set_ne s.process_table i j (change (process_at s i)) cleared ne)
    | inr x ↦ rw x refl
  ]

  pub visit_lem :
      (s : Scheduler) (i j : ℕ)
      → i < length s.process_table
      → process_at (visit i s) j ≡ changed (i == j) j (process_at s j)
  visit_lem s i j h = elim (ℕ_discrete i j) [
    | yes e ↦
        subst (λ x. process_at (visit i s) x ≡ changed (i == x) x (process_at s x)) e
          (rw (==_refl i) (visit_self s i h))
    | no ne ↦ let f : (i == j) ≡ false = ground arith in rw f (visit_ne s i j ne)
  ]

  pub length-visit :
      (s : Scheduler) (i : ℕ) → length (visit i s).process_table ≡ length s.process_table
  length-visit s i = elim (Bool-cases (test i (process_at s i))) [
    | inl y ↦ rw y (length-set s.process_table i (change (process_at s i)))
    | inr x ↦ rw x refl
  ]

  -- One slot more in the range.
  changed_range :
      (i n j : ℕ) (p : Process)
      → changed (leb (i + 1) j && ltb j (i + 1 + n)) j (changed (i == j) j p)
        ≡ changed (leb i j && ltb j (i + suc n)) j p
  changed_range i n j p = elim (Bool-cases (i == j)) [
    | inl e ↦
        let outside : leb (i + 1) j && ltb j (i + 1 + n) ≡ false = ground arith in
        let within : leb i j && ltb j (i + suc n) ≡ true = ground arith in
        rw (e, outside, within) refl
    | inr ne ↦
        let same : leb (i + 1) j && ltb j (i + 1 + n) ≡ leb i j && ltb j (i + suc n) =
          ground arith in
        rw (ne, same) refl
  ]

  -- A sweep changes each slot of its range that passes the test, and no other.
  pub sweep_lem :
      (n i : ℕ) (s : Scheduler) (j : ℕ)
      → i + n ≤ length s.process_table
      → process_at (sweep n i s) j ≡ changed (leb i j && ltb j (i + n)) j (process_at s j)
  unfolding sweep
  sweep_lem zero i s j h = let out : leb i j && ltb j (i + 0) ≡ false = ground arith in rw out refl
  sweep_lem (suc n) i s j h =
      sweep_lem n (i + 1) (visit i s) j (omega (arith, length-visit s i))
      ∙ ap (changed (leb (i + 1) j && ltb j (i + 1 + n)) j) (visit_lem s i j (omega arith))
      ∙ changed_range i n j (process_at s j)

  pub length-sweep :
      (n i : ℕ) (s : Scheduler) → length (sweep n i s).process_table ≡ length s.process_table
  unfolding sweep
  length-sweep zero i s = refl
  length-sweep (suc n) i s = length-sweep n (i + 1) (visit i s) ∙ length-visit s i

  pub current-sweep : (n i : ℕ) (s : Scheduler) → (sweep n i s).current ≡ s.current
  unfolding sweep
  current-sweep zero i s = refl
  current-sweep (suc n) i s = current-sweep n (i + 1) (visit i s) ∙ same (test i (process_at s i))
    where
      same : (b : Bool) → (if b then put i (change (process_at s i)) s else s).current ≡ s.current
      same true = refl
      same false = refl

  changed_if-state :
      (b : Bool) (p : Process)
      → (change p).state ≢ running
      → (if b then change p else p).state ≡ running
      → p.state ≡ running
  changed_if-state true p stops r = absurd (stops r)
  changed_if-state false p stops r = r

  -- A sweep that passes over the running process and makes none run keeps the invariant.
  pub sweep-Inv :
      (n i : ℕ) (s : Scheduler)
      → i + n ≤ process_limit
      → ((j : ℕ) (p : Process) → p.state ≡ running → test j p ≡ false)
      → ((p : Process) → (change p).state ≢ running)
      → Inv s
      → Inv (sweep n i s)
  sweep-Inv n i s h passes stops v =
      let at : (j : ℕ)
          → process_at (sweep n i s) j ≡ changed (leb i j && ltb j (i + n)) j (process_at s j) =
        λ j. sweep_lem n i s j (omega (arith, h, v.size)) in
      let here = current-sweep n i s in
      record {
        size = length-sweep n i s ∙ v.size;
        current_in = omega (arith, here, v.current_in);
        runs =
            ap (state_at (sweep n i s)) here
            ∙ ap (λ (p : Process). p.state) (at s.current)
            ∙ kept (leb i s.current && ltb s.current (i + n)) s.current (process_at s s.current)
                (passes s.current (process_at s s.current) v.runs) v.runs;
        alone = λ j hj r.
            v.alone j hj (
              changed_if-state (leb i j && ltb j (i + n) && test j (process_at s j))
                (process_at s j) (stops (process_at s j))
                (ap (λ (p : Process). p.state) (sym (at j)) ∙ r))
            ∙ sym here;
      }
    where
      kept :
          (b : Bool) (j : ℕ) (p : Process)
          → test j p ≡ false
          → p.state ≡ running
          → (changed b j p).state ≡ running
      kept true j p untested r = rw untested r
      kept false j p untested r = r
