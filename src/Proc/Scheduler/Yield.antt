-- ===== src/Proc/Scheduler/Yield.antt =====
-- scheduler_yield: what it does, that it keeps the invariant, and that every ready process gets its
-- turn.
use native.Mathlib.Decide.{ℕ_discrete}
use mini_orange_os.Prelude.{
  ◌==◌, if◌then◌else◌, ==_refl, Option-cases, length, set, get_or-set_self, set-set, set-get_or, ℕ,
  zero, suc, ◌≤◌, ◌<◌, ◌≡◌, refl, sym, ap, ◌∙◌, subst, ◌≢◌, ◌⊎◌, inl, inr, true, false, Option,
  none, some, arith,
}
use mini_orange_os.Proc.Process.{
  Process, cleared, ready, running, is_ready, process_limit, default_time_slice,
}
use mini_orange_os.Proc.Scheduler.{
  Scheduler, Kernel, process_at, put, state_at, set_state, find_next_ready, switched,
}
use mini_orange_os.Proc.Scheduler.Step.{World, switch_to, yield_current}
use mini_orange_os.Proc.Scheduler.Table.{
  ahead, NextReady, find_next_ready-some, find_next_ready-none, state_at-put, length-put,
}
use mini_orange_os.Proc.Scheduler.Invariant.{Inv, Idle, put-Idle, switched-Inv}

pub same_result {ℓ κ} :
    {A : Type ℓ} {B : Type κ} (o : Option (A × B)) (a : A) (b : B) (w : A × B)
    → o ≡ some (a, b)
    → o ≡ some w
    → a ≡ w.0
same_result o a b w x y = cc

module _ (s : Scheduler) (v : Inv s) where
  inside : s.current < length s.process_table
  inside = omega (arith, v.current_in, v.size)

  abbrev pub given_up : Scheduler
  given_up = set_state s.current ready s

  taken_back : record (process_at given_up s.current) { state = running } ≡ process_at s s.current
  taken_back =
      ap (λ (p : Process). record p { state = running })
        (get_or-set_self s.process_table s.current
          (record (process_at s s.current) { state = ready }) cleared inside)
      ∙ (λ i. record (process_at s s.current) { state = sym v.runs i })

  -- Giving up the processor and taking it back changes nothing.
  pub stay_same : set_state s.current running given_up ≡ s
  stay_same =
      ap (λ (p : Process). put s.current p given_up) taken_back
      ∙ (λ i. record s { process_table = table i })
    where
      table :
          set
            (set s.process_table s.current (record (process_at s s.current) { state = ready }))
            s.current
            (process_at s s.current)
          ≡ s.process_table
      table = set-set s.process_table s.current _ _ ∙ set-get_or s.process_table s.current cleared

  pub given_up-Idle : Idle given_up
  given_up-Idle = put-Idle s _ v (λ e. cc)

  pub given_up-state :
      (j : ℕ) → state_at given_up j ≡ (if s.current == j then ready else state_at s j)
  given_up-state j = state_at-put s s.current j _ inside

  abbrev pub Quiet : Type 0
  Quiet = (j : ℕ) → j < process_limit → is_ready (state_at s j) ≡ false

  abbrev pub Found : ℕ → Type 0
  Found next =
      (find_next_ready s.current given_up ≡ some next)
      × (next ≢ s.current)
      × NextReady s s.current next

  came_round : find_next_ready s.current given_up ≡ some s.current → Quiet
  came_round found j hj =
      let f = find_next_ready-some given_up s.current s.current v.current_in found in
      ground (arith, f.nearest j hj, given_up-state j, v.runs)

  other_found :
      (next : ℕ)
      → find_next_ready s.current given_up ≡ some next
      → next ≢ s.current
      → NextReady s s.current next
  other_found next found ne =
      let f = find_next_ready-some given_up s.current next v.current_in found in
      record {
        in_table = f.in_table;
        is_next = ground (arith, f.is_next, given_up-state next);
        nearest = λ j hj close. ground (arith, f.nearest j hj close, given_up-state j, v.runs);
      }

  never_none : find_next_ready s.current given_up ≢ none
  never_none e = ground (
    arith,
    find_next_ready-none given_up s.current v.current_in e s.current v.current_in,
    given_up-state s.current,
  )

  -- The search after the current process gave up the processor finds another ready process, or it
  -- comes round to the current one.
  pub next_of_given_up :
      ((find_next_ready s.current given_up ≡ some s.current) × Quiet) ⊎ ((next : ℕ) × Found next)
  next_of_given_up = elim (Option-cases (find_next_ready s.current given_up)) [
    | inl e ↦ absurd (never_none e)
    | inr (next, found) ↦ elim (ℕ_discrete next s.current) [
      | yes e ↦ let back = found ∙ ap some e in inl (back, came_round back)
      | no ne ↦ inr (next, (found, ne, other_found next found ne))
    ]
  ]

module _ (K : Kernel) where
  -- What a switch that does not panic leaves.
  pub switch_to-some :
      (next : ℕ) (s : Scheduler) (k : K.State) (w : World K)
      → switch_to K next (s, k) ≡ some w
      → w.0 ≡ switched next s
  unfolding switch_to
  switch_to-some next s k w e = ground (arith, e)

  pub switch_to-Inv :
      (next : ℕ) (s : Scheduler) (k : K.State) (w : World K)
      → Idle s
      → next < process_limit
      → switch_to K next (s, k) ≡ some w
      → Inv w.0
  switch_to-Inv next s k w v hn e =
      subst Inv (sym (switch_to-some next s k w e)) (switched-Inv s next v hn)

  -- What scheduler_yield does on a valid state: it returns at once with nothing changed if no other
  -- process is ready, and otherwise it makes the current process ready and switches to the ready
  -- process that comes first after it in the table.
  pub yield_current-cases :
      (s : Scheduler) (k : K.State)
      → Inv s
      → ((yield_current K (s, k) ≡ some (s, k))
          × ((j : ℕ) → j < process_limit → is_ready (state_at s j) ≡ false))
        ⊎ ((next : ℕ) × (next ≢ s.current)
            × NextReady s s.current next
            × (yield_current K (s, k) ≡ switch_to K next (set_state s.current ready s, k)))
  unfolding yield_current
  yield_current-cases s k v = elim (next_of_given_up s v) [
    | inl (found, quiet) ↦ inl (
      rw (found, yield_current) (rw (==_refl s.current) (ap (λ x. some (x, k)) (stay_same s v))),
      quiet,
    )
    | inr (next, (found, ne, near)) ↦ inr (next, ne, near, rw (found, yield_current) (ground arith))
  ]

  -- If scheduler_yield on a valid state does not panic, its result is valid: one process runs, and it
  -- is the current one.
  pub yield_current-Inv :
      (s : Scheduler) (k : K.State) (w : World K)
      → Inv s
      → yield_current K (s, k) ≡ some w
      → Inv w.0
  yield_current-Inv s k w v e = elim (yield_current-cases s k v) [
    | inl (stays, quiet) ↦ subst Inv (same_result _ s k w stays e) v
    | inr (next, ne, near, goes) ↦
        switch_to-Inv next _ k w (given_up-Idle s v) near.in_table (sym goes ∙ e)
  ]

  -- `n` calls of scheduler_yield, each by the process that the last one chose.
  unfoldable pub yields : ℕ → World K → Option (World K)
  yields zero w = some w
  yields (suc n) w = elim (yield_current K w) [ none ↦ none | some w' ↦ yields n w' ]

  -- No activation of an address space fails.
  abbrev pub Activates : Type 0
  Activates = (directory : ℕ) (k : K.State) → (K.activate_address_space directory k).0 ≡ true

  pub switch_to-Activates :
      Activates
      → (next : ℕ) (s : Scheduler) (k : K.State)
      → (k' : K.State) × (switch_to K next (s, k) ≡ some (switched next s, k'))
  unfolding switch_to
  switch_to-Activates good next s k = (
    K.gdt_set_kernel_stack (process_at s next).kernel_stack_top
        (K.activate_address_space (process_at s next).page_directory k).1,
    rw (good (process_at s next).page_directory k, switch_to) refl,
  )

  -- One yield towards the ready process `i`.
  pub closer :
      Activates
      → (s : Scheduler) (k : K.State) (i : ℕ) → Inv s
      → i < process_limit
      → state_at s i ≡ ready
      → (next : ℕ) × (k' : K.State) × (yield_current K (s, k)
          ≡ some (switched next (set_state s.current ready s), k'))
        × (next ≢ s.current)
        × NextReady s s.current next
  closer good s k i v hi r = elim (yield_current-cases s k v) [
    | inl (stays, quiet) ↦ absurd (ground (arith, quiet i hi))
    | inr (next, ne, near, goes) ↦
        let (k', moved) = switch_to-Activates good next (set_state s.current ready s) k in
        (next, k', goes ∙ moved, ne, near)
  ]

-- Where the table is searched from next, a process that was not chosen lies nearer.
pub ahead-next :
    (start next i : ℕ)
    → start < 16
    → next < 16
    → i < 16
    → next ≢ i
    → ahead start next ≤ ahead start i
    → ahead next i < ahead start i
ahead-next start next i hs hn hi ne le = ground arith

-- The process that was passed over is ready still.
pub still_ready :
    (s : Scheduler) (next i : ℕ)
    → Inv s
    → next < process_limit
    → next ≢ i
    → state_at s i ≡ ready
    → state_at (switched next (set_state s.current ready s)) i ≡ ready
unfolding switched
still_ready s next i v hn ne r =
    let given = set_state s.current ready s in
    let p = record (process_at given next) { state = running; time_slice = default_time_slice } in
    ground (
      arith,
      v.runs,
      state_at-put s s.current i (record (process_at s s.current) { state = ready }) (inside s v),
      state_at-put given next i p (
          omega (
            arith,
            hn,
            v.size,
            length-put s s.current (record (process_at s s.current) { state = ready }),
          )),
    )
