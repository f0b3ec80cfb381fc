-- ===== src/Proc/Scheduler/Fairness.antt =====
-- Round robin: a ready process is reached after at most 15 yields.
use mini_orange_os.Prelude.{ℕ, zero, suc, ◌≤◌, ◌<◌, ◌≡◌, refl, ◌∙◌, some, arith}
use native.Mathlib.Decide.{ℕ_discrete, dec_lt}
use mini_orange_os.Proc.Process.{ready, process_limit}
use mini_orange_os.Proc.Scheduler.{Scheduler, Kernel, state_at, set_state, switched}
use mini_orange_os.Proc.Scheduler.Step.{World, yield_current}
use mini_orange_os.Proc.Scheduler.Table.{ahead, NextReady}
use mini_orange_os.Proc.Scheduler.Invariant.{Inv, switched-Inv}
use mini_orange_os.Proc.Scheduler.Yield.{
  yields, Activates, closer, ahead-next, still_ready, given_up-Idle,
}

module _ (K : Kernel) (good : Activates K) where
  -- `n` yields reach the process `i`.
  abbrev Reaches : ℕ → Scheduler → K.State → ℕ → Type 0
  Reaches n s k i = (w : World K) × (yields K n (s, k) ≡ some w) × (w.0.current ≡ i)

  reach_now :
      (s : Scheduler) (k : K.State) (w : World K)
      → yield_current K (s, k) ≡ some w
      → Reaches 1 s k w.0.current
  unfolding yields
  reach_now s k w e = (w, rw (e, yields) refl, refl)

  reach_later :
      (s : Scheduler) (k : K.State) (w : World K) (n i : ℕ)
      → yield_current K (s, k) ≡ some w
      → Reaches n w.0 w.1 i
      → Reaches (suc n) s k i
  unfolding yields
  reach_later s k w n i e r = (r.0, rw (e, yields) r.1, r.2)

  near_enough :
      (s : Scheduler) (next i : ℕ)
      → NextReady s s.current next
      → i < process_limit
      → state_at s i ≡ ready
      → ahead s.current next ≤ ahead s.current i
  near_enough s next i near hi r = elim (dec_lt (ahead s.current i) (ahead s.current next)) [
    | yes p ↦ absurd (ground (arith, near.nearest i hi p))
    | no p ↦ omega arith
  ]

  -- Within as many yields as `i` lies ahead.
  abbrev Soon : Scheduler → K.State → ℕ → Type 0
  Soon s k i = (n : ℕ) × (n ≤ ahead s.current i) × Reaches n s k i

  advance :
      (s : Scheduler) (k : K.State) (i : ℕ)
      → Inv s
      → i < process_limit
      → state_at s i ≡ ready
      → (next : ℕ) (k' : K.State)
      → yield_current K (s, k) ≡ some (switched next (set_state s.current ready s), k')
      → NextReady s s.current next
      → let s' = switched next (set_state s.current ready s) in
        (Inv s' → state_at s' i ≡ ready → ahead next i < ahead s.current i → Soon s' k' i)
        → Soon s k i
  unfolding switched
  advance s k i v hi r next k' goes near rest = elim (ℕ_discrete next i) [
    | yes e ↦
        let once = reach_now s k _ goes in
        (1, ground (arith, v.current_in), (once.0, once.1, once.2 ∙ e))
    | no other ↦
        let closer_now =
          ahead-next s.current next i v.current_in near.in_table hi other
            (near_enough s next i near hi r) in
        let later =
          rest (switched-Inv _ next (given_up-Idle s v) near.in_table)
            (still_ready s next i v near.in_table other r) closer_now in
        (suc later.0, omega (arith, later.1, closer_now), reach_later s k _ later.0 i goes later.2)
  ]

  reached :
      (fuel : ℕ) (s : Scheduler) (k : K.State) (i : ℕ)
      → Inv s
      → i < process_limit
      → state_at s i ≡ ready
      → ahead s.current i ≤ fuel
      → Soon s k i
  unfolding switched
  reached zero s k i v hi r le = absurd (ground (arith, v.current_in))
  reached (suc fuel) s k i v hi r le =
      let (next, k', goes, ne, near) = closer K good s k i v hi r in
      advance s k i v hi r next k' goes near
        (λ v' r' less. reached fuel _ k' i v' hi r' (omega (arith, less, le)))

  -- If no activation of an address space fails, every ready process of a valid state is the current
  -- one after at most 15 calls of scheduler_yield, none of which panics.
  pub yields-fair :
      (s : Scheduler) (k : K.State) (i : ℕ)
      → Inv s
      → i < process_limit
      → state_at s i ≡ ready
      → (n : ℕ) × (n ≤ 15) × (w : World K) × (yields K n (s, k) ≡ some w) × (w.0.current ≡ i)
  yields-fair s k i v hi r =
      let found = reached 16 s k i v hi r (ground (arith, v.current_in)) in
      (found.0, ground (arith, found.1, v.current_in, v.runs, r), found.2.0, found.2.1, found.2.2)
