-- ===== src/Proc/Scheduler/Descriptors.antt =====
-- The descriptor table: an installed handle is what a read finds, and removing it restores the table.
use mini_orange_os.Prelude.{
  ◌==◌, Option-cases, length, get_or, set, get_or-set_self, set-set, set-get_or, ℕ, ◌-◌, ◌≤◌, ◌<◌,
  ◌≡◌, ap, ◌∙◌, subst, ◌≢◌, inl, inr, false, arith,
}
use mini_orange_os.Prelude.Int.{pos}
use mini_orange_os.Prelude.Search.{find_from, find_from-some}
use mini_orange_os.Proc.Process.{Process, cleared, process_limit, null_process, process_fd_limit}
use mini_orange_os.Proc.Scheduler.{Scheduler, process_at, put}
use mini_orange_os.Proc.Scheduler.Files.{
  fd_table, put_fd, fd_install, fd_get, fd_remove, fd_refused,
}

-- fd_install that succeeds.
pub record Installed (handle : ℕ) (s : Scheduler) (d : ℕ) (s' : Scheduler) : Type 0 where
  pub lower : 3 ≤ d
  pub upper : d < process_fd_limit
  pub was_free : get_or (fd_table s) d 0 ≡ 0
  pub least : (j : ℕ) → 3 ≤ j → j < d → get_or (fd_table s) j 0 ≢ 0
  pub in_table : (s.current == null_process) ≡ false
  pub written : s' ≡ put_fd d handle s

-- scheduler_fd_install takes the lowest free descriptor from 3 on.
pub fd_install-pos :
    (handle : ℕ) (s s' : Scheduler) (d : ℕ)
    → fd_install handle s ≡ (pos d, s')
    → Installed handle s d s'
unfolding fd_install
fd_install-pos handle s s' d e =
    elim (Option-cases (find_from (λ d. get_or (fd_table s) d 0 == 0) (process_fd_limit - 3) 3)) [
      | inl n ↦ absurd (ground arith)
      | inr (x, found) ↦
          let f = find_from-some (λ d. get_or (fd_table s) d 0 == 0) 13 3 x found in
          let same : x ≡ d = ground arith in
          record {
            lower = omega (arith, f.lower);
            upper = omega (arith, f.upper);
            was_free = ground (arith, f.passes);
            least = λ j lo hi z. ground (arith, f.least j lo (omega (arith, hi)));
            in_table = ground arith;
            written = ground arith;
          }
    ]

-- The current process has its slot and its descriptors.
pub record HasFiles (s : Scheduler) : Type 0 where
  pub size : length s.process_table ≡ process_limit
  pub current_in : s.current < process_limit
  pub descriptors : length (fd_table s) ≡ process_fd_limit

module _ (s : Scheduler) (h : HasFiles s) (handle d : ℕ) (lower : 3 ≤ d)
    (upper : d < process_fd_limit) where
  abbrev holder : Process
  holder = record (process_at s s.current) { fd_table = set (fd_table s) d handle }

  holder_there : process_at (put_fd d handle s) s.current ≡ holder
  holder_there =
      get_or-set_self s.process_table s.current holder cleared (omega (arith, h.size, h.current_in))

  not_refused : fd_refused (pos d) (put_fd d handle s) ≡ false
  unfolding fd_refused
  not_refused = ground (arith, h.current_in)

  table_there : fd_table (put_fd d handle s) ≡ set (fd_table s) d handle
  table_there = ap (λ (p : Process). p.fd_table) holder_there

  -- scheduler_fd_get finds what was installed.
  pub fd_get-put : fd_get (pos d) (put_fd d handle s) ≡ handle
  unfolding fd_get
  fd_get-put =
      rw (not_refused, fd_get)
        (ap (λ t. get_or t d 0) table_there
          ∙ get_or-set_self (fd_table s) d handle 0 (omega (arith, h.descriptors)))

  emptied : get_or (fd_table s) d 0 ≡ 0 → put_fd d 0 (put_fd d handle s) ≡ s
  emptied free =
      ap
        (λ (p : Process).
          put s.current (record p { fd_table = set p.fd_table d 0 }) (put_fd d handle s))
        holder_there
      ∙ (λ i. record s { process_table = back i })
    where
      fds : set (set (fd_table s) d handle) d 0 ≡ fd_table s
      fds =
          set-set (fd_table s) d handle 0
          ∙ subst (λ x. set (fd_table s) d x ≡ fd_table s) free (set-get_or (fd_table s) d 0)

      back :
          set
            (set s.process_table s.current holder)
            s.current
            (record holder { fd_table = set (set (fd_table s) d handle) d 0 })
          ≡ s.process_table
      back =
          set-set s.process_table s.current holder
            (record holder { fd_table = set (set (fd_table s) d handle) d 0 })
          ∙ (λ i.
              set s.process_table s.current (record (process_at s s.current) { fd_table = fds i }))
          ∙ set-get_or s.process_table s.current cleared

  -- Removing an installed handle returns it and restores the scheduler's state.
  pub fd_remove-put :
      get_or (fd_table s) d 0 ≡ 0 → fd_remove (pos d) (put_fd d handle s) ≡ (handle, s)
  unfolding fd_remove
  fd_remove-put free =
      rw (not_refused, fd_remove)
        (λ i. (
          (ap (λ t. get_or t d 0) table_there
                ∙ get_or-set_self (fd_table s) d handle 0 (omega (arith, h.descriptors)))
              i,
          emptied free i,
        ))

-- On a process table with the current process and its 16 descriptors: if scheduler_fd_install
-- succeeds, it has taken the lowest free descriptor from 3 on; scheduler_fd_get then finds the handle,
-- and scheduler_fd_remove returns it and restores the state.
pub fd_remove-install :
    (handle d : ℕ) (s s' : Scheduler)
    → HasFiles s
    → fd_install handle s ≡ (pos d, s')
    → (3 ≤ d)
      × (d < process_fd_limit)
      × ((j : ℕ) → 3 ≤ j → j < d → get_or (fd_table s) j 0 ≢ 0)
      × (fd_get (pos d) s' ≡ handle)
      × (fd_remove (pos d) s' ≡ (handle, s))
fd_remove-install handle d s s' h e =
    let r = fd_install-pos handle s s' d e in
    (
      r.lower,
      r.upper,
      r.least,
      ap (fd_get (pos d)) r.written ∙ fd_get-put s h handle d r.lower r.upper,
      ap (fd_remove (pos d)) r.written ∙ fd_remove-put s h handle d r.lower r.upper r.was_free,
    )
