-- ===== src/Kernel/Resuming.antt =====
-- A call of kernel.py that blocks, from the end of its slice to the end of the sleep.
use minixfs.Prelude.{
  ℕ, ◌+◌, ◌-◌, ◌*◌, ◌/◌, ◌^◌, ◌%◌, if◌then◌else◌, not, Bool, ◌≤◌, ◌<◌, ◌≡◌, refl, ap, ◌∙◌, max,
  true, false, none, some, List, ◌∷◌, [], ◌++◌, set, ok, arith, Bool-cases, inl, inr,
}
use minixfs.Overlay.Dict.{table_get, table_set, table_get-table_set}
use minixfs.Kernel.Steps.{proc_lem, put_lem, after, next}
use minixfs.Kernel.State.{
  K, Done, return, ◌>>◌, Channel, Process, Kernel, running, sleeping, proc, put_proc,
}
use minixfs.Kernel.Signals.{
  is_sleeping, hz, minus_eintr, dequeue, enqueue, wake, woken, mem_ℕ, remove_ℕ,
}
use minixfs.Kernel.Slices.{timeslice, blocks, block, settle, account, end_slice}

mem_ℕ-last : (n : ℕ) (xs : List ℕ) → mem_ℕ n (xs ++ n ∷ []) ≡ true
mem_ℕ-last n [] = ground arith
mem_ℕ-last n (x ∷ xs) = ground (arith, mem_ℕ-last n xs)

abbrev queued : ℕ → List ℕ → List ℕ
queued pid q = if mem_ℕ pid q then q else q ++ pid ∷ []

queued_lem : (pid : ℕ) (q : List ℕ) → mem_ℕ pid (queued pid q) ≡ true
queued_lem pid q = elim (Bool-cases (mem_ℕ pid q)) [
  | inl there ↦ ground (arith, there)
  | inr away ↦ ground (arith, away, mem_ℕ-last pid q)
]

module _ {I : Type 0} (pid : ℕ) where
  -- The process in its sleep.
  abbrev pub waiting_in : Channel → ℕ → Process I → Process I
  waiting_in ch n p = record p {
    state = sleeping;
    wait_channel = some ch;
    restart_syscall = true;
    cpu = record p.cpu { eip = p.cpu.eip - 2 };
    utime = p.utime + max n 1;
  }

  abbrev asleep_in : Channel → Process I → Process I
  asleep_in ch p = record p {
    state = sleeping;
    wait_channel = some ch;
    restart_syscall = true;
    cpu = record p.cpu { eip = p.cpu.eip - 2 };
  }

  block_lem :
      (s : Kernel I) (p : Process I) (ch : Channel)
      → table_get pid s.procs ≡ some p
      → p.pid ≡ pid
      → block pid ch s ≡ (
        ok tt,
        record s { procs = table_set pid (asleep_in ch p) s.procs; runq = remove_ℕ pid s.runq },
      )
  unfolding block
  block_lem s p ch at own =
      after (proc pid) (λ p. put_proc (asleep_in ch p) >> dequeue pid) s s p (proc_lem pid s p at)
      ∙ next (put_proc (asleep_in ch p)) (dequeue pid) s
          (record s { procs = table_set pid (asleep_in ch p) s.procs }) tt
          (put_lem pid s (asleep_in ch p) own)

  abbrev charged : ℕ → Process I → Process I
  charged n p = record p { utime = p.utime + max n 1 }

  abbrev tick : ℕ → K I Done
  tick n s = (ok tt, record s { jiffies = s.jiffies + max (max n 1 * hz / timeslice) 1 })

  account_lem :
      (s : Kernel I) (p : Process I) (n : ℕ)
      → table_get pid s.procs ≡ some p
      → p.pid ≡ pid
      → (account pid n s).1 ≡ record s {
        procs = table_set pid (charged n p) s.procs;
        jiffies = s.jiffies + max (max n 1 * hz / timeslice) 1;
      }
  unfolding account
  account_lem s p n at own =
      ap (λ r. r.1)
        (after (proc pid) (λ p. put_proc (charged n p) >> tick n) s s p (proc_lem pid s p at)
          ∙ next (put_proc (charged n p)) (tick n) s
              (record s { procs = table_set pid (charged n p) s.procs }) tt
              (put_lem pid s (charged n p) own))

  end_slice_lem :
      (s : Kernel I) (p : Process I) (ch : Channel) (n : ℕ)
      → table_get pid s.procs ≡ some p
      → p.pid ≡ pid
      → ((end_slice pid (blocks ch) n s).0 ≡ ok none)
        × (table_get pid (end_slice pid (blocks ch) n s).1.procs ≡ some (waiting_in ch n p))
        × ((end_slice pid (blocks ch) n s).1.runq ≡ remove_ℕ pid s.runq)
  unfolding end_slice
  end_slice_lem s p ch n at own =
      let p1 = asleep_in ch p in
      let s1 = record s { procs = table_set pid p1 s.procs; runq = remove_ℕ pid s.runq } in
      let at1 : table_get pid s1.procs ≡ some p1 =
        ground (arith, table_get-table_set pid pid p1 s.procs) in
      let settled : settle pid (blocks ch) s ≡ (ok none, s1) =
        next (block pid ch) (return none) s s1 tt (block_lem s p ch at own) in
      let whole : end_slice pid (blocks ch) n s ≡ (ok none, (account pid n s1).1) =
        ap (λ r. (r.0, (account pid n r.1).1)) settled in
      let counted = account_lem s1 p1 n at1 own in
      (
        ap (λ r. r.0) whole,
        ap (λ r. table_get pid r.1.procs) (whole)
            ∙ ap (λ u. table_get pid u.procs) counted
            ∙ ground (arith, table_get-table_set pid pid (waiting_in ch n p) s1.procs),
        ap (λ r. r.1.runq) whole ∙ ap (λ u. u.runq) counted,
      )

  abbrev wake_rest : Bool → Process I → K I Done
  wake_rest b p =
      if not (is_sleeping p.state) then return tt else do put_proc (woken b p); enqueue pid

  woken_pid : (b : Bool) (p : Process I) → (woken b p).pid ≡ p.pid
  unfolding woken
  woken_pid b p = ground arith

  wake_lem :
      (s : Kernel I) (p : Process I) (b : Bool)
      → table_get pid s.procs ≡ some p
      → p.pid ≡ pid
      → p.state ≡ sleeping
      → wake pid b s
        ≡ (ok tt, record s { procs = table_set pid (woken b p) s.procs; runq = queued pid s.runq })
  unfolding wake enqueue
  wake_lem s p b at own slept =
      after (proc pid) (wake_rest b) s s p (proc_lem pid s p at)
      ∙ ap
          (λ st.
            (if not (is_sleeping st) then return tt else (put_proc (woken b p) >> enqueue pid)) s)
          slept
      ∙ next (put_proc (woken b p)) (enqueue pid) s
          (record s { procs = table_set pid (woken b p) s.procs }) tt
          (put_lem pid s (woken b p) (woken_pid b p ∙ own))

  -- A call that blocks puts its process to sleep for what it waits for, out of the queue and charged
  -- for its slice. Whatever happens to the rest of the kernel until then, once `wake` wakes the process it
  -- runs, is in the queue and waits for nothing: woken by what it waited for it stands at its call
  -- again, which it will make anew with the registers it had; woken by a signal it stands behind the
  -- call, with the result -EINTR. All else of the process is as when it blocked.
  pub wake-end_slice :
      (s t : Kernel I) (p : Process I) (ch : Channel) (n : ℕ)
      → table_get pid s.procs ≡ some p
      → p.pid ≡ pid
      → 2 ≤ p.cpu.eip
      → p.cpu.eip < 2 ^ 32
      → table_get pid t.procs ≡ table_get pid (end_slice pid (blocks ch) n s).1.procs
      → ((end_slice pid (blocks ch) n s).0 ≡ ok none)
        × (table_get pid (end_slice pid (blocks ch) n s).1.procs ≡ some (waiting_in ch n p))
        × ((end_slice pid (blocks ch) n s).1.runq ≡ remove_ℕ pid s.runq)
        × (mem_ℕ pid (wake pid false t).1.runq ≡ true)
        × (table_get pid (wake pid false t).1.procs
            ≡ some (record p {
              state = running;
              wait_channel = none;
              restart_syscall = true;
              cpu = record p.cpu { eip = p.cpu.eip - 2 };
              utime = p.utime + max n 1;
            }))
        × (mem_ℕ pid (wake pid true t).1.runq ≡ true)
        × (table_get pid (wake pid true t).1.procs
            ≡ some (record p {
              state = running;
              wait_channel = none;
              restart_syscall = false;
              cpu = record p.cpu { regs = set p.cpu.regs 0 minus_eintr };
              utime = p.utime + max n 1;
            }))
  unfolding woken
  wake-end_slice s t p ch n at own low high same =
      let (r, slept, away) = end_slice_lem s p ch n at own in
      let q = waiting_in ch n p in
      let at_t : table_get pid t.procs ≡ some q = same ∙ slept in
      let plain = wake_lem t q false at_t own refl in
      let cut = wake_lem t q true at_t own refl in
      let back : (p.cpu.eip - 2 + 2) % 2 ^ 32 ≡ p.cpu.eip = omega (arith, low, high) in
      (
        r,
        slept,
        away,
        ap (λ x. mem_ℕ pid x.1.runq) plain ∙ queued_lem pid t.runq,
        ap (λ x. table_get pid x.1.procs) plain
            ∙ ground (arith, table_get-table_set pid pid (woken false q) t.procs),
        ap (λ x. mem_ℕ pid x.1.runq) cut ∙ queued_lem pid t.runq,
        ap (λ x. table_get pid x.1.procs) cut
            ∙ ground (arith, table_get-table_set pid pid (woken true q) t.procs)
            ∙ ap
                (λ e. some (record q {
                  state = running;
                  wait_channel = none;
                  restart_syscall = false;
                  cpu = record p.cpu { regs = set p.cpu.regs 0 minus_eintr; eip = e };
                }))
                back,
      )
