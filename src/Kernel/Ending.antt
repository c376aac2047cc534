-- ===== src/Kernel/Ending.antt =====
-- Signals and exit keep the counts of kernel.py.
use minixfs.Prelude.{
  ℕ, ◌+◌, ◌-◌, ◌≡◌, refl, sym, ap, ◌∙◌, subst, Bool, true, false, Bool-cases, Option-cases, inl,
  inr, none, some, [], ◌∷◌, ◌==◌, ltb, if◌then◌else◌, get_or, length, ok, err, arith, ◌||◌, ◌&&◌,
}
use minixfs.Memory as Memory
use minixfs.Overlay.Dict.{Table, table_get, table_set, table_get-table_set}
use minixfs.Kernel.State.{
  Trap, Done, zombie, Process, Kernel, proc, put_proc, nr_open, default_stack, set_bit, return,
  ◌>>=◌, ◌>>◌,
}
use minixfs.Kernel.Signals.{
  is_sleeping, interrupts, woken, enqueue, dequeue, wake, post_signal, sigchld,
}
use minixfs.Kernel.Procs.{
  release_all, pass_on, waits_for_child, signal_parent, tell_parent, exit_process, finish_exit,
  hand_over, note_status,
}
use minixfs.Kernel.Counts.{Counted, descriptors}
use minixfs.Kernel.Slots.{proc-cases, put_same-Counted}
use minixfs.Kernel.Keeps.{Keeps, moved, then-Keeps, if-Keeps, update-Keeps, proc-Keeps, aside-Keeps}
use minixfs.Kernel.Leaving.{release_all-Counted}

module _ {I : Type 0} where
  woken_same : (b : Bool) (p : Process I) → ((woken b p).pid ≡ p.pid) × ((woken b p).fds ≡ p.fds)
  unfolding woken
  woken_same b p = ground arith

  enqueue-Keeps : (pid : ℕ) → Keeps {I = I} (enqueue pid)
  unfolding enqueue
  enqueue-Keeps pid s c = aside-Keeps s s.fs _ s.exit_status c

  dequeue-Keeps : (pid : ℕ) → Keeps {I = I} (dequeue pid)
  unfolding dequeue
  dequeue-Keeps pid s c = aside-Keeps s s.fs _ s.exit_status c

  return-Keeps : Keeps {I = I} {A = Done} (return tt)
  return-Keeps s c = c

  -- Waking reads the process, and replaces it only where it sleeps.
  pub wake-Keeps : (pid : ℕ) (b : Bool) → Keeps {I = I} (wake pid b)
  unfolding wake put_proc
  wake-Keeps pid b s c = elim (proc-cases s pid) [
    | inl (x, e) ↦ moved (ground (arith, e)) c
    | inr (p, at, e) ↦ elim (Bool-cases (is_sleeping p.state)) [
      | inr awake ↦ moved (ground (arith, e, awake)) c
      | inl asleep ↦
          let q = woken b p in
          let pid_eq = (woken_same b p).0 ∙ c.pids pid p at in
          let next = record s { procs = table_set pid q s.procs } in
          let c1 : Counted [] next = put_same-Counted q at pid_eq (woken_same b p).1 c in
          moved (ground (arith, e, asleep, pid_eq)) (enqueue-Keeps pid next c1)
    ]
  ]

  pub post_signal-Keeps : (pid sig : ℕ) → Keeps {I = I} (post_signal pid sig)
  unfolding post_signal
  post_signal-Keeps pid sig =
      if-Keeps (sig == 0 || ltb 32 sig) (return tt)
        (proc pid >>= λ p.
          (put_proc (record p { signal = set_bit p.signal (sig - 1) })
            >> (if interrupts p sig then wake pid true else return tt)))
        return-Keeps
        (update-Keeps pid (λ p. record p { signal = set_bit p.signal (sig - 1) })
          (λ p. if interrupts p sig then wake pid true else return tt) (λ p. (refl, refl))
          (λ p.
            if-Keeps (interrupts p sig) (wake pid true) (return tt) (wake-Keeps pid true)
              return-Keeps))

  total-pass_on :
      (g pid : ℕ) (t : Table (Process I)) → descriptors g (pass_on pid t) ≡ descriptors g t
  unfolding pass_on
  total-pass_on g pid [] = refl
  total-pass_on g pid ((k, q) ∷ t) = ground (arith, total-pass_on g pid t)

  table_get-pass_on :
      (n pid : ℕ) (t : Table (Process I))
      → table_get n (pass_on pid t) ≡ elim (table_get n t) [
        | none ↦ none
        | some q ↦ some (if q.ppid == pid then record q { ppid = 1 } else q)
      ]
  unfolding table_get pass_on
  table_get-pass_on n pid [] = refl
  table_get-pass_on n pid ((k, q) ∷ t) = elim (Bool-cases (k == n)) [
    | inl e ↦ ground (arith, e)
    | inr e ↦ ground (arith, e, table_get-pass_on n pid t)
  ]

  hand_over-Keeps : (pid : ℕ) → Keeps {I = I} (hand_over pid)
  unfolding hand_over
  hand_over-Keeps pid s c = record {
    refs = λ g. ground (arith, c.refs g, total-pass_on g pid s.procs);
    readers = c.readers;
    writers = c.writers;
    pipes_there = c.pipes_there;
    pids = λ n p h. of n p (λ q. q.pid ≡ n) h (λ q e. c.pids n q e) (λ q u. u);
    slots = λ n p h. of n p (λ q. length q.fds ≡ nr_open) h (λ q e. c.slots n q e) (λ q u. u);
    fresh_files = c.fresh_files;
    fresh_pipes = c.fresh_pipes;
    fresh_pids = λ n h. ground (arith, h, c.fresh_pids n h, table_get-pass_on n pid s.procs);
    distinct_files = c.distinct_files;
  }
    where
      of :
          (n : ℕ) (p : Process I) (P : Process I → Type 0)
          → table_get n (pass_on pid s.procs) ≡ some p
          → ((q : Process I) → table_get n s.procs ≡ some q → P q)
          → ((q : Process I) → P q → P (record q { ppid = 1 }))
          → P p
      of n p P h all keep = elim (Option-cases (table_get n s.procs)) [
        | inl e ↦ absurd (ground (arith, h, e, table_get-pass_on n pid s.procs))
        | inr (q, e) ↦ elim (Bool-cases (q.ppid == pid)) [
          | inl same ↦
              subst P (ground (arith, h, e, same, table_get-pass_on n pid s.procs))
                (keep q (all q e))
          | inr other ↦
              subst P (ground (arith, h, e, other, table_get-pass_on n pid s.procs)) (all q e)
        ]
      ]

  note_status-Keeps : (ppid code : ℕ) → Keeps {I = I} (note_status ppid code)
  unfolding note_status
  note_status-Keeps ppid code s c = aside-Keeps s s.fs s.runq _ c

  signal_parent-Keeps : (ppid : ℕ) → Keeps {I = I} (signal_parent ppid)
  unfolding signal_parent
  signal_parent-Keeps ppid =
      then-Keeps (post_signal ppid sigchld)
        (proc ppid >>= λ q.
          (if is_sleeping q.state && waits_for_child q.wait_channel
            then wake ppid false
            else return tt))
        (post_signal-Keeps ppid sigchld)
        (proc-Keeps ppid
          (λ q.
            if is_sleeping q.state && waits_for_child q.wait_channel
            then wake ppid false
            else return tt)
          (λ q.
            if-Keeps (is_sleeping q.state && waits_for_child q.wait_channel) (wake ppid false)
              (return tt) (wake-Keeps ppid false) return-Keeps))

  tell_parent-Keeps : (ppid : ℕ) → Keeps {I = I} (tell_parent ppid)
  unfolding tell_parent
  tell_parent-Keeps ppid s c = elim (Option-cases (table_get ppid s.procs)) [
    | inl e ↦ moved (ground (arith, e)) c
    | inr (p, e) ↦ moved (ground (arith, e)) (signal_parent-Keeps ppid s c)
  ]

  finish_exit-Keeps : (pid code : ℕ) → Keeps {I = I} (finish_exit pid code)
  unfolding finish_exit
  finish_exit-Keeps pid code =
      update-Keeps pid (λ q. record q { mem = Memory.init default_stack })
        (λ q.
          hand_over pid
          >> (dequeue pid >> (proc pid >>= λ r. (tell_parent r.ppid >> note_status r.ppid code))))
        (λ q. (refl, refl))
        (λ q.
          then-Keeps (hand_over pid)
            (dequeue pid >> (proc pid >>= λ r. (tell_parent r.ppid >> note_status r.ppid code)))
            (hand_over-Keeps pid)
            (then-Keeps (dequeue pid)
              (proc pid >>= λ r. (tell_parent r.ppid >> note_status r.ppid code))
              (dequeue-Keeps pid)
              (proc-Keeps pid (λ r. tell_parent r.ppid >> note_status r.ppid code)
                (λ r.
                  then-Keeps (tell_parent r.ppid) (note_status r.ppid code)
                    (tell_parent-Keeps r.ppid) (note_status-Keeps r.ppid code)))))

  -- The process is dead before its descriptors are released.
  exit_steps :
      (s s2 : Kernel I) (pid code : ℕ) (p : Process I)
      → proc pid s ≡ (ok p, s)
      → release_all pid 0 p.fds (record s {
        procs = table_set p.pid (record p { state = zombie; exit_code = code }) s.procs;
      })
        ≡ (ok tt, s2)
      → exit_process pid code s ≡ finish_exit pid code s2
  unfolding put_proc exit_process
  exit_steps s s2 pid code p run released = ground (arith, run, released)

  exit_refused :
      (s : Kernel I) (pid code : ℕ) (x : Trap)
      → proc pid s ≡ (err x, s)
      → (exit_process pid code s).1 ≡ s
  unfolding exit_process
  exit_refused s pid code x run = ground (arith, run)

  pub exit_process-Keeps : (pid code : ℕ) → Keeps {I = I} (exit_process pid code)
  exit_process-Keeps pid code s c = elim (proc-cases s pid) [
    | inl (x, run) ↦ moved (sym (exit_refused s pid code x run)) c
    | inr (p, at, run) ↦
        let p1 = record p { state = zombie; exit_code = code } in
        let s1 = record s { procs = table_set p.pid p1 s.procs } in
        let pid_eq = c.pids pid p at in
        let c1 : Counted [] s1 =
          subst (λ n. Counted [] (record s { procs = table_set n p1 s.procs })) (sym pid_eq)
            (put_same-Counted p1 at pid_eq refl c) in
        let at1 : table_get pid s1.procs ≡ some p1 =
          ground (arith, pid_eq, table_get-table_set p.pid pid p1 s.procs) in
        let (s2, p2, released, c2, at2) =
          release_all-Counted pid p.fds p1 0 s1 at1
            (λ k. ap (λ n. get_or p.fds n none) {x = 0 + k} {y = k} (omega arith)) c1 in
        moved (sym (ap (λ r. r.1) (exit_steps s s2 pid code p run released)))
          (finish_exit-Keeps pid code s2 c2)
  ]
