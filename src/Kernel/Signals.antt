-- ===== src/Kernel/Signals.antt =====
-- Signals of kernel.py: posting, waking, the masks, the actions and the choice of what to deliver.
use minixfs.Prelude.{
  ℕ, zero, suc, ◌+◌, ◌-◌, ◌/◌, ◌%◌, ◌^◌, ◌*◌, Bool, true, false, not, ◌&&◌, ◌||◌, Option, none,
  some, List, [], ◌∷◌, ◌++◌, ltb, leb, ◌==◌, if◌then◌else◌, get_or, set, ok,
}
use minixfs.Overlay.Dict.{Table, table_get}
use minixfs.Kernel.State.{
  RunState, running, sleeping, zombie, stopped, no_action, Process, bit_at, set_bit, clear_bit, K,
  ◌>>=◌, ◌>>◌, return, raise, Done, proc, put_proc, einval, eperm, esrch,
}

abbrev pub sigkill : ℕ
sigkill = 9

abbrev pub sigchld : ℕ
sigchld = 17

abbrev pub sigcont : ℕ
sigcont = 18

-- `IGNORED_BY_DEFAULT` and `STOP_SIGNALS`
abbrev pub ignored_by_default : ℕ → Bool
ignored_by_default sig = sig == sigchld || sig == sigcont

abbrev pub stops : ℕ → Bool
stops sig = leb 19 sig && leb sig 22

abbrev pub is_running : RunState → Bool
is_running running = true
is_running sleeping = false
is_running zombie = false
is_running stopped = false

abbrev pub is_sleeping : RunState → Bool
is_sleeping running = false
is_sleeping sleeping = true
is_sleeping zombie = false
is_sleeping stopped = false

abbrev pub is_zombie : RunState → Bool
is_zombie running = false
is_zombie sleeping = false
is_zombie zombie = true
is_zombie stopped = false

abbrev pub mem_ℕ : ℕ → List ℕ → Bool
mem_ℕ n [] = false
mem_ℕ n (x ∷ xs) = x == n || mem_ℕ n xs

-- `runq.remove`: the first one goes.
unfoldable pub remove_ℕ : ℕ → List ℕ → List ℕ
remove_ℕ n [] = []
remove_ℕ n (x ∷ xs) = if x == n then xs else x ∷ remove_ℕ n xs

-- `-EINTR` as a word.
abbrev pub minus_eintr : ℕ
minus_eintr = 0xFFFFFFFC

abbrev pub refused_signal : ℕ → Bool
refused_signal sig = sig == 0 || (ltb 32 sig || sig == sigkill)

-- SA_ONESHOT and SA_NOMASK together.
abbrev pub oneshot_nomask : ℕ
oneshot_nomask = 0xC0000000

abbrev pub hz : ℕ
hz = 100

-- The lowest signal that is pending and not blocked; `i` is the bit looked at, of `n` left.
unfoldable pub lowest_pending : ℕ → ℕ → ℕ → ℕ → Option ℕ
lowest_pending signal blocked zero i = none
lowest_pending signal blocked (suc n) i =
    let rest = lowest_pending signal blocked n (i + 1) in
    if bit_at signal i && not (bit_at blocked i) then some (i + 1) else rest

module _ {I : Type 0} where
  -- What `_wake` does to a sleeping process: the call that was to be made again is not where a signal
  -- interrupts it.
  unfoldable pub woken : Bool → Process I → Process I
  woken interrupted p =
      let p' = record p { state = running; wait_channel = none } in
      if interrupted && p.restart_syscall
      then record p' {
        cpu = record p.cpu { eip = (p.cpu.eip + 2) % 2 ^ 32; regs = set p.cpu.regs 0 minus_eintr };
        restart_syscall = false;
      }
      else p'

  unfoldable pub enqueue : ℕ → K I Done
  enqueue pid s =
      (ok tt, record s { runq = if mem_ℕ pid s.runq then s.runq else s.runq ++ pid ∷ [] })

  unfoldable pub dequeue : ℕ → K I Done
  unfolding remove_ℕ
  dequeue pid s = (ok tt, record s { runq = remove_ℕ pid s.runq })

  unfoldable pub wake : ℕ → Bool → K I Done
  unfolding woken enqueue
  wake pid interrupted = do
    p ← proc pid
    if not (is_sleeping p.state) then return tt else do put_proc (woken interrupted p); enqueue pid

  -- The signals that end a sleep: not blocked, not ignored, and not ignored by default.
  unfoldable pub interrupts : Process I → ℕ → Bool
  interrupts p sig =
      let handler = (get_or p.sigactions sig no_action).handler in
      is_sleeping p.state
      && (not (bit_at p.blocked (sig - 1))
          && (not (handler == 1) && not (handler == 0 && ignored_by_default sig)))

  unfoldable pub post_signal : ℕ → ℕ → K I Done
  unfolding interrupts
  post_signal pid sig = if sig == 0 || ltb 32 sig then return tt else do
    p ← proc pid
    put_proc (record p { signal = set_bit p.signal (sig - 1) })
    if interrupts p sig then wake pid true else return tt

  -- ---- the calls ----

  -- The processes that a number of `kill` or `waitpid` means, as a word: one, the group of the caller,
  -- all, or a group.
  unfoldable pub kill_means : ℕ → ℕ → Process I → Bool
  kill_means pid pgrp q =
      if leb 0x80000000 pid
      then (if pid == 0xFFFFFFFF then ltb 1 q.pid else q.pgrp == 2 ^ 32 - pid)
      else if pid == 0
      then q.pgrp == pgrp
      else q.pid == pid

  unfoldable pub pids_where : (Process I → Bool) → Table (Process I) → List ℕ
  pids_where test [] = []
  pids_where test ((k, q) ∷ ps) = let rest = pids_where test ps in if test q then k ∷ rest else rest

  unfoldable pub post_all : ℕ → List ℕ → K I Done
  post_all sig [] = return tt
  post_all sig (n ∷ ns) = do post_signal n sig; post_all sig ns

  unfoldable pub kill : ℕ → ℕ → ℕ → K I ℕ
  unfolding kill_means pids_where post_all
  kill caller pid sig = do
    p ← proc caller
    targets ← (λ s. (ok (pids_where (kill_means pid p.pgrp) s.procs), s))
    elim targets [
      | [] ↦ raise esrch
      | n ∷ ns ↦ if sig == 0 then return 0 else do post_all sig (n ∷ ns); return 0
    ]

  unfoldable pub ssetmask : ℕ → ℕ → K I ℕ
  ssetmask pid mask = do
    p ← proc pid
    put_proc (record p { blocked = clear_bit mask (sigkill - 1) })
    return p.blocked

  unfoldable pub set_signal : ℕ → ℕ → ℕ → ℕ → K I ℕ
  set_signal pid sig handler restorer = if refused_signal sig then raise einval else do
    p ← proc pid
    put_proc (record p {
      sigactions =
          set p.sigactions sig (record {
            handler = handler;
            mask = 0;
            sa_flags = oneshot_nomask;
            restorer = restorer;
          });
    })
    return (get_or p.sigactions sig no_action).handler

  unfoldable pub setsid : ℕ → K I ℕ
  setsid pid = do
    p ← proc pid
    if p.leader
        then raise eperm
        else do put_proc (record p { leader = true; session = p.pid; pgrp = p.pid }); return p.pid

  unfoldable pub setpgid : ℕ → ℕ → ℕ → K I ℕ
  setpgid caller pid pgid s =
      let target = if pid == 0 then caller else pid in
      elim (table_get target s.procs) [
        | none ↦ raise esrch s
        | some q ↦ (do put_proc (record q { pgrp = if pgid == 0 then q.pid else pgid }); return 0) s
      ]

  unfoldable pub alarm : ℕ → ℕ → K I ℕ
  alarm pid secs = do
    p ← proc pid
    now ← (λ s. (ok s.jiffies, s))
    put_proc (record p { alarm_at = if secs == 0 then 0 else now + secs * hz })
    return (if p.alarm_at == 0 then 0 else (p.alarm_at - now) / hz)

  -- `_check_alarms`, over the numbers of the processes.
  unfoldable pub check_alarms : List ℕ → K I Done
  check_alarms [] = return tt
  check_alarms (n ∷ ns) = do
    q ← proc n
    now ← (λ s. (ok s.jiffies, s))
    if not (q.alarm_at == 0) && leb q.alarm_at now
        then (do put_proc (record q { alarm_at = 0 }); post_signal n 14; check_alarms ns)
        else check_alarms ns
