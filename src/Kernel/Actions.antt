-- ===== src/Kernel/Actions.antt =====
-- The calls of kernel.py on actions, masks and waiting: `sigaction`, `sgetmask` and `pause`.
use minixfs.Prelude.{ℕ, ◌+◌, List, [], ◌∷◌, ◌==◌, if◌then◌else◌, get_or, set, ok, err}
use minixfs.Memory as Memory
use minixfs.Kernel.State.{
  SigAction, no_action, K, ◌>>=◌, ◌>>◌, return, raise, trap, Done, proc, put_proc, einval, fault,
  asleep, pause,
}
use minixfs.Kernel.Fds.{write_word}
use minixfs.Kernel.Signals.{refused_signal}

module _ {I : Type 0} where
  unfoldable pub sgetmask : ℕ → K I ℕ
  sgetmask pid = do p ← proc pid; return p.blocked

  unfoldable pub sys_pause : ℕ → K I ℕ
  sys_pause pid = trap (asleep (pause pid))

  -- A word of the caller's memory.
  unfoldable pub read_word : ℕ → ℕ → K I ℕ
  read_word pid addr = do
    p ← proc pid
    elim (Memory.read_u32 p.mem addr) [ ok v ↦ return v | err e ↦ trap (fault e) ]

  -- Words from an address on.
  unfoldable pub write_words : ℕ → ℕ → List ℕ → K I Done
  write_words pid addr [] = return tt
  write_words pid addr (v ∷ vs) = do write_word pid addr v; write_words pid (addr + 4) vs

  unfoldable pub read_action : ℕ → ℕ → K I SigAction
  unfolding read_word
  read_action pid addr = do
    h ← read_word pid addr
    m ← read_word pid (addr + 4)
    f ← read_word pid (addr + 8)
    r ← read_word pid (addr + 12)
    return (record { handler = h; mask = m; sa_flags = f; restorer = r })

  unfoldable pub sigaction : ℕ → ℕ → ℕ → ℕ → K I ℕ
  unfolding write_words read_action
  sigaction pid sig newp oldp = if refused_signal sig then raise einval else do
    p ← proc pid
    let cur = get_or p.sigactions sig no_action
    if oldp == 0
        then return tt
        else write_words pid oldp (cur.handler ∷ cur.mask ∷ cur.sa_flags ∷ cur.restorer ∷ [])
    if newp == 0 then return 0 else do
      act ← read_action pid newp
      q ← proc pid
      put_proc (record q { sigactions = set q.sigactions sig act })
      return 0
