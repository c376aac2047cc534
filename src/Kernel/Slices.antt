-- ===== src/Kernel/Slices.antt =====
-- The end of a time slice in `Kernel.run` of kernel.py: how the processor stopped, and the accounts of
-- the process and of the clock. The debugger and the time of the host are left out.
use minixfs.Prelude.{
  ℕ, ◌+◌, ◌-◌, ◌*◌, ◌/◌, max, Option, none, some, ◌==◌, if◌then◌else◌, ok, err, true,
}
use minixfs.Kernel.State.{
  Channel, sleeping, fault, K, ◌>>=◌, ◌>>◌, return, trap, Done, proc, put_proc,
}
use minixfs.Kernel.Signals.{hz, dequeue}
use minixfs.Kernel.Procs.{exit_process}
use minixfs.Kernel.Sigreturn.{sigreturn}

abbrev pub timeslice : ℕ
timeslice = 100000

-- The slice is used up, the processor is halted, or an exception has ended the slice.
pub data Ending : Type 0 where
  used_up halted replaced magic_jump : Ending
  exits : (code : ℕ) → Ending
  blocks : (channel : Channel) → Ending

module _ {I : Type 0} where
  -- The process sleeps, and will make its call again: `int 0x80` has two bytes.
  unfoldable pub block : ℕ → Channel → K I Done
  unfolding dequeue
  block pid ch = do
    p ← proc pid
    put_proc (record p {
      state = sleeping;
      wait_channel = some ch;
      restart_syscall = true;
      cpu = record p.cpu { eip = p.cpu.eip - 2 };
    })
    dequeue pid

  unfoldable pub return_from_handler : ℕ → K I Done
  unfolding sigreturn
  return_from_handler pid = do
    p ← proc pid
    let (r, q) = sigreturn p
    put_proc q
    elim r [ ok _ ↦ return tt | err e ↦ trap (fault e) ]

  -- The result of `run` where it ends with the first process.
  unfoldable pub settle : ℕ → Ending → K I (Option ℕ)
  unfolding block return_from_handler exit_process
  settle pid used_up = return none
  settle pid halted = do exit_process pid 0; return none
  settle pid replaced = return none
  settle pid magic_jump = do return_from_handler pid; return none
  settle pid (exits code) = do
    exit_process pid code
    p ← proc pid
    return (if p.ppid == 0 then some code else none)
  settle pid (blocks ch) = do block pid ch; return none

  -- A slice is charged one instruction at least; the instructions advance the clock.
  unfoldable pub account : ℕ → ℕ → K I Done
  account pid n = do
    p ← proc pid
    put_proc (record p { utime = p.utime + max n 1 })
    (λ s. (ok tt, record s { jiffies = s.jiffies + max (max n 1 * hz / timeslice) 1 }))

  -- The accounts are kept however the slice ends.
  unfoldable pub end_slice : ℕ → Ending → ℕ → K I (Option ℕ)
  unfolding settle account
  end_slice pid ending n s = let (r, s1) = settle pid ending s in (r, (account pid n s1).1)
