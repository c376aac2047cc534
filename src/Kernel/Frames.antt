-- ===== src/Kernel/Frames.antt =====
-- Signal frames of kernel.py: building one on the user stack, and delivering what is pending.
-- A frame is pushed on the memory and the stack pointer of a process; what a fault leaves stays. The
-- newest entry of `sigframes` stands first.
use minixfs.Prelude.{
  ℕ, ◌+◌, ◌-◌, ◌%◌, ◌^◌, not, none, some, List, [], ◌∷◌, ◌==◌, if◌then◌else◌, get_or, set, Result,
  ok, err,
}
use Prim.Native.Nat.{bit_or}
use minixfs.Memory.{AddressSpace, SegFault, write_u32}
use minixfs.Kernel.State.{
  running, stopped, SigAction, no_action, Process, bit_at, clear_bit, K, ◌>>=◌, ◌>>◌, return, trap,
  Done, proc, put_proc, fault,
}
use minixfs.Kernel.Signals.{
  is_sleeping, is_zombie, ignored_by_default, stops, enqueue, dequeue, lowest_pending,
}
use minixfs.Kernel.Procs.{exit_process}

-- SA_NOMASK and SA_ONESHOT by their bits, and MAGIC_SIGRETURN.
abbrev pub sa_nomask : ℕ
sa_nomask = 30

abbrev pub sa_oneshot : ℕ
sa_oneshot = 31

abbrev pub magic_sigreturn : ℕ
magic_sigreturn = 0xFFFF0000

-- The action of a signal that is caught once is the default one from then on.
abbrev pub spent : ℕ → SigAction → List SigAction → List SigAction
spent sig act acts =
    if bit_at act.sa_flags sa_oneshot then set acts sig (record act { handler = 0 }) else acts

module _ {I : Type 0} where
  -- `push32`, one word after the other: the memory, the stack pointer and the fault.
  unfoldable pub push_words :
      List ℕ → AddressSpace I → ℕ → AddressSpace I × ℕ × Result SegFault Done
  push_words [] m sp = (m, sp, ok tt)
  push_words (v ∷ vs) m sp =
      let a = (sp + 2 ^ 32 - 4) % 2 ^ 32 in
      elim (write_u32 m a v).1 [
        | ok _ ↦ push_words vs (write_u32 m a v).0 a
        | err e ↦ ((write_u32 m a v).0, sp, err e)
      ]

  abbrev pub stack_pointer : Process I → ℕ
  stack_pointer p = get_or p.cpu.regs 4 0

  abbrev pub with_stack : Process I → AddressSpace I → ℕ → Process I
  with_stack p m sp = record p { mem = m; cpu = record p.cpu { regs = set p.cpu.regs 4 sp } }

  -- What is pushed before `sigframes` is told.
  abbrev pub saved_words : Process I → SigAction → List ℕ
  saved_words p act =
      p.cpu.eip
      ∷ p.cpu.eflags
      ∷ get_or p.cpu.regs 2 0
      ∷ get_or p.cpu.regs 1 0
      ∷ get_or p.cpu.regs 0 0
      ∷ (if bit_at act.sa_flags sa_nomask then [] else p.blocked ∷ [])

  -- The rest of `_build_signal_frame`, for a process that runs.
  unfoldable pub push_frame : ℕ → SigAction → Process I → Process I × Result SegFault Done
  unfolding push_words
  push_frame sig act p =
      let (m1, sp1, r1) = push_words (saved_words p act) p.mem (stack_pointer p) in
      elim r1 [
        | err e ↦ (with_stack p m1 sp1, err e)
        | ok _ ↦
            let restorer = if act.restorer == 0 then magic_sigreturn else act.restorer in
            let frames = not (bit_at act.sa_flags sa_nomask) ∷ p.sigframes in
            let (m2, sp2, r2) = push_words (sig ∷ restorer ∷ []) m1 sp1 in
            let q = record (with_stack p m2 sp2) { sigframes = frames } in
            elim r2 [
              | err e ↦ (q, err e)
              | ok _ ↦ (
                record q {
                  cpu = record q.cpu { eip = act.handler };
                  blocked = bit_or p.blocked act.mask;
                  sigactions = spent sig act p.sigactions;
                },
                ok tt,
              )
            ]
      ]

  unfoldable pub build_signal_frame : ℕ → ℕ → K I Done
  unfolding push_frame
  build_signal_frame pid sig = do
    p ← proc pid
    if is_sleeping p.state
        then (do put_proc (record p { state = running; wait_channel = none }); enqueue pid)
        else return tt
    q ← proc pid
    let (q', r) = push_frame sig (get_or q.sigactions sig no_action) q
    put_proc q'
    elim r [ ok _ ↦ return tt | err e ↦ trap (fault e) ]

  -- ---- delivery ----

  -- `_take_signal`; what is ignored by default is ignored also where the process is stopped.
  unfoldable pub take_signal : ℕ → ℕ → K I Done
  unfolding build_signal_frame
  take_signal pid sig = do
    p ← proc pid
    let h = (get_or p.sigactions sig no_action).handler
    if h == 1
        then return tt
        else if not (h == 0)
        then build_signal_frame pid sig
        else if ignored_by_default sig
        then return tt
        else if stops sig
        then (do put_proc (record p { state = stopped }); dequeue pid)
        else do
          put_proc (if is_sleeping p.state then record p { state = running } else p)
          exit_process pid sig
          q ← proc pid
          (λ s. (ok tt, record s { exit_status = if q.ppid == 0 then sig else s.exit_status }))

  -- `_deliver_pending`, over the numbers of the processes.
  unfoldable pub deliver_pending : List ℕ → K I Done
  unfolding take_signal
  deliver_pending [] = return tt
  deliver_pending (n ∷ ns) = do
    p ← proc n
    if is_zombie p.state
        then deliver_pending ns
        else elim (lowest_pending p.signal p.blocked 32 0) [
          | none ↦ deliver_pending ns
          | some sig ↦ do
            put_proc (record p { signal = clear_bit p.signal (sig - 1) })
            take_signal n sig
            deliver_pending ns
        ]
