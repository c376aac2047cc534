-- ===== src/Kernel/Tests/Slices.antt =====
-- Signals, new images and slices of the processes of a small kernel, for kernel.py.
use minixfs.Prelude.{
  ℕ, ◌≡◌, refl, none, some, List, [], ◌∷◌, arith, true, ok, ◌+◌, replicate, false,
}
use minixfs.Memory.{write_u32, store_low, read_u32}
use minixfs.Overlay.Dict.{table_get, table_set}
use minixfs.Kernel.State.{
  Process, Kernel, proc, put_proc, file, put_file, the_pipe, put_pipe, SigAction, pipe_read,
}
use minixfs.Kernel.Fds.{
  open_pipe, close, alloc_fd, get_file, set_fd, acquire_fd, release_file, close_vnode, fcntl,
  set_close_on_exec, control,
}
use minixfs.Kernel.Counts.{Counted}
use minixfs.Kernel.Calls.{Call, make_pipe, perform_all, perform_all-Counted, fcntl_fd}
use minixfs.Processor.Flags.{no_flags}
use minixfs.Kernel.Frames.{push_frame, stack_pointer}
use minixfs.Kernel.Sigreturn.{sigreturn}
use minixfs.Kernel.Popping.{at}
use minixfs.Kernel.Returning.{sigreturn-push_frame}
use minixfs.Kernel.Pushing.{SameFrom}
use minixfs.Kernel.Slices.{blocks, end_slice}
use minixfs.Kernel.Resuming.{waiting_in, wake-end_slice}
use minixfs.Kernel.Signals.{mem_ℕ, wake, remove_ℕ}
use minixfs.Kernel.Executing.{Executes, execve_lem}
use minixfs.Kernel.Tests.{space-IsValid, space, shell, booted, booted-Counted}

-- The shell, interrupted with a handler that is called once, and the handler at its return.
abbrev caught : SigAction
caught = record { handler = 4096; mask = 6; sa_flags = 0x80000000; restorer = 0 }

abbrev at_work : Process ℕ
at_work = at shell 11 22 33 44 0x3FFFFF0 55 66 77

abbrev handling : Process ℕ
handling = (push_frame 15 caught at_work).0

sigreturn-push_frame_example :
    ((push_frame 15 caught at_work).1 ≡ ok tt)
    × (handling.cpu.eip ≡ 4096)
    × (handling.blocked ≡ 6)
    × (read_u32 handling.mem (stack_pointer handling) ≡ ok 0xFFFF0000)
    × (read_u32 handling.mem (stack_pointer handling + 4) ≡ ok 15)
    × SameFrom 0x3FFFFF0 space handling.mem
    × (sigreturn (at handling 1 2 3 4 (stack_pointer handling + 4) 5 6 7) ≡ (
      ok tt,
      record handling {
        cpu = record {
          regs = 11 ∷ 22 ∷ 33 ∷ 4 ∷ 0x3FFFFF0 ∷ 5 ∷ 6 ∷ 7 ∷ [];
          eip = 0;
          eflags = 0x202;
        };
        sigframes = [];
        blocked = 0;
      },
    ))
sigreturn-push_frame_example =
    sigreturn-push_frame shell handling 15 caught no_flags 11 22 33 44 0x3FFFFF0 55 66 77
      (record {
        eax_in = omega arith;
        ecx_in = omega arith;
        edx_in = omega arith;
        eip_in = omega arith;
        mask_in = omega arith;
        flags_eq = refl;
      })
      space-IsValid (omega arith) (omega arith) (λ x v lo hi e. e) refl 1 2 3 4 5 6 7

-- A process with a pipe whose write end is marked.
abbrev marking : List Call
marking = make_pipe 1 0 ∷ fcntl_fd 1 1 2 1 ∷ []

abbrev marked : Process ℕ
marked = record shell {
  mem = record space { low = 0 ∷ 0 ∷ 0 ∷ 0 ∷ 1 ∷ 0 ∷ 0 ∷ 0 ∷ [] };
  fds = some 0 ∷ some 1 ∷ replicate 18 none;
  close_on_exec = 2;
}

marking-marked : table_get 1 (perform_all marking booted).procs ≡ some marked
unfolding perform_all open_pipe fcntl set_close_on_exec control close alloc_fd get_file set_fd
    acquire_fd release_file proc put_proc file put_file the_pipe put_pipe table_get table_set
    write_u32 close_vnode store_low
marking-marked = refl

marking-Counted : Counted [] (perform_all marking booted)
marking-Counted = perform_all-Counted marking booted booted-Counted

execve_lem_example :
    Executes 1 4 0 0 (perform_all marking booted) marked marking-Counted marking-marked
execve_lem_example =
    execve_lem 1 4 0 0 (perform_all marking booted) marked marking-Counted marking-marked

-- The shell has just made a call, and has to wait for a pipe.
abbrev calling : Process ℕ
calling = record shell { cpu = record { regs = replicate 8 3; eip = 100; eflags = 0x202 } }

abbrev called : Kernel ℕ
called = record booted { procs = (1, calling) ∷ [] }

abbrev off : Kernel ℕ
off = (end_slice 1 (blocks (pipe_read 0)) 40 called).1

called-calling : table_get 1 called.procs ≡ some calling
unfolding table_get
called-calling = refl

wake-end_slice_example :
    ((end_slice 1 (blocks (pipe_read 0)) 40 called).0 ≡ ok none)
    × (table_get 1 off.procs ≡ some (waiting_in 1 (pipe_read 0) 40 calling))
    × (off.runq ≡ remove_ℕ 1 called.runq)
    × (mem_ℕ 1 (wake 1 false off).1.runq ≡ true)
    × (table_get 1 (wake 1 false off).1.procs
        ≡ some (record calling {
          restart_syscall = true;
          cpu = record calling.cpu { eip = 98 };
          utime = 40;
        }))
    × (mem_ℕ 1 (wake 1 true off).1.runq ≡ true)
    × (table_get 1 (wake 1 true off).1.procs
        ≡ some (record calling {
          cpu = record calling.cpu { regs = 0xFFFFFFFC ∷ replicate 7 3 };
          utime = 40;
        }))
wake-end_slice_example =
    wake-end_slice 1 called off calling (pipe_read 0) 40 called-calling refl (omega arith)
      (omega arith) refl
