-- ===== src/Kernel/Tests.antt =====
-- A kernel with one process and nothing open, for kernel.py.
mod Slices
use minixfs.Prelude.{
  ℕ, ◌≡◌, refl, ◌⊎◌, ◌↔◌, none, some, List, [], ◌∷◌, err, arith, set, true, ok, Option, ◌+◌, ◌<◌,
  ◌≤◌, ◌^◌, replicate, false,
}
use minixfs.Memory.{AddressSpace, write_u32, store_low, read_u32}
use minixfs.Pipe.{Pipe, read, write, epipe}
use minixfs.Overlay.Dict.{table_get, table_set}
use minixfs.Overlay.State.{OverlayFs, VInode, size}
use minixfs.Kernel.State.{
  Process, new_process, readable, writable, Kernel, proc, put_proc, file, put_file, the_pipe,
  put_pipe, OpenFile, vnode, errno, einval, eperm, sleeping, zombie, wait_child, running, bit_at,
  no_action, SigAction, pipe_read,
}
use minixfs.Kernel.Fds.{
  open_pipe, close, alloc_fd, get_file, set_fd, acquire_fd, release_file, close_vnode, fcntl,
  set_close_on_exec, control,
}
use minixfs.Kernel.Io.{lseek}
use minixfs.Kernel.Creds.{setuid, setreuid, keep_id}
use minixfs.Kernel.Seeking.{lseek_iff}
use minixfs.Kernel.Granting.{setreuid_grants}
use minixfs.Kernel.Guarded.{Guarded}
use minixfs.Kernel.Masking.{no_handler, starts, spares}
use minixfs.Kernel.Actions.{sigaction}
use minixfs.Kernel.Frames.{push_frame, stack_pointer}
use minixfs.Kernel.Framing.{push_frame_lem}
use minixfs.Kernel.Popping.{at}
use minixfs.Memory.Inv.{IsValid}
use minixfs.Kernel.Killing.{act_on, Guard, mask_by, handle, guard, post_signal-wakes}
use minixfs.Kernel.Signals.{ssetmask, set_signal, post_signal, mem_ℕ, wake, remove_ℕ}
use minixfs.Kernel.Turns.{IsTurn, pick_turns}
use minixfs.Kernel.Procs.{pick, fork}
use minixfs.Kernel.Counts.{Counted}
use minixfs.Kernel.Calls.{
  Call, make_pipe, fork_off, close_fd, perform_all, perform_all-Counted, NoneAt, ends_seen_iff,
  fcntl_fd,
}
use minixfs.Memory.Inv.{IsValid}
use minixfs.Processor.Flags.{no_flags}
use minixfs.Kernel.Sigreturn.{sigreturn}
use minixfs.Kernel.Popping.{at}
use minixfs.Kernel.Returning.{sigreturn-push_frame}
use minixfs.Kernel.Pushing.{SameFrom}
use minixfs.Kernel.Slices.{blocks, end_slice}
use minixfs.Kernel.Resuming.{waiting_in, wake-end_slice}
use minixfs.Kernel.Executing.{Executes, execve_lem}

abbrev overlay : OverlayFs
overlay = record {
  disk = record {
    image = [];
    offset = 0;
    sb = record {
      ninodes = 2;
      nzones = 0;
      imap_blocks = 0;
      zmap_blocks = 0;
      firstdatazone = 0;
      log_zone_size = 0;
      max_size = 0;
      magic = 0;
    };
  };
  vnodes = [];
  names = [];
  next_ino = 3;
}

-- A small address space stands for that of the process.
abbrev pub space : AddressSpace ℕ
space = record {
  low = 0 ∷ 0 ∷ 0 ∷ 0 ∷ 0 ∷ 0 ∷ 0 ∷ 0 ∷ [];
  low_end = 8;
  stack = [];
  stack_low = 0x4000000;
  brk = 8;
  text_end = 0;
  start_stack = 0x4000000;
  icache = [];
}

abbrev pub shell : Process ℕ
shell = new_process 1 space

abbrev pub booted : Kernel ℕ
booted = record {
  fs = overlay;
  tty = none;
  files = [];
  next_file = 0;
  pipes = [];
  next_pipe = 0;
  procs = (1, shell) ∷ [];
  next_pid = 2;
  jiffies = 0;
  runq = 1 ∷ [];
  exit_status = 0;
}

pub booted-Counted : Counted [] booted
unfolding table_get
booted-Counted = record {
  refs = λ f. refl;
  readers = λ q. refl;
  writers = λ q. refl;
  pipes_there = λ f q o h e. ground (arith, h);
  pids = λ n p h. ground (arith, h);
  slots = λ n p h. ground (arith, h);
  fresh_files = λ f h. refl;
  fresh_pipes = λ q h. refl;
  fresh_pids = λ n h. ground (arith, h);
  distinct_files = tt;
}

-- A pipe, a child, and the write end closed in both.
abbrev session : List Call
session = make_pipe 1 0 ∷ fork_off 1 ∷ close_fd 1 1 ∷ close_fd 2 1 ∷ []

perform_all-Counted_example : Counted [] (perform_all session booted)
perform_all-Counted_example = perform_all-Counted session booted booted-Counted

abbrev left : Pipe
left = record { buf = []; readers = 2; writers = 0 }

session-left : table_get 0 (perform_all session booted).pipes ≡ some left
unfolding perform_all open_pipe fork close alloc_fd get_file set_fd acquire_fd release_file proc
    put_proc file put_file the_pipe put_pipe table_get table_set write_u32 close_vnode store_low
session-left = refl

ends_seen_iff_example :
    ((left.buf ≡ []) → ((read left 5).1 ≡ some []) ↔ NoneAt writable 0 (perform_all session booted))
    × ((left.buf ≡ []) → ((read left 5).1 ≡ none) ⊎ ((read left 5).1 ≡ some []))
    × (((write left (7 ∷ [])).1 ≡ err epipe) ↔ NoneAt readable 0 (perform_all session booted))
ends_seen_iff_example = ends_seen_iff session booted 0 5 7 [] left booted-Counted session-left

-- A process that is not root, with a file of four bytes open.
abbrev note : VInode
note = record {
  ino = 3;
  mode = 33188;
  uid = 7;
  gid = 7;
  nlinks = 1;
  mtime = 0;
  rdev = 0;
  disk_size = 0;
  content = some (1 ∷ 2 ∷ 3 ∷ 4 ∷ []);
  entries = none;
  base = none;
  open_refs = 1;
  deleted = false;
}

abbrev opened : OpenFile
opened = record { obj = vnode 3; flags = 0; pos = 2; refs = 1 }

abbrev guest : Process ℕ
guest = record shell { uid = 7; euid = 7; suid = 7; fds = some 0 ∷ replicate 19 none }

abbrev reading : Kernel ℕ
reading = record booted {
  fs = record overlay { vnodes = (3, note) ∷ [] };
  files = (0, opened) ∷ [];
  next_file = 1;
  procs = (1, guest) ∷ [];
}

-- One byte back from the end.
lseek_iff_example :
    (((lseek 1 0 0xFFFFFFFF 2 reading).0 ≡ ok 3) ↔ (
      ((0xFFFFFFFF < 2 ^ 31) × (3 ≡ 4 + 0xFFFFFFFF))
      ⊎ ((2 ^ 31 ≤ 0xFFFFFFFF) × (3 + 2 ^ 32 ≡ 4 + 0xFFFFFFFF))))
    × (((lseek 1 0 0xFFFFFFFF 2 reading).0 ≡ err (errno einval))
        ↔ ((2 ^ 31 ≤ 0xFFFFFFFF) × (4 + 0xFFFFFFFF < 2 ^ 32)))
    × ((lseek 1 0 0xFFFFFFFF 2 reading).0 ≡ ok 3
        → (lseek 1 0 0xFFFFFFFF 2 reading).1
          ≡ record reading { files = table_set 0 (record opened { pos = 3 }) reading.files })
    × ((lseek 1 0 0xFFFFFFFF 2 reading).0 ≡ err (errno einval)
        → (lseek 1 0 0xFFFFFFFF 2 reading).1 ≡ reading)
unfolding get_file proc table_get size
lseek_iff_example =
    lseek_iff reading 1 0 0 3 opened note 0xFFFFFFFF 2 4 3 refl refl refl refl refl (omega arith)

setreuid_grants_example :
    (setuid 1 0 reading ≡ (err (errno eperm), reading))
    × ((setreuid 1 keep_id 0 reading).0 ≡ ok 0)
    × (table_get 1 (setreuid 1 keep_id 0 reading).1.procs ≡ some (record guest { euid = 0 }))
    × (◌≡◌ {A = ℕ} 0 0
        → table_get 1 (setuid 1 9 (setreuid 1 keep_id 0 reading).1).1.procs
          ≡ some (record guest { uid = 9; suid = 9; euid = 9 }))
unfolding table_get
setreuid_grants_example =
    setreuid_grants reading 1 0 9 guest refl refl (λ e. omega (arith, e)) (λ e. omega (arith, e))
      (λ e. omega (arith, e)) (λ e. omega (arith, e))

-- A sleeper, one that can run, and one more.
abbrev waiting : Kernel ℕ
waiting = record booted {
  procs =
      (1, record shell { state = sleeping })
      ∷ (2, record shell { pid = 2 })
      ∷ (3, record shell { pid = 3; state = zombie })
      ∷ [];
  runq = 1 ∷ 3 ∷ 2 ∷ [];
}

pick_turns_example :
    (r : Option ℕ) × ((pick waiting).0 ≡ ok r)
    × IsTurn waiting.procs waiting.runq [] r (pick waiting).1.runq
pick_turns_example = pick_turns waiting

-- Everything is masked and handled; then a handler starts whose action has SIGKILL in its mask, and the
-- shell waits for a child.
abbrev defences : List Guard
defences =
    mask_by 0xFFFFFFFF ∷ handle 9 4096 0 ∷ handle 15 4096 0 ∷ act_on 9 0 0 ∷ act_on 2 0 0 ∷ []

abbrev ready_shell : Process ℕ
ready_shell = at shell 0 0 0 0 0x3FFFFF0 0 0 0

abbrev ready : Kernel ℕ
ready = record booted { procs = (1, ready_shell) ∷ [] }

abbrev guarded : Process ℕ
guarded = record shell {
  blocked = 0xFFFFFEFF;
  sigactions =
      set (replicate 33 no_action) 15
        (record { handler = 4096; mask = 0; sa_flags = 0xC0000000; restorer = 0 });
}

abbrev ready_guarded : Process ℕ
ready_guarded = at guarded 0 0 0 0 0x3FFFFF0 0 0 0

abbrev greedy : SigAction
greedy = record { handler = 4096; mask = 256; sa_flags = 0; restorer = 0 }

abbrev handler_runs : Process ℕ
handler_runs = (push_frame 15 greedy ready_guarded).0

pub space-IsValid : IsValid space
space-IsValid = omega arith

frame_built : (push_frame 15 greedy ready_guarded).1 ≡ ok tt
frame_built =
    (push_frame_lem guarded 15 greedy 0 0 0 0 0x3FFFFF0 0 0 0 space-IsValid (omega arith)
      (omega arith)).done

abbrev asleep_now : Process ℕ
asleep_now = record handler_runs { state = sleeping; wait_channel = some (wait_child 1) }

abbrev sleeping_kernel : Kernel ℕ
sleeping_kernel = record booted { procs = (1, asleep_now) ∷ [] }

ready-Guarded : Guarded 1 ready
unfolding table_get
ready-Guarded = record {
  process = ready_shell;
  at = refl;
  own = refl;
  unmasked = refl;
  default = refl;
  actions = refl;
}

post_signal-wakes_example :
    (r : Process ℕ) × (table_get 1 (post_signal 1 9 sleeping_kernel).1.procs ≡ some r)
    × (bit_at r.signal 8 ≡ true)
    × (bit_at r.blocked 8 ≡ true)
    × (r.state ≡ sleeping)
    × (r.wait_channel ≡ some (wait_child 1))
unfolding guard ssetmask set_signal sigaction proc put_proc table_get table_set spares
post_signal-wakes_example =
    post_signal-wakes 1 defences ready sleeping_kernel ready_guarded handler_runs (256 ∷ [])
      (some (wait_child 1)) ready-Guarded refl
      (starts 15 greedy ready_guarded [] no_handler frame_built) refl
