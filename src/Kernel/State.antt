-- ===== src/Kernel/State.antt =====
-- The state of kernel.py and the errors that its calls raise.
-- A call that returns a negative number and one that raises `FsError` meet where the number is
-- stored, so both are errors here. An operation that raises leaves what it changed before, so the
-- state comes back beside the error. The counters that the monitor shows are left out.
use minixfs.Prelude.{
  ℕ, ◌+◌, ◌-◌, ◌/◌, ◌%◌, ◌^◌, Bool, false, not, ◌||◌, Option, none, some, List, [], ◌==◌,
  if◌then◌else◌, replicate, Result, ok, err, Bytes,
}
use minixfs.Memory.{AddressSpace, SegFault}
use minixfs.Pipe.{Pipe}
use minixfs.Tty.{Tty, ValueError}
use minixfs.Overlay.Dict.{Table, table_get, table_set}
use minixfs.Overlay.State as Overlay
use minixfs.Overlay.State.{OverlayFs, FsError}
use minixfs.Exec.{ExecError}

-- ---- bits of a word ----

-- `m & (1 << i)`, `m | (1 << i)` and `m & ~(1 << i)`
abbrev pub bit_at : ℕ → ℕ → Bool
bit_at m i = not (m / 2 ^ i % 2 == 0)

abbrev pub set_bit : ℕ → ℕ → ℕ
set_bit m i = if bit_at m i then m else m + 2 ^ i

abbrev pub clear_bit : ℕ → ℕ → ℕ
clear_bit m i = if bit_at m i then m - 2 ^ i else m

-- ---- open files ----

-- What a descriptor can stand for: an inode of the overlay, a pipe, the terminal, the null device.
pub data FileObj : Type 0 where
  vnode pipe : ℕ → FileObj
  terminal null_device : FileObj

pub record OpenFile : Type 0 where
  pub obj : FileObj
  pub flags : ℕ
  pub pos : ℕ
  pub refs : ℕ

-- `O_ACCMODE` is 3.
abbrev pub readable : OpenFile → Bool
readable f = f.flags % 4 == 0 || f.flags % 4 == 2

abbrev pub writable : OpenFile → Bool
writable f = f.flags % 4 == 1 || f.flags % 4 == 2

-- ---- processes ----

pub data RunState : Type 0 where
  running sleeping zombie stopped : RunState

-- What a sleeping process waits for.
pub data Channel : Type 0 where
  pipe_read pipe_write : ℕ → Channel
  wait_child pause : ℕ → Channel
  terminal_input : Channel

pub record SigAction : Type 0 where
  pub handler : ℕ
  pub mask : ℕ
  pub sa_flags : ℕ
  pub restorer : ℕ

-- What the kernel reads and writes of the processor of a process.
pub record Cpu : Type 0 where
  pub regs : List ℕ
  pub eip : ℕ
  pub eflags : ℕ

abbrev pub nr_open : ℕ
nr_open = 20

pub record Process (I : Type 0) : Type 0 where
  pub pid : ℕ
  pub ppid : ℕ
  pub pgrp : ℕ
  pub session : ℕ
  pub leader : Bool
  pub state : RunState
  pub mem : AddressSpace I
  pub cpu : Cpu
  pub fds : List (Option ℕ)
  pub close_on_exec : ℕ
  pub cwd : ℕ
  pub root : ℕ
  pub umask : ℕ
  pub uid : ℕ
  pub euid : ℕ
  pub suid : ℕ
  pub gid : ℕ
  pub egid : ℕ
  pub sgid : ℕ
  pub signal : ℕ
  pub blocked : ℕ
  pub sigactions : List SigAction
  pub exit_code : ℕ
  pub wait_channel : Option Channel
  pub alarm_at : ℕ
  pub utime : ℕ
  pub stime : ℕ
  pub cutime : ℕ
  pub cstime : ℕ
  pub name : Bytes
  pub restart_syscall : Bool
  pub sigframes : List Bool
  pub kernel_task : Bool

abbrev pub no_action : SigAction
no_action = record { handler = 0; mask = 0; sa_flags = 0; restorer = 0 }

abbrev pub blank_cpu : Cpu
blank_cpu = record { regs = replicate 8 0; eip = 0; eflags = 0x202 }

-- The size of the stack region of a new address space.
abbrev pub default_stack : ℕ
default_stack = 0x80000

-- `Process.__init__`; the working directory and the root are set by the callers.
abbrev pub new_process : {I : Type 0} → ℕ → AddressSpace I → Process I
new_process pid mem = record {
  pid = pid;
  ppid = 0;
  pgrp = pid;
  session = pid;
  leader = false;
  state = running;
  mem = mem;
  cpu = blank_cpu;
  fds = replicate nr_open none;
  close_on_exec = 0;
  cwd = 1;
  root = 1;
  umask = 18;
  uid = 0;
  euid = 0;
  suid = 0;
  gid = 0;
  egid = 0;
  sgid = 0;
  signal = 0;
  blocked = 0;
  sigactions = replicate 33 no_action;
  exit_code = 0;
  wait_channel = none;
  alarm_at = 0;
  utime = 0;
  stime = 0;
  cutime = 0;
  cstime = 0;
  name = [];
  restart_syscall = false;
  sigframes = [];
  kernel_task = false;
}

pub record Kernel (I : Type 0) : Type 0 where
  pub fs : OverlayFs
  pub tty : Option Tty
  pub files : Table OpenFile
  pub next_file : ℕ
  pub pipes : Table Pipe
  pub next_pipe : ℕ
  pub procs : Table (Process I)
  pub next_pid : ℕ
  pub jiffies : ℕ
  pub runq : List ℕ
  pub exit_status : ℕ

-- ---- calls ----

pub data Errno : Type 0 where
  eperm enoent esrch eintr enxio ebadf echild enotdir eisdir einval emfile enotty espipe enosys
        eexist :
      Errno

-- How a call ends without a value: an error number, an error of the overlay, a fault of the address
-- space, a ValueError of the terminal, the exceptions of the scheduler, or a number that names no object,
-- which a Python reference cannot be.
pub data Trap : Type 0 where
  errno : Errno → Trap
  from_fs : FsError → Trap
  from_exec : ExecError → Trap
  broken_pipe : Trap
  fault : SegFault → Trap
  bad_echo : ValueError → Trap
  asleep : Channel → Trap
  exited : ℕ → Trap
  dangling : ℕ → Trap

abbrev pub K : Type 0 → Type 0 → Type 0
K I A = Kernel I → Result Trap A × Kernel I

module _ {I A B : Type 0} where
  infixl 6 ◌>>=◌
  abbrev pub ◌>>=◌ : K I A → (A → K I B) → K I B
  ◌>>=◌ m f s = let (r, s') = m s in elim r [ ok a ↦ f a s' | err e ↦ (err e, s') ]

  infixl 6 ◌>>◌
  abbrev pub ◌>>◌ : K I A → K I B → K I B
  ◌>>◌ m n s = let (r, s') = m s in elim r [ ok a ↦ n s' | err e ↦ (err e, s') ]

module _ {I A : Type 0} where
  abbrev pub return : A → K I A
  return a s = (ok a, s)

  abbrev pub trap : Trap → K I A
  trap e s = (err e, s)

  abbrev pub raise : Errno → K I A
  raise e s = (err (errno e), s)

  -- A call of the overlay.
  abbrev pub in_fs : Overlay.M A → K I A
  in_fs m s =
      let (r, fs') = m s.fs in
      let s' = record s { fs = fs' } in elim r [ ok a ↦ (ok a, s') | err e ↦ (err (from_fs e), s') ]

abbrev pub Done : Type 0
Done = Unit {0}

module _ {I : Type 0} where
  -- The objects that numbers name, and assignments to them.
  unfoldable pub proc : ℕ → K I (Process I)
  proc pid s = elim (table_get pid s.procs) [ none ↦ (err (dangling pid), s) | some p ↦ (ok p, s) ]

  unfoldable pub put_proc : Process I → K I Done
  put_proc p s = (ok tt, record s { procs = table_set p.pid p s.procs })

  unfoldable pub file : ℕ → K I OpenFile
  file f s = elim (table_get f s.files) [ none ↦ (err (dangling f), s) | some o ↦ (ok o, s) ]

  unfoldable pub put_file : ℕ → OpenFile → K I Done
  put_file f o s = (ok tt, record s { files = table_set f o s.files })

  unfoldable pub the_pipe : ℕ → K I Pipe
  the_pipe q s = elim (table_get q s.pipes) [ none ↦ (err (dangling q), s) | some p ↦ (ok p, s) ]

  unfoldable pub put_pipe : ℕ → Pipe → K I Done
  put_pipe q p s = (ok tt, record s { pipes = table_set q p s.pipes })
