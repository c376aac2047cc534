-- ===== src/Kernel/Execve.antt =====
-- `sys_execve` of kernel.py: the strings of the caller, and the image that takes its place.
use minixfs.Prelude.{
  ℕ, zero, suc, ◌+◌, ◌/◌, ◌%◌, Bool, true, false, ◌&&◌, get_or, none, some, List, [], ◌∷◌, ltb,
  ◌==◌, if◌then◌else◌, set, Bytes, map, Result, ok, err,
}
use minixfs.Memory as Memory
use minixfs.Memory.{AddressSpace}
use minixfs.MinixFs.Dir.{Text}
use minixfs.Exec.{load_aout}
use minixfs.Exec.Shebang.{ResolveError, loader, python_index, resolve_exec}
use minixfs.Exec.Stack.{too_big, seg, setup_stack}
use minixfs.Kernel.State.{
  SigAction, no_action, Process, nr_open, default_stack, blank_cpu, bit_at, Trap, from_exec, fault,
  Kernel, K, ◌>>=◌, ◌>>◌, return, Done, proc, put_proc,
}
use minixfs.Kernel.Fds.{close}
use minixfs.Kernel.Actions.{read_word}
use minixfs.Overlay.State.{OverlayFs}
use minixfs.Overlay.Lookup.{Place}
use minixfs.Kernel.Open.{place_of}
use minixfs.Kernel.Io.{cstr}

-- How the call ends without a new image: one of the ends that the other calls have, E2BIG, or the
-- IndexError of an interpreter line.
pub data ExecTrap : Type 0 where
  trapped : Trap → ExecTrap
  e2big index_error : ExecTrap

abbrev pub of_resolve : ResolveError → ExecTrap
of_resolve (loader e) = trapped (from_exec e)
of_resolve python_index = index_error

-- `str.encode()`, in UTF-8, of a text in latin-1.
unfoldable pub utf8 : Text → Bytes
utf8 [] = []
utf8 (c ∷ cs) =
    let rest = utf8 cs in if ltb c 128 then c ∷ rest else (192 + c / 64) ∷ (128 + c % 64) ∷ rest

-- The arguments, or the name where there are none.
unfoldable pub or_name : Text → List Bytes → List Bytes
unfolding utf8
or_name name [] = utf8 name ∷ []
or_name name (a ∷ rest) = a ∷ rest

-- SIG_IGN stays.
abbrev pub after_exec : SigAction → SigAction
after_exec a = if a.handler == 1 then record no_action { handler = 1 } else no_action

-- The name, the arguments and the environment, and the directories of the caller.
abbrev pub Strings : Type 0
Strings = Text × List Bytes × List Bytes × Place

module _ {I : Type 0} where
  -- `_read_ptr_array`, on the number of strings that may still come.
  unfoldable pub read_ptrs : ℕ → ℕ → ℕ → K I (List Bytes)
  unfolding read_word
  read_ptrs pid zero addr = return []
  read_ptrs pid (suc left) addr = do
    ptr ← read_word pid addr
    if ptr == 0
        then return []
        else do text ← cstr pid ptr; rest ← read_ptrs pid left (addr + 4); return (text ∷ rest)

  unfoldable pub read_ptr_array : ℕ → ℕ → K I (List Bytes)
  unfolding read_ptrs
  read_ptr_array pid addr = if addr == 0 then return [] else read_ptrs pid 512 addr

  -- They are read from the memory of the caller, the name first.
  abbrev pub placed : ℕ → Text → List Bytes → List Bytes → K I Strings
  placed pid name argv envp = do p ← proc pid; return (name, or_name name argv, envp, place_of p)

  abbrev pub with_environment : ℕ → ℕ → Text → List Bytes → K I Strings
  with_environment pid envpp name argv = do
    envp ← read_ptr_array pid envpp
    placed pid name argv envp

  abbrev pub with_arguments : ℕ → ℕ → ℕ → Text → K I Strings
  with_arguments pid argvp envpp name = do
    argv ← read_ptr_array pid argvp
    with_environment pid envpp name argv

  unfoldable pub exec_strings : ℕ → ℕ → ℕ → ℕ → K I Strings
  unfolding read_ptr_array or_name
  exec_strings pid path argvp envpp = do name ← cstr pid path; with_arguments pid argvp envpp name

  -- The new address space, the entry and the stack pointer.
  unfoldable pub exec_image :
      Text
      → List Bytes
      → List Bytes
      → Place
      → OverlayFs
      → Result ExecTrap (AddressSpace I × ℕ × ℕ) × OverlayFs
  exec_image name argv envp place fs =
      let (found, fs1) = resolve_exec 5 name argv place fs in
      elim found [
        | err e ↦ (err (of_resolve e), fs1)
        | ok (ino, args) ↦
            let (loaded, mem1, fs2) = load_aout (Memory.init default_stack) ino fs1 in
            elim loaded [
              | err e ↦ (err (trapped (from_exec e)), fs2)
              | ok (entry, end) ↦
                  let (stacked, mem2) = setup_stack mem1 args envp in
                  elim stacked [
                    | err too_big ↦ (err e2big, fs2)
                    | err (seg e) ↦ (err (trapped (fault e)), fs2)
                    | ok esp ↦ (ok (mem2, entry, esp), fs2)
                  ]
            ]
      ]

  -- The marked descriptors are closed, over the slots in turn.
  abbrev pub is_marked : Process I → ℕ → Bool
  is_marked p i =
      bit_at p.close_on_exec i && elim (get_or p.fds i none) [ none ↦ false | some f ↦ true ]

  unfoldable pub close_marked : ℕ → ℕ → ℕ → K I Done
  close_marked pid zero i = return tt
  close_marked pid (suc n) i = do
    p ← proc pid
    if is_marked p i then (do _ ← close pid i; return tt) else return tt
    close_marked pid n (i + 1)

  -- The process with a new image, and with its marks, frames and actions reset; what it keeps is not
  -- named.
  abbrev pub imaged : Text → AddressSpace I → ℕ → ℕ → Process I → Process I
  imaged name mem entry esp p = record p {
    mem = mem;
    cpu = record blank_cpu { eip = entry; regs = set blank_cpu.regs 4 esp };
    name = name;
  }

  abbrev pub reset : Process I → Process I
  reset q = record q { close_on_exec = 0; sigactions = map after_exec q.sigactions; sigframes = [] }

  unfoldable pub replace : ℕ → Text → AddressSpace I → ℕ → ℕ → K I Done
  unfolding close_marked
  replace pid name mem entry esp = do
    p ← proc pid
    put_proc (imaged name mem entry esp p)
    close_marked pid nr_open 0
    q ← proc pid
    put_proc (reset q)
    return tt

  -- The image, or the end without one.
  unfoldable pub take_image :
      ℕ
      → Text
      → Result ExecTrap (AddressSpace I × ℕ × ℕ)
      → Kernel I
      → Result ExecTrap Done × Kernel I
  unfolding replace
  take_image pid name (err e) s = (err e, s)
  take_image pid name (ok (mem, entry, esp)) s =
      let (done, s') = replace pid name mem entry esp s in
      elim done [ err e ↦ (err (trapped e), s') | ok _ ↦ (ok tt, s') ]

  unfoldable pub exec_with :
      ℕ
      → Result Trap (Text × List Bytes × List Bytes × Place)
      → Kernel I
      → Result ExecTrap Done × Kernel I
  unfolding exec_image take_image
  exec_with pid (err e) s = (err (trapped e), s)
  exec_with pid (ok (name, argv, envp, place)) s =
      let (image, fs') = exec_image name argv envp place s.fs in
      take_image pid name image (record s { fs = fs' })

  -- `sys_execve`; a value stands for `Replaced`, by which the call ends.
  unfoldable pub execve : ℕ → ℕ → ℕ → ℕ → Kernel I → Result ExecTrap Done × Kernel I
  unfolding exec_strings exec_with
  execve pid path argvp envpp s =
      let (texts, s') = exec_strings pid path argvp envpp s in exec_with pid texts s'
