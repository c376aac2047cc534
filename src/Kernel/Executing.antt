-- ===== src/Kernel/Executing.antt =====
-- `execve` of kernel.py: it fails and leaves the processes alone, or it replaces one.
use minixfs.Prelude.{
  ℕ, zero, suc, ◌+◌, ◌≡◌, refl, ap, ap₂, ◌∙◌, Bool, true, false, ◌⊎◌, inl, inr, Option, none, some,
  List, [], ◌∷◌, ◌==◌, if◌then◌else◌, get_or, Bytes, map, Result, Result-cases, ok, err,
}
use minixfs.Memory as Memory
use minixfs.Memory.{AddressSpace}
use minixfs.MinixFs.Dir.{Text}
use minixfs.Overlay.Dict.{table_get}
use minixfs.Overlay.State.{OverlayFs}
use minixfs.Overlay.Lookup.{Place}
use minixfs.Kernel.State.{Trap, Process, Kernel, bit_at, fault, K, ◌>>=◌, return, trap, proc}
use minixfs.Kernel.Open.{place_of}
use minixfs.Kernel.Io.{cstr}
use minixfs.Kernel.Actions.{read_word}
use minixfs.Kernel.Counts.{Counted}
use minixfs.Kernel.Keeps.{bind_ok, bind_err, aside-Keeps}
use minixfs.Kernel.Slots.{proc-cases}
use minixfs.Kernel.Image.{replace_lem}
use minixfs.Kernel.Execve.{
  ExecTrap, trapped, Strings, placed, with_environment, with_arguments, read_ptrs, read_ptr_array,
  exec_strings, or_name, after_exec, exec_image, take_image, exec_with, execve,
}

module _ {I : Type 0} where
  -- A step that only looks.
  abbrev Looks : {A : Type 0} → K I A → Type 0
  Looks m = (s : Kernel I) → (m s).1 ≡ s

  module _ {A B : Type 0} where
    bind-Looks : (m : K I A) (f : A → K I B) → Looks m → ((a : A) → Looks (f a)) → Looks (m >>= f)
    bind-Looks m f lm lf s = elim (Result-cases (m s).0) [
      | inl (a, e) ↦ ap (λ r. r.1) (bind_ok m s f a e) ∙ lf a (m s).1 ∙ lm s
      | inr (x, e) ↦ bind_err m s f x e ∙ lm s
    ]

  module _ {A : Type 0} where
    return-Looks : (a : A) → Looks {A = A} (return a)
    return-Looks a s = refl

    if-Looks : (b : Bool) (m n : K I A) → Looks m → Looks n → Looks (if b then m else n)
    if-Looks true m n lm ln = lm
    if-Looks false m n lm ln = ln

    result-Looks :
        {E : Type 0} (r : Result E A) (g : E → Trap)
        → Looks {A = A} (elim r as (λ _. K I A) [ ok b ↦ return b | err e ↦ trap (g e) ])
    result-Looks (ok b) g s = refl
    result-Looks (err e) g s = refl

  module _ (pid : ℕ) where
    proc-Looks : Looks {A = Process I} (proc pid)
    proc-Looks s = elim (proc-cases s pid) [
      | inl (x, e) ↦ ap (λ r. r.1) e
      | inr (p, at, e) ↦ ap (λ r. r.1) e
    ]

    read_word-Looks : (addr : ℕ) → Looks {A = ℕ} (read_word pid addr)
    unfolding read_word
    read_word-Looks addr =
        bind-Looks (proc pid)
          (λ p. elim (Memory.read_u32 p.mem addr) [ ok v ↦ return v | err e ↦ trap (fault e) ])
          proc-Looks (λ p. result-Looks (Memory.read_u32 p.mem addr) fault)

    cstr-Looks : (addr : ℕ) → Looks {A = Text} (cstr pid addr)
    unfolding cstr
    cstr-Looks addr =
        bind-Looks (proc pid)
          (λ p. elim (Memory.read_cstr p.mem addr 4096) [
            | ok t ↦ return t
            | err e ↦ trap (fault e)
          ])
          proc-Looks (λ p. result-Looks (Memory.read_cstr p.mem addr 4096) fault)

    read_ptrs-Looks : (left addr : ℕ) → Looks {A = List Bytes} (read_ptrs pid left addr)
    unfolding read_ptrs
    read_ptrs-Looks zero addr = return-Looks {A = List Bytes} []
    read_ptrs-Looks (suc left) addr =
        let more : Bytes → K I (List Bytes) =
          λ text. read_ptrs pid left (addr + 4) >>= λ rest. return (text ∷ rest) in
        bind-Looks (read_word pid addr)
          (λ ptr. if ptr == 0 then return [] else (cstr pid ptr >>= more)) (read_word-Looks addr)
          (λ ptr.
            if-Looks (ptr == 0) (return []) (cstr pid ptr >>= more)
              (return-Looks {A = List Bytes} [])
              (bind-Looks (cstr pid ptr) more (cstr-Looks ptr) (λ text.
                bind-Looks (read_ptrs pid left (addr + 4)) (λ rest. return (text ∷ rest))
                  (read_ptrs-Looks left (addr + 4)) (λ rest. return-Looks (text ∷ rest)))))

    read_ptr_array-Looks : (addr : ℕ) → Looks {A = List Bytes} (read_ptr_array pid addr)
    unfolding read_ptr_array
    read_ptr_array-Looks addr =
        if-Looks (addr == 0) (return []) (read_ptrs pid 512 addr) (return-Looks {A = List Bytes} [])
          (read_ptrs-Looks 512 addr)

    exec_strings-Looks :
        (path argvp envpp : ℕ) → Looks {A = Strings} (exec_strings pid path argvp envpp)
    unfolding exec_strings
    exec_strings-Looks path argvp envpp =
        bind-Looks (cstr pid path) (with_arguments pid argvp envpp) (cstr-Looks path) (λ name.
          bind-Looks (read_ptr_array pid argvp) (with_environment pid envpp name)
            (read_ptr_array-Looks argvp)
            (λ argv.
              bind-Looks (read_ptr_array pid envpp) (placed pid name argv)
                (read_ptr_array-Looks envpp)
                (λ envp.
                  bind-Looks (proc pid)
                    (λ p. return {A = Strings} (name, or_name name argv, envp, place_of p))
                    proc-Looks
                    (λ p. return-Looks {A = Strings} (name, or_name name argv, envp, place_of p)))))

-- The process `p` of the kernel `s` has been replaced, in the kernel `t`: the image is made of the
-- strings in its memory; it is in place, with its entry and its stack pointer; each slot is empty where
-- it was marked and as it was elsewhere, and no mark is left; what was ignored is still, other signals
-- have their default actions, and no frame is open; all else is kept, as the ids, the directories, the
-- mask and what is pending; and the counts are right.
pub record Replaces {I : Type 0} (pid path argvp envpp : ℕ) (s : Kernel I) (p : Process I)
    (t : Kernel I) : Type 0 where
  pub name : Text
  pub argv : List Bytes
  pub envp : List Bytes
  pub place : Place
  pub mem : AddressSpace I
  pub entry : ℕ
  pub esp : ℕ
  pub fds : List (Option ℕ)
  pub texts : exec_strings pid path argvp envpp s ≡ (ok (name, argv, envp, place), s)
  pub image : (exec_image name argv envp place s.fs).0 ≡ ok (mem, entry, esp)
  pub process :
      table_get pid t.procs
      ≡ some (record p {
        mem = mem;
        cpu = record { regs = 0 ∷ 0 ∷ 0 ∷ 0 ∷ esp ∷ 0 ∷ 0 ∷ 0 ∷ []; eip = entry; eflags = 0x202 };
        name = name;
        fds = fds;
        close_on_exec = 0;
        sigactions = map after_exec p.sigactions;
        sigframes = [];
      })
  pub slots :
      (j : ℕ) → get_or fds j none ≡ (if bit_at p.close_on_exec j then none else get_or p.fds j none)
  pub counted : Counted [] t

module _ {I : Type 0} (pid path argvp envpp : ℕ) (s : Kernel I) (p : Process I) (c : Counted [] s)
    (at : table_get pid s.procs ≡ some p) where
  abbrev pub Executes : Type 0
  Executes =
      ((e : ExecTrap) × (fs' : OverlayFs) × (execve pid path argvp envpp s
          ≡ (err e, record s { fs = fs' })))
      ⊎ ((t : Kernel I) × (execve pid path argvp envpp s ≡ (ok tt, t))
          × Replaces pid path argvp envpp s p t)

  with_texts :
      (name : Text) (argv envp : List Bytes) (place : Place)
      → exec_strings pid path argvp envpp s ≡ (ok (name, argv, envp, place), s)
      → execve pid path argvp envpp s ≡ exec_with pid (ok (name, argv, envp, place)) s
      → Executes
  unfolding exec_with take_image
  with_texts name argv envp place e run =
      let fs' = (exec_image {I = I} name argv envp place s.fs).1 in
      let s1 = record s { fs = fs' } in
      elim (Result-cases (exec_image {I = I} name argv envp place s.fs).0) [
        | inr (x, bad) ↦ inl (x, fs', run ∙ ap (λ r. take_image pid name r s1) bad)
        | inl ((mem, entry, esp), good) ↦
            let (t, fds, done, counted, process, slots) =
              replace_lem pid s1 p name mem entry esp (aside-Keeps s fs' s.runq s.exit_status c)
                at in
            inr (
              t,
              run
                  ∙ ap (λ r. take_image pid name r s1) good
                  ∙ ap
                      (λ (r : Result Trap (Unit {0}) × Kernel I). (elim r.0 [
                        | err e ↦ (err (trapped e), r.1)
                        | ok _ ↦ (ok tt, r.1)
                      ]))
                      done,
              record {
                name = name;
                argv = argv;
                envp = envp;
                place = place;
                mem = mem;
                entry = entry;
                esp = esp;
                fds = fds;
                texts = e;
                image = good;
                process = process;
                slots = slots;
                counted = counted;
              },
            )
      ]

  -- Where the counts of the open files are right, the call always ends in one of two ways: it fails, and
  -- then nothing of the kernel differs but the state of the file system; or the process is replaced as a
  -- whole.
  pub execve_lem : Executes
  unfolding execve exec_with
  execve_lem =
      let same = exec_strings-Looks pid path argvp envpp s in
      elim (Result-cases (exec_strings pid path argvp envpp s).0) [
        | inr (x, bad) ↦ inl (
          trapped x,
          s.fs,
          ap (λ r. exec_with pid r.0 r.1) {x = exec_strings pid path argvp envpp s} {y = (err x, s)}
              (ap₂ (λ r u. (r, u)) bad same),
        )
        | inl ((name, argv, envp, place), good) ↦
            let e : exec_strings pid path argvp envpp s ≡ (ok (name, argv, envp, place), s) =
              ap₂ (λ r u. (r, u)) good same in
            with_texts name argv envp place e (ap (λ r. exec_with pid r.0 r.1) e)
      ]
