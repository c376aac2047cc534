-- ===== src/Kernel/Replaced.antt =====
-- `execve` of kernel.py keeps the counts of its open files and pipes.
use minixfs.Prelude.{
  ℕ, zero, suc, ◌+◌, refl, List, [], ◌∷◌, ◌==◌, if◌then◌else◌, Bytes, ok, err, arith, Result-cases,
  inl, inr, Result,
}
use minixfs.Memory as Memory
use minixfs.Memory.{AddressSpace}
use minixfs.MinixFs.Dir.{Text}
use minixfs.Kernel.State.{
  Process, Kernel, nr_open, fault, K, ◌>>=◌, ◌>>◌, return, trap, Done, proc, put_proc, Trap,
}
use minixfs.Kernel.Fds.{close}
use minixfs.Kernel.Open.{place_of}
use minixfs.Kernel.Io.{cstr}
use minixfs.Kernel.Actions.{read_word}
use minixfs.Kernel.Counts.{Counted}
use minixfs.Kernel.Keeps.{
  Keeps, moved, bind-Keeps, then-Keeps, if-Keeps, update-Keeps, proc-Keeps, aside-Keeps,
}
use minixfs.Kernel.Using.{return-Keeps, result-Keeps}
use minixfs.Kernel.Opening.{cstr-Keeps}
use minixfs.Kernel.Sharing.{close-Counted}
use minixfs.Kernel.Execve.{
  Strings, placed, with_environment, with_arguments, imaged, reset, read_ptrs, read_ptr_array,
  exec_strings, or_name, is_marked, close_marked, replace, exec_image, take_image, exec_with,
  execve, ExecTrap,
}
use minixfs.Overlay.Lookup.{Place}

module _ {I : Type 0} (pid : ℕ) where
  read_word-Keeps : (addr : ℕ) → Keeps {I = I} (read_word pid addr)
  unfolding read_word
  read_word-Keeps addr =
      proc-Keeps pid
        (λ p. elim (Memory.read_u32 p.mem addr) [ ok v ↦ return v | err e ↦ trap (fault e) ])
        (λ p. result-Keeps (Memory.read_u32 p.mem addr) (λ v. return v) fault (λ v. return-Keeps v))

  read_ptrs-Keeps : (left addr : ℕ) → Keeps {I = I} (read_ptrs pid left addr)
  unfolding read_ptrs
  read_ptrs-Keeps zero addr = return-Keeps {A = List Bytes} []
  read_ptrs-Keeps (suc left) addr =
      let more : Bytes → K I (List Bytes) =
        λ text. read_ptrs pid left (addr + 4) >>= λ rest. return (text ∷ rest) in
      bind-Keeps (read_word pid addr)
        (λ ptr. if ptr == 0 then return [] else (cstr pid ptr >>= more)) (read_word-Keeps addr)
        (λ ptr.
          if-Keeps (ptr == 0) (return []) (cstr pid ptr >>= more) (return-Keeps {A = List Bytes} [])
            (bind-Keeps (cstr pid ptr) more (cstr-Keeps pid ptr) (λ text.
              bind-Keeps (read_ptrs pid left (addr + 4)) (λ rest. return (text ∷ rest))
                (read_ptrs-Keeps left (addr + 4)) (λ rest. return-Keeps (text ∷ rest)))))

  read_ptr_array-Keeps : (addr : ℕ) → Keeps {I = I} (read_ptr_array pid addr)
  unfolding read_ptr_array
  read_ptr_array-Keeps addr =
      if-Keeps (addr == 0) (return []) (read_ptrs pid 512 addr) (return-Keeps {A = List Bytes} [])
        (read_ptrs-Keeps 512 addr)

  exec_strings-Keeps : (path argvp envpp : ℕ) → Keeps {I = I} (exec_strings pid path argvp envpp)
  unfolding exec_strings
  exec_strings-Keeps path argvp envpp =
      bind-Keeps (cstr pid path) (with_arguments pid argvp envpp) (cstr-Keeps pid path) (λ name.
        bind-Keeps (read_ptr_array pid argvp) (with_environment pid envpp name)
          (read_ptr_array-Keeps argvp)
          (λ argv.
            bind-Keeps (read_ptr_array pid envpp) (placed pid name argv)
              (read_ptr_array-Keeps envpp)
              (λ envp.
                proc-Keeps pid
                  (λ p. return {A = Strings} (name, or_name name argv, envp, place_of p))
                  (λ p. return-Keeps {A = Strings} (name, or_name name argv, envp, place_of p)))))

  close-Keeps : (fd : ℕ) → Keeps {I = I} (close pid fd)
  close-Keeps fd s c = close-Counted pid s fd c

  abbrev close_next : ℕ → ℕ → Process I → K I Done
  close_next n i p = do
    if is_marked p i then (do _ ← close pid i; return tt) else return tt
    close_marked pid n (i + 1)

  close_marked-Keeps : (n i : ℕ) → Keeps {I = I} (close_marked pid n i)
  unfolding close_marked
  close_marked-Keeps zero i = return-Keeps tt
  close_marked-Keeps (suc n) i = proc-Keeps pid (close_next n i) (λ p.
      then-Keeps (if is_marked p i then (close pid i >>= λ _. return tt) else return tt)
        (close_marked pid n (i + 1))
        (if-Keeps (is_marked p i) (close pid i >>= λ _. return tt) (return tt)
          (bind-Keeps (close pid i) (λ _. return tt) (close-Keeps i) (λ _. return-Keeps tt))
          (return-Keeps tt))
        (close_marked-Keeps n (i + 1)))

  replace-Keeps :
      (name : Text) (mem : AddressSpace I) (entry esp : ℕ) → Keeps (replace pid name mem entry esp)
  unfolding replace
  replace-Keeps name mem entry esp =
      let last : K I Done = proc pid >>= λ q. (put_proc (reset q) >> return tt) in
      update-Keeps pid (imaged name mem entry esp) (λ p. close_marked pid nr_open 0 >> last)
        (λ p. (refl, refl))
        (λ p.
          then-Keeps (close_marked pid nr_open 0) last (close_marked-Keeps nr_open 0)
            (update-Keeps pid reset (λ q. return tt) (λ q. (refl, refl)) (λ q. return-Keeps tt)))

  take_image-Counted :
      (name : Text) (image : Result ExecTrap (AddressSpace I × ℕ × ℕ)) (s : Kernel I)
      → Counted [] s
      → Counted [] (take_image pid name image s).1
  unfolding take_image
  take_image-Counted name (err e) s c = c
  take_image-Counted name (ok (mem, entry, esp)) s c =
      elim (Result-cases (replace pid name mem entry esp s).0) [
        | inl (a, e) ↦ moved (ground (arith, e)) (replace-Keeps name mem entry esp s c)
        | inr (x, e) ↦ moved (ground (arith, e)) (replace-Keeps name mem entry esp s c)
      ]

  exec_with-Counted :
      (texts : Result Trap (Text × List Bytes × List Bytes × Place)) (s : Kernel I)
      → Counted [] s
      → Counted [] (exec_with pid texts s).1
  unfolding exec_with
  exec_with-Counted (err e) s c = c
  exec_with-Counted (ok (name, argv, envp, place)) s c =
      let (image, fs') = exec_image name argv envp place s.fs in
      take_image-Counted name image (record s { fs = fs' })
        (aside-Keeps s fs' s.runq s.exit_status c)

  pub execve-Counted :
      (path argvp envpp : ℕ) (s : Kernel I)
      → Counted [] s
      → Counted [] (execve pid path argvp envpp s).1
  unfolding execve
  execve-Counted path argvp envpp s c =
      let (texts, s') = exec_strings pid path argvp envpp s in
      exec_with-Counted texts s' (exec_strings-Keeps path argvp envpp s c)
