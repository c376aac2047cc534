-- ===== src/Kernel/Image.antt =====
-- What `execve` of kernel.py makes of a process.
use minixfs.Prelude.{
  ℕ, ◌≡◌, refl, ◌∙◌, inl, inr, Option, none, some, List, [], ◌∷◌, if◌then◌else◌, get_or, get_or_out,
  lt-cases, map, ok, arith,
}
use minixfs.Memory.{AddressSpace}
use minixfs.MinixFs.Dir.{Text}
use minixfs.Overlay.Dict.{table_get, table_set, table_get-table_set}
use minixfs.Kernel.State.{
  K, Done, return, ◌>>=◌, ◌>>◌, Process, Kernel, nr_open, bit_at, proc, put_proc,
}
use minixfs.Kernel.Counts.{Counted}
use minixfs.Kernel.Slots.{put_same-Counted}
use minixfs.Kernel.Execve.{imaged, reset, close_marked, replace, after_exec}
use minixfs.Kernel.Marked.{close_marked_lem}
use minixfs.Kernel.Steps.{proc_lem, put_lem, after, next}

module _ {I : Type 0} (pid : ℕ) where
  replace_steps :
      (s s2 : Kernel I) (p q : Process I) (name : Text) (mem : AddressSpace I) (entry esp : ℕ)
      → table_get pid s.procs ≡ some p
      → p.pid ≡ pid
      → q.pid ≡ pid
      → close_marked pid nr_open 0
          (record s { procs = table_set pid (imaged name mem entry esp p) s.procs })
        ≡ (ok tt, s2)
      → table_get pid s2.procs ≡ some q
      → replace pid name mem entry esp s
        ≡ (ok tt, record s2 { procs = table_set pid (reset q) s2.procs })
  unfolding replace
  replace_steps s s2 p q name mem entry esp at own own' run at2 =
      let last : K I Done = proc pid >>= λ q. (put_proc (reset q) >> return tt) in
      let p1 = imaged name mem entry esp p in
      let s1 = record s { procs = table_set pid p1 s.procs } in
      after (proc pid)
        (λ p. put_proc (imaged name mem entry esp p) >> (close_marked pid nr_open 0 >> last)) s s p
        (proc_lem pid s p at)
      ∙ next (put_proc p1) (close_marked pid nr_open 0 >> last) s s1 tt (put_lem pid s p1 own)
      ∙ next (close_marked pid nr_open 0) last s1 s2 tt run
      ∙ after (proc pid) (λ q. put_proc (reset q) >> return tt) s2 s2 q (proc_lem pid s2 q at2)
      ∙ next (put_proc (reset q)) (return tt) s2
          (record s2 { procs = table_set pid (reset q) s2.procs }) tt
          (put_lem pid s2 (reset q) own')

  -- Where the counts of the open files are right, a new image always takes the place of the old one:
  -- the process has its memory and starts at its entry with its stack pointer; each of its slots is
  -- empty where it was marked and as it was elsewhere, and no mark is left; what it ignored it goes on
  -- to ignore and all other signals have their default actions; no frame is open; and it keeps all
  -- else, as its ids, its directories, its mask and what is pending. The counts are right again.
  pub replace_lem :
      (s : Kernel I) (p : Process I) (name : Text) (mem : AddressSpace I) (entry esp : ℕ)
      → Counted [] s
      → table_get pid s.procs ≡ some p
      → (s' : Kernel I) × (fds' : List (Option ℕ)) × (replace pid name mem entry esp s
          ≡ (ok tt, s'))
        × Counted [] s'
        × (table_get pid s'.procs
            ≡ some (record p {
              mem = mem;
              cpu = record {
                regs = 0 ∷ 0 ∷ 0 ∷ 0 ∷ esp ∷ 0 ∷ 0 ∷ 0 ∷ [];
                eip = entry;
                eflags = 0x202;
              };
              name = name;
              fds = fds';
              close_on_exec = 0;
              sigactions = map after_exec p.sigactions;
              sigframes = [];
            }))
        × ((j : ℕ)
            → get_or fds' j none ≡ (if bit_at p.close_on_exec j then none else get_or p.fds j none))
  replace_lem s p name mem entry esp c at =
      let p1 = imaged name mem entry esp p in
      let s1 = record s { procs = table_set pid p1 s.procs } in
      let own = c.pids pid p at in
      let c1 : Counted [] s1 = put_same-Counted p1 at own refl c in
      let at1 : table_get pid s1.procs ≡ some p1 =
        ground (arith, table_get-table_set pid pid p1 s.procs) in
      let (s2, fds', run, c2, at2, k) = close_marked_lem pid nr_open 0 s1 p1 c1 at1 in
      let p2 = record p1 { fds = fds' } in
      let p3 = reset p2 in
      (
        record s2 { procs = table_set pid p3 s2.procs },
        fds',
        replace_steps s s2 p p2 name mem entry esp at own own run at2,
        put_same-Counted p3 at2 own refl c2,
        ground (arith, table_get-table_set pid pid p3 s2.procs),
        λ j. elim (lt-cases j nr_open) [
          | inl low ↦ k.inside j (omega arith) (omega (arith, low))
          | inr high ↦
              k.outside j (inr high)
              ∙ ground (arith, get_or_out none p.fds j (omega (arith, high, c.slots pid p at)))
        ],
      )
