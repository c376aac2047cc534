-- ===== src/Kernel/Steps.antt =====
-- Single steps of the calls of kernel.py.
use minixfs.Prelude.{ℕ, ◌≡◌, ap, ◌∙◌, some, ok, arith}
use minixfs.Overlay.Dict.{table_get, table_set}
use minixfs.Kernel.Keeps.{bind_ok, then_ok}
use minixfs.Kernel.State.{K, ◌>>=◌, ◌>>◌, Process, Kernel, proc, put_proc}

module _ {I : Type 0} (pid : ℕ) where
  pub proc_lem :
      (s : Kernel I) (p : Process I) → table_get pid s.procs ≡ some p → proc pid s ≡ (ok p, s)
  unfolding proc
  proc_lem s p at = ground (arith, at)

  pub put_lem :
      (s : Kernel I) (p : Process I)
      → p.pid ≡ pid
      → put_proc p s ≡ (ok tt, record s { procs = table_set pid p s.procs })
  unfolding put_proc
  put_lem s p own = ap (λ k. (ok tt, record s { procs = table_set k p s.procs })) own

module _ {I : Type 0} where
  pub after :
      {A B : Type 0} (m : K I A) (f : A → K I B) (s s' : Kernel I) (a : A)
      → m s ≡ (ok a, s')
      → (m >>= f) s ≡ f a s'
  after m f s s' a e = bind_ok m s f a (ap (λ r. r.0) e) ∙ ap (λ r. f a r.1) e

  pub next :
      {A B : Type 0} (m : K I A) (n : K I B) (s s' : Kernel I) (a : A)
      → m s ≡ (ok a, s')
      → (m >> n) s ≡ n s'
  next m n s s' a e = then_ok m s n a (ap (λ r. r.0) e) ∙ ap (λ r. n r.1) e
