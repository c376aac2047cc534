-- ===== src/Kernel/Counts.antt =====
-- The counts of kernel.py: each open file knows how many descriptors stand for it, and each pipe how
-- many stand for its ends.
use minixfs.Prelude.{
  ℕ, suc, zero, ◌+◌, ◌≤◌, ◌<◌, ◌≡◌, ◌≢◌, Bool, false, Option, none, some, List, [], ◌∷◌, ◌==◌,
  if◌then◌else◌, get_or, set, length, arith,
}
use minixfs.Overlay.Dict.{Table, table_get, total, weight, Distinct}
use minixfs.Kernel.State.{
  nr_open, FileObj, vnode, pipe, terminal, null_device, OpenFile, readable, writable, Process,
  Kernel,
}

-- How often a slot, or a list of slots, stands for the open file.
abbrev pub slot_is : ℕ → Option ℕ → ℕ
slot_is f none = 0
slot_is f (some g) = if g == f then 1 else 0

abbrev pub held : ℕ → List (Option ℕ) → ℕ
held f [] = 0
held f (x ∷ xs) = slot_is f x + held f xs

abbrev pub occurrences : ℕ → List ℕ → ℕ
occurrences f [] = 0
occurrences f (g ∷ gs) = (if g == f then 1 else 0) + occurrences f gs

pub held-set :
    (f : ℕ) (xs : List (Option ℕ)) (i : ℕ) (x : Option ℕ)
    → i < length xs
    → held f (set xs i x) + slot_is f (get_or xs i none) ≡ held f xs + slot_is f x
held-set f [] i x h = absurd (omega arith)
held-set f (y ∷ ys) zero x h = omega arith
held-set f (y ∷ ys) (suc i) x h = omega (arith, held-set f ys i x (omega arith))

-- The descriptors of all processes that stand for the open file.
abbrev pub descriptors : {I : Type 0} → ℕ → Table (Process I) → ℕ
descriptors f procs = total (λ p. held f p.fds) procs

abbrev pub is_pipe : ℕ → FileObj → Bool
is_pipe q (pipe p) = p == q
is_pipe q (vnode n) = false
is_pipe q terminal = false
is_pipe q null_device = false

-- The share of an open file in the count at an end of the pipe.
abbrev pub end_share : (OpenFile → Bool) → ℕ → OpenFile → ℕ
end_share open_for q o = if is_pipe q o.obj then (if open_for o then o.refs else 0) else 0

abbrev pub refs_of : ℕ → Table OpenFile → ℕ
refs_of f files = weight (λ o. o.refs) (table_get f files)

-- The references of each open file are the descriptors that stand for it, and those in hand; the
-- readers and writers of each pipe are the references of the open files at its ends.
pub record Counted {I : Type 0} (extra : List ℕ) (s : Kernel I) : Type 0 where
  pub refs : (f : ℕ) → refs_of f s.files ≡ descriptors f s.procs + occurrences f extra
  pub readers :
      (q : ℕ) → weight (λ e. e.readers) (table_get q s.pipes) ≡ total (end_share readable q) s.files
  pub writers :
      (q : ℕ) → weight (λ e. e.writers) (table_get q s.pipes) ≡ total (end_share writable q) s.files
  pub pipes_there :
      (f q : ℕ) (o : OpenFile)
      → table_get f s.files ≡ some o
      → o.obj ≡ pipe q
      → table_get q s.pipes ≢ none
  pub pids : (n : ℕ) (p : Process I) → table_get n s.procs ≡ some p → p.pid ≡ n
  pub slots : (n : ℕ) (p : Process I) → table_get n s.procs ≡ some p → length p.fds ≡ nr_open
  pub fresh_files : (f : ℕ) → s.next_file ≤ f → table_get f s.files ≡ none
  pub fresh_pipes : (q : ℕ) → s.next_pipe ≤ q → table_get q s.pipes ≡ none
  pub fresh_pids : (n : ℕ) → s.next_pid ≤ n → table_get n s.procs ≡ none
  pub distinct_files : Distinct s.files
