-- ===== src/Kernel/Using.antt =====
-- Steps of reading, writing and seeking keep the counts of kernel.py.
use minixfs.Prelude.{
  ℕ, ◌≡◌, refl, Option-cases, inl, inr, Option, none, some, Result, ok, err, arith, Bytes, length,
}
use minixfs.Memory as Memory
use minixfs.Memory.{SegFault}
use minixfs.Pipe.{Pipe}
use minixfs.Tty.{Tty}
use minixfs.Overlay.State as Overlay
use minixfs.Overlay.State.{VInode, size}
use minixfs.Overlay.Dict.{table_get, table_set, table_get-table_set}
use minixfs.Kernel.State.{
  FileObj, vnode, pipe, terminal, null_device, Trap, K, put_file, the_pipe, put_pipe, return, trap,
  ◌>>=◌, ◌>>◌, fault,
}
use minixfs.Kernel.Io.{store, load, inode, seek_to, put_terminal, terminal_now}
use minixfs.Kernel.Keeps.{Keeps, moved, then-Keeps, update-Keeps, proc-Keeps, in_fs-Keeps}
use minixfs.Kernel.Control.{put_file-Counted, file-cases}

module _ {I : Type 0} {A : Type 0} where
  pub return-Keeps : (a : A) → Keeps {I = I} {A = A} (return a)
  return-Keeps a s c = c

  -- A result of the memory, of a pipe or of the terminal, and what is done about it.
  pub result-Keeps :
      {E B : Type 0} (r : Result E B) (k : B → K I A) (g : E → Trap)
      → ((b : B) → Keeps (k b))
      → Keeps {A = A} (elim r as (λ _. K I A) [ ok b ↦ k b | err e ↦ trap (g e) ])
  result-Keeps (ok b) k g kk = kk b
  result-Keeps (err e) k g kk = λ s c. c

  pub option-Keeps :
      {B : Type 0} (r : Option B) (k : B → K I A) (x : Trap)
      → ((b : B) → Keeps (k b))
      → Keeps {A = A} (elim r as (λ _. K I A) [ none ↦ trap x | some b ↦ k b ])
  option-Keeps none k x kk = λ s c. c
  option-Keeps (some b) k x kk = kk b

  pub object-Keeps :
      (x : FileObj) (v p : ℕ → K I A) (t n : K I A)
      → ((i : ℕ) → Keeps (v i))
      → ((q : ℕ) → x ≡ pipe q → Keeps (p q))
      → Keeps t
      → Keeps n
      → Keeps {A = A}
          (elim x as (λ _. K I A) [ vnode i ↦ v i | pipe q ↦ p q | terminal ↦ t | null_device ↦ n ])
  object-Keeps (vnode i) v p t n kv kp kt kn = kv i
  object-Keeps (pipe q) v p t n kv kp kt kn = kp q refl
  object-Keeps terminal v p t n kv kp kt kn = kt
  object-Keeps null_device v p t n kv kp kt kn = kn

module _ {I : Type 0} where
  pub seek_to-Keeps : (f pos : ℕ) → Keeps {I = I} (seek_to f pos)
  unfolding seek_to put_file
  seek_to-Keeps f pos s c = elim (file-cases s f) [
    | inl (x, e) ↦ moved (ground (arith, e)) c
    | inr (o, at, e) ↦
        moved (ground (arith, e))
          (put_file-Counted s f o (record o { pos = pos }) at refl refl refl c)
  ]

  store-Keeps : (pid addr : ℕ) (d : Bytes) → Keeps {I = I} (store pid addr d)
  unfolding store
  store-Keeps pid addr d =
      update-Keeps pid (λ p. record p { mem = (Memory.write p.mem addr d).0 })
        (λ p. elim ((Memory.write p.mem addr d).1) [ ok _ ↦ return tt | err e ↦ trap (fault e) ])
        (λ p. (refl, refl))
        (λ p.
          result-Keeps (Memory.write p.mem addr d).1 (λ _. return tt) fault (λ _. return-Keeps tt))

  -- The bytes go to the caller, and their number is the value of the call.
  abbrev pub stored : ℕ → ℕ → Bytes → K I ℕ
  stored pid addr d = store pid addr d >> return (length d)

  pub stored-Keeps : (pid addr : ℕ) (d : Bytes) → Keeps {I = I} (stored pid addr d)
  stored-Keeps pid addr d =
      then-Keeps (store pid addr d) (return (length d)) (store-Keeps pid addr d)
        (return-Keeps (length d))

  pub load-Keeps : (pid addr n : ℕ) → Keeps {I = I} (load pid addr n)
  unfolding load
  load-Keeps pid addr n =
      proc-Keeps pid
        (λ p. elim (Memory.read p.mem addr n) [ ok d ↦ return d | err e ↦ trap (fault e) ])
        (λ p. result-Keeps (Memory.read p.mem addr n) (λ d. return d) fault (λ d. return-Keeps d))

  pub inode-Keeps : (n : ℕ) → Keeps {I = I} (inode n)
  inode-Keeps n = in_fs-Keeps (Overlay.the n)

  -- A pipe is changed in its bytes alone.
  pub put_pipe-Keeps :
      {A : Type 0} (q : ℕ) (g : Pipe → Pipe) (k : Pipe → K I A)
      → ((e : Pipe) → ((g e).readers ≡ e.readers) × ((g e).writers ≡ e.writers))
      → ((e : Pipe) → Keeps (k e))
      → Keeps (the_pipe q >>= λ e. (put_pipe q (g e) >> k e))
  unfolding the_pipe put_pipe
  put_pipe-Keeps q g k same kk s c = elim (Option-cases (table_get q s.pipes)) [
    | inl none_there ↦ moved (ground (arith, none_there)) c
    | inr (e, at) ↦
        let next = record s { pipes = table_set q (g e) s.pipes } in
        moved (ground (arith, at)) (
          kk e next (record {
            refs = c.refs;
            readers = λ p.
                ground (arith, at, (same e).0, c.readers p, table_get-table_set q p (g e) s.pipes);
            writers = λ p.
                ground (arith, at, (same e).1, c.writers p, table_get-table_set q p (g e) s.pipes);
            pipes_there = λ f p o h is.
                ground (
                  arith,
                  at,
                  h,
                  is,
                  c.pipes_there f p o h is,
                  table_get-table_set q p (g e) s.pipes,
                );
            pids = c.pids;
            slots = c.slots;
            fresh_files = c.fresh_files;
            fresh_pipes = λ p h.
                ground (arith, at, h, c.fresh_pipes p h, table_get-table_set q p (g e) s.pipes);
            fresh_pids = c.fresh_pids;
            distinct_files = c.distinct_files;
          }))
  ]

  pub put_terminal-Keeps : (t : Tty) → Keeps {I = I} (put_terminal t)
  unfolding put_terminal
  put_terminal-Keeps t s c = record {
    refs = c.refs;
    readers = c.readers;
    writers = c.writers;
    pipes_there = c.pipes_there;
    pids = c.pids;
    slots = c.slots;
    fresh_files = c.fresh_files;
    fresh_pipes = c.fresh_pipes;
    fresh_pids = c.fresh_pids;
    distinct_files = c.distinct_files;
  }

  pub terminal_now-Keeps : Keeps {I = I} terminal_now
  unfolding terminal_now
  terminal_now-Keeps s c = elim (Option-cases s.tty) [
    | inl gone ↦ moved (ground (arith, gone)) c
    | inr (t, there) ↦ moved (ground (arith, there)) c
  ]
