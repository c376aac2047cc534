-- ===== src/Kernel/Acquire.antt =====
-- One descriptor more, and one descriptor less, for an open file of kernel.py.
use minixfs.Prelude.{
  ℕ, ◌+◌, ◌-◌, ◌≡◌, refl, ◌≢◌, Bool-cases, Option-cases, inl, inr, some, ◌==◌, if◌then◌else◌, ok,
  arith,
}
use minixfs.Pipe.{Pipe}
use minixfs.Overlay.Dict.{table_get, table_set}
use minixfs.Overlay.State as Overlay
use minixfs.Overlay.State.{OverlayFs}
use minixfs.Kernel.State.{
  FileObj, vnode, pipe, terminal, null_device, OpenFile, readable, writable, Kernel, file, put_file,
  the_pipe, put_pipe,
}
use minixfs.Kernel.Fds.{acquire_fd, release_file, close_vnode}

abbrev pub more : OpenFile → OpenFile
more o = record o { refs = o.refs + 1 }

abbrev pub fewer : OpenFile → OpenFile
fewer o = record o { refs = o.refs - 1 }

abbrev pub end_more : OpenFile → Pipe → Pipe
end_more o e = record e {
  readers = if readable o then e.readers + 1 else e.readers;
  writers = if writable o then e.writers + 1 else e.writers;
}

abbrev pub end_fewer : OpenFile → Pipe → Pipe
end_fewer o e = record e {
  readers = if readable o then e.readers - 1 else e.readers;
  writers = if writable o then e.writers - 1 else e.writers;
}

-- Closing an inode succeeds and changes the overlay alone.
close_vnode_fs :
    {I : Type 0} (n : ℕ) (s : Kernel I)
    → close_vnode n s ≡ (ok tt, record s { fs = (close_vnode n s).1.fs })
unfolding close_vnode Overlay.put
close_vnode_fs n s = elim (Option-cases (table_get n s.fs.vnodes)) [
  | inl e ↦ ground (arith, e)
  | inr (v, e) ↦ ground (arith, e)
]

module _ {I : Type 0} (s : Kernel I) (f : ℕ) (o : OpenFile)
    (at : table_get f s.files ≡ some o) where
  module _ (q : ℕ) (e : Pipe) (is : o.obj ≡ pipe q) (there : table_get q s.pipes ≡ some e) where
    pub acquire_pipe : acquire_fd f s ≡ (
      ok tt,
      record s { files = table_set f (more o) s.files; pipes = table_set q (end_more o e) s.pipes },
    )
    unfolding file put_file the_pipe put_pipe acquire_fd
    acquire_pipe = ground (arith, at, is, there)

    pub release_pipe : release_file f s ≡ (
      ok tt,
      record s {
        files = table_set f (fewer o) s.files;
        pipes = table_set q (end_fewer o e) s.pipes;
      },
    )
    unfolding file put_file the_pipe put_pipe release_file
    release_pipe = ground (arith, at, is, there)

  pub acquire_plain :
      ((q : ℕ) → o.obj ≢ pipe q)
      → acquire_fd f s ≡ (ok tt, record s { files = table_set f (more o) s.files })
  unfolding file put_file acquire_fd
  acquire_plain h = plain o.obj refl h
    where
      plain :
          (x : FileObj)
          → o.obj ≡ x
          → ((q : ℕ) → o.obj ≢ pipe q)
          → acquire_fd f s ≡ (ok tt, record s { files = table_set f (more o) s.files })
      plain (pipe q) e h = absurd (h q e)
      plain (vnode n) e h = ground (arith, at, e)
      plain terminal e h = ground (arith, at, e)
      plain null_device e h = ground (arith, at, e)

  pub release_plain :
      ((q : ℕ) → o.obj ≢ pipe q)
      → (fs' : OverlayFs) × (release_file f s
          ≡ (ok tt, record s { files = table_set f (fewer o) s.files; fs = fs' }))
  unfolding file put_file release_file
  release_plain h = plain o.obj refl h
    where
      plain :
          (x : FileObj)
          → o.obj ≡ x
          → ((q : ℕ) → o.obj ≢ pipe q)
          → (fs' : OverlayFs) × (release_file f s
              ≡ (ok tt, record s { files = table_set f (fewer o) s.files; fs = fs' }))
      plain (pipe q) e h = absurd (h q e)
      plain terminal e h = (s.fs, ground (arith, at, e))
      plain null_device e h = (s.fs, ground (arith, at, e))
      plain (vnode n) e h = elim (Bool-cases (o.refs - 1 == 0)) [
        | inr some_left ↦ (s.fs, ground (arith, at, e, some_left))
        | inl last ↦
            let s' = record s { files = table_set f (fewer o) s.files } in
            ((close_vnode n s').1.fs, ground (arith, at, e, last, close_vnode_fs n s'))
      ]
