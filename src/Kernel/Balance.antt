-- ===== src/Kernel/Balance.antt =====
-- Acquiring and releasing keep the counts of kernel.py, with the descriptor in hand.
use minixfs.Prelude.{
  ℕ, ◌+◌, ◌-◌, ◌≡◌, refl, ◌≢◌, Bool, Option-cases, ◌⊎◌, inl, inr, some, List, ◌∷◌, ok, arith,
}
use minixfs.Pipe.{Pipe}
use minixfs.Overlay.Dict.{
  Table, table_get, table_set, table_get-table_set, total, total-table_set, table_set-Distinct,
}
use minixfs.Overlay.State.{OverlayFs}
use minixfs.Kernel.State.{
  FileObj, vnode, pipe, terminal, null_device, OpenFile, readable, writable, Kernel,
}
use minixfs.Kernel.Fds.{acquire_fd, release_file}
use minixfs.Kernel.Counts.{Counted, end_share}
use minixfs.Kernel.Acquire.{
  more, fewer, end_more, end_fewer, acquire_pipe, acquire_plain, release_pipe, release_plain,
}

pub FileObj-cases : (x : FileObj) → ((q : ℕ) × (x ≡ pipe q)) ⊎ ((q : ℕ) → x ≢ pipe q)
FileObj-cases (pipe q) = inl (q, refl)
FileObj-cases (vnode n) = inr (λ q e. cc)
FileObj-cases terminal = inr (λ q e. cc)
FileObj-cases null_device = inr (λ q e. cc)

-- An open file that is not at the pipe has no share in its counts, whatever its references.
no_share :
    (open_for : OpenFile → Bool) (p : ℕ) (o : OpenFile) (x : FileObj)
    → o.obj ≡ x
    → o.obj ≢ pipe p
    → (n : ℕ) → end_share open_for p (record o { refs = n }) ≡ 0
no_share open_for p o (pipe q) e h n = ground (arith, e, h)
no_share open_for p o (vnode m) e h n = ground (arith, e)
no_share open_for p o terminal e h n = ground (arith, e)
no_share open_for p o null_device e h n = ground (arith, e)

total_at :
    (w : OpenFile → ℕ) (f : ℕ) (o o' : OpenFile) (files : Table OpenFile)
    → table_get f files ≡ some o
    → total w (table_set f o' files) + w o ≡ total w files + w o'
total_at w f o o' files at = ground (arith, at, total-table_set w f o' files)

module _ {I : Type 0} {extra : List ℕ} {s : Kernel I} {f : ℕ} {o : OpenFile}
    (at : table_get f s.files ≡ some o) where
  acquire_pipe-Counted :
      (q : ℕ) (e : Pipe)
      → o.obj ≡ pipe q
      → table_get q s.pipes ≡ some e
      → Counted extra s
      → Counted (f ∷ extra) (record s {
        files = table_set f (more o) s.files;
        pipes = table_set q (end_more o e) s.pipes;
      })
  acquire_pipe-Counted q e is there c = record {
    refs = λ g. ground (arith, at, c.refs g, table_get-table_set f g (more o) s.files);
    readers = λ p. ground (
      arith,
      at,
      is,
      there,
      c.readers p,
      table_get-table_set q p (end_more o e) s.pipes,
      total-table_set (end_share readable p) f (more o) s.files,
    );
    writers = λ p. ground (
      arith,
      at,
      is,
      there,
      c.writers p,
      table_get-table_set q p (end_more o e) s.pipes,
      total-table_set (end_share writable p) f (more o) s.files,
    );
    pipes_there = λ g p u at_g is_p. ground (
      arith,
      at,
      is,
      there,
      at_g,
      is_p,
      c.pipes_there g p u,
      table_get-table_set f g (more o) s.files,
      table_get-table_set q p (end_more o e) s.pipes,
    );
    pids = c.pids;
    slots = c.slots;
    fresh_pids = c.fresh_pids;
    distinct_files = table_set-Distinct f (more o) s.files c.distinct_files;
    fresh_files =
        λ g h. ground (arith, h, at, c.fresh_files g h, table_get-table_set f g (more o) s.files);
    fresh_pipes = λ p h.
        ground (arith, h, there, c.fresh_pipes p h, table_get-table_set q p (end_more o e) s.pipes);
  }

  acquire_plain-Counted :
      ((q : ℕ) → o.obj ≢ pipe q)
      → Counted extra s
      → Counted (f ∷ extra) (record s { files = table_set f (more o) s.files })
  acquire_plain-Counted no_pipe c = record {
    refs = λ g. ground (arith, at, c.refs g, table_get-table_set f g (more o) s.files);
    readers = λ p. omega (
      arith,
      c.readers p,
      (share_plain readable p).0,
      (share_plain readable p).1,
      total_at (end_share readable p) f o (more o) s.files at,
    );
    writers = λ p. omega (
      arith,
      c.writers p,
      (share_plain writable p).0,
      (share_plain writable p).1,
      total_at (end_share writable p) f o (more o) s.files at,
    );
    pipes_there = λ g p u at_g is_p. ground (
      arith,
      at,
      at_g,
      is_p,
      no_pipe p,
      c.pipes_there g p u,
      table_get-table_set f g (more o) s.files,
    );
    pids = c.pids;
    slots = c.slots;
    fresh_pids = c.fresh_pids;
    distinct_files = table_set-Distinct f (more o) s.files c.distinct_files;
    fresh_files =
        λ g h. ground (arith, h, at, c.fresh_files g h, table_get-table_set f g (more o) s.files);
    fresh_pipes = c.fresh_pipes;
  }
    where
      share_plain :
          (open_for : OpenFile → Bool) (p : ℕ)
          → (end_share open_for p o ≡ 0) × (end_share open_for p (more o) ≡ 0)
      share_plain open_for p = (
        no_share open_for p o o.obj refl (no_pipe p) o.refs,
        no_share open_for p o o.obj refl (no_pipe p) (o.refs + 1),
      )

  release_pipe-Counted :
      (q : ℕ) (e : Pipe)
      → o.obj ≡ pipe q
      → table_get q s.pipes ≡ some e
      → Counted (f ∷ extra) s
      → Counted extra (record s {
        files = table_set f (fewer o) s.files;
        pipes = table_set q (end_fewer o e) s.pipes;
      })
  release_pipe-Counted q e is there c = record {
    refs = λ g. ground (arith, at, c.refs g, table_get-table_set f g (fewer o) s.files);
    readers = λ p. ground (
      arith,
      at,
      is,
      there,
      c.refs f,
      c.readers p,
      table_get-table_set q p (end_fewer o e) s.pipes,
      total-table_set (end_share readable p) f (fewer o) s.files,
    );
    writers = λ p. ground (
      arith,
      at,
      is,
      there,
      c.refs f,
      c.writers p,
      table_get-table_set q p (end_fewer o e) s.pipes,
      total-table_set (end_share writable p) f (fewer o) s.files,
    );
    pipes_there = λ g p u at_g is_p. ground (
      arith,
      at,
      is,
      there,
      at_g,
      is_p,
      c.pipes_there g p u,
      table_get-table_set f g (fewer o) s.files,
      table_get-table_set q p (end_fewer o e) s.pipes,
    );
    pids = c.pids;
    slots = c.slots;
    fresh_pids = c.fresh_pids;
    distinct_files = table_set-Distinct f (fewer o) s.files c.distinct_files;
    fresh_files =
        λ g h. ground (arith, h, at, c.fresh_files g h, table_get-table_set f g (fewer o) s.files);
    fresh_pipes = λ p h.
        ground
          (arith, h, there, c.fresh_pipes p h, table_get-table_set q p (end_fewer o e) s.pipes);
  }

  release_plain-Counted :
      (fs' : OverlayFs)
      → ((q : ℕ) → o.obj ≢ pipe q)
      → Counted (f ∷ extra) s
      → Counted extra (record s { files = table_set f (fewer o) s.files; fs = fs' })
  release_plain-Counted fs' no_pipe c = record {
    refs = λ g. ground (arith, at, c.refs g, table_get-table_set f g (fewer o) s.files);
    readers = λ p. omega (
      arith,
      c.readers p,
      (share_plain readable p).0,
      (share_plain readable p).1,
      total_at (end_share readable p) f o (fewer o) s.files at,
    );
    writers = λ p. omega (
      arith,
      c.writers p,
      (share_plain writable p).0,
      (share_plain writable p).1,
      total_at (end_share writable p) f o (fewer o) s.files at,
    );
    pipes_there = λ g p u at_g is_p. ground (
      arith,
      at,
      at_g,
      is_p,
      no_pipe p,
      c.pipes_there g p u,
      table_get-table_set f g (fewer o) s.files,
    );
    pids = c.pids;
    slots = c.slots;
    fresh_pids = c.fresh_pids;
    distinct_files = table_set-Distinct f (fewer o) s.files c.distinct_files;
    fresh_files =
        λ g h. ground (arith, h, at, c.fresh_files g h, table_get-table_set f g (fewer o) s.files);
    fresh_pipes = c.fresh_pipes;
  }
    where
      share_plain :
          (open_for : OpenFile → Bool) (p : ℕ)
          → (end_share open_for p o ≡ 0) × (end_share open_for p (fewer o) ≡ 0)
      share_plain open_for p = (
        no_share open_for p o o.obj refl (no_pipe p) o.refs,
        no_share open_for p o o.obj refl (no_pipe p) (o.refs - 1),
      )

module _ {I : Type 0} {extra : List ℕ} {s : Kernel I} where
  -- An open file of the table gets one reference more.
  pub acquire_fd-Counted :
      (f : ℕ) (o : OpenFile)
      → table_get f s.files ≡ some o
      → Counted extra s
      → (s' : Kernel I) × (acquire_fd f s ≡ (ok tt, s'))
        × Counted (f ∷ extra) s'
        × (s'.procs ≡ s.procs)
        × (s'.next_pid ≡ s.next_pid)
  acquire_fd-Counted f o at c = elim (FileObj-cases o.obj) [
    | inr no_pipe ↦
        (_, acquire_plain s f o at no_pipe, acquire_plain-Counted at no_pipe c, refl, refl)
    | inl (q, is) ↦ elim (Option-cases (table_get q s.pipes)) [
      | inl missing ↦ absurd (c.pipes_there f q o at is missing)
      | inr (e, there) ↦ (
        _,
        acquire_pipe s f o at q e is there,
        acquire_pipe-Counted at q e is there c,
        refl,
        refl,
      )
    ]
  ]

  -- The reference in hand is given back.
  pub release_file-Counted :
      (f : ℕ) (o : OpenFile)
      → table_get f s.files ≡ some o
      → Counted (f ∷ extra) s
      → (s' : Kernel I) × (release_file f s ≡ (ok tt, s')) × Counted extra s' × (s'.procs ≡ s.procs)
  release_file-Counted f o at c = elim (FileObj-cases o.obj) [
    | inr no_pipe ↦
        let (fs', run) = release_plain s f o at no_pipe in
        (_, run, release_plain-Counted at fs' no_pipe c, refl)
    | inl (q, is) ↦ elim (Option-cases (table_get q s.pipes)) [
      | inl missing ↦ absurd (c.pipes_there f q o at is missing)
      | inr (e, there) ↦
          (_, release_pipe s f o at q e is there, release_pipe-Counted at q e is there c, refl)
    ]
  ]
