-- ===== src/Kernel/Control.antt =====
-- `fcntl` keeps the counts of kernel.py.
use minixfs.Prelude.{
  ℕ, ◌%◌, ◌≡◌, refl, sym, ap, ◌∙◌, Bool-cases, Option-cases, ◌⊎◌, inl, inr, some, [], ◌==◌,
  if◌then◌else◌, ok, err, arith,
}
use minixfs.Overlay.Dict.{
  table_get, table_set, table_get-table_set, total-table_set, table_set-Distinct,
}
use minixfs.Kernel.State.{
  Trap, dangling, OpenFile, readable, writable, Kernel, file, put_file, return, bit_at, set_bit,
  clear_bit,
}
use minixfs.Kernel.Fds.{get_file, with_bit, set_close_on_exec, set_flags, control, fcntl}
use minixfs.Kernel.Counts.{Counted, end_share}
use minixfs.Kernel.Slots.{get_file-cases}
use minixfs.Kernel.Keeps.{Keeps, moved, bind-Keeps, update-Keeps, proc-Keeps}
use minixfs.Kernel.Sharing.{dup_from-Counted}

-- The bits that F_SETFL changes are not those of the access mode.
with_bit-mode : (i old new : ℕ) → (i ≡ 10) ⊎ (i ≡ 11) → with_bit i old new % 4 ≡ old % 4
with_bit-mode i old new (inl e) = rw e (ground arith)
with_bit-mode i old new (inr e) = rw e (ground arith)

module _ {I : Type 0} where
  -- An open file may be replaced by one of the same object, references and access mode.
  pub put_file-Counted :
      (s : Kernel I) (f : ℕ) (o o' : OpenFile)
      → table_get f s.files ≡ some o
      → o'.obj ≡ o.obj
      → o'.refs ≡ o.refs
      → o'.flags % 4 ≡ o.flags % 4
      → Counted [] s
      → Counted [] (record s { files = table_set f o' s.files })
  put_file-Counted s f o o' at obj refs mode c = record {
    refs = λ g. ground (arith, at, refs, c.refs g, table_get-table_set f g o' s.files);
    readers = λ p. ground (
      arith,
      at,
      obj,
      refs,
      mode,
      c.readers p,
      total-table_set (end_share readable p) f o' s.files,
    );
    writers = λ p. ground (
      arith,
      at,
      obj,
      refs,
      mode,
      c.writers p,
      total-table_set (end_share writable p) f o' s.files,
    );
    pipes_there = λ g p u at_g is_p. ground (
      arith,
      at,
      obj,
      at_g,
      is_p,
      c.pipes_there g p u,
      c.pipes_there f p o at,
      table_get-table_set f g o' s.files,
    );
    pids = c.pids;
    slots = c.slots;
    fresh_files =
        λ g h. ground (arith, h, at, c.fresh_files g h, table_get-table_set f g o' s.files);
    fresh_pipes = c.fresh_pipes;
    fresh_pids = c.fresh_pids;
    distinct_files = table_set-Distinct f o' s.files c.distinct_files;
  }

  pub file-cases :
      (s : Kernel I) (f : ℕ)
      → ((x : Trap) × (file f s ≡ (err x, s)))
        ⊎ ((o : OpenFile) × (table_get f s.files ≡ some o) × (file f s ≡ (ok o, s)))
  unfolding file
  file-cases s f = elim (Option-cases (table_get f s.files)) [
    | inl e ↦ inl (dangling f, ground (arith, e))
    | inr (o, e) ↦ inr (o, e, ground (arith, e))
  ]

  set_flags-Keeps : (f arg : ℕ) → Keeps {I = I} (set_flags f arg)
  unfolding set_flags put_file
  set_flags-Keeps f arg s c = elim (file-cases s f) [
    | inl (x, e) ↦ moved (ground (arith, e)) c
    | inr (o, at, e) ↦
        let fl = with_bit 11 (with_bit 10 o.flags arg) arg in
        moved (done fl o e refl) (
          put_file-Counted s f o (record o { flags = fl }) at refl refl
            (with_bit-mode 11 (with_bit 10 o.flags arg) arg (inr refl)
              ∙ with_bit-mode 10 o.flags arg (inl refl))
            c)
  ]
    where
      done :
          (fl : ℕ) (o : OpenFile)
          → file f s ≡ (ok o, s)
          → fl ≡ with_bit 11 (with_bit 10 o.flags arg) arg
          → record s { files = table_set f (record o { flags = fl }) s.files }
            ≡ (set_flags f arg s).1
      done fl o e is = ground (arith, e, is)

  pub get_file-Keeps : (pid fd : ℕ) → Keeps {I = I} (get_file pid fd)
  get_file-Keeps pid fd s c = elim (get_file-cases s pid fd) [
    | inl (x, e) ↦ moved (ap (λ r. r.1) (sym e)) c
    | inr (p, f, at, h, e) ↦ moved (ap (λ r. r.1) (sym e)) c
  ]

  pub file-Keeps : (f : ℕ) → Keeps {I = I} (file f)
  file-Keeps f s c = elim (file-cases s f) [
    | inl (x, e) ↦ moved (ap (λ r. r.1) (sym e)) c
    | inr (o, at, e) ↦ moved (ap (λ r. r.1) (sym e)) c
  ]

  set_close_on_exec-Keeps : (pid fd arg : ℕ) → Keeps {I = I} (set_close_on_exec pid fd arg)
  unfolding set_close_on_exec
  set_close_on_exec-Keeps pid fd arg =
      update-Keeps pid
        (λ p. record p {
          close_on_exec =
              if arg % 2 == 1 then set_bit p.close_on_exec fd else clear_bit p.close_on_exec fd;
        })
        (λ p. return 0) (λ p. (refl, refl)) (λ p s c. c)

  control-Keeps : (pid fd cmd arg f : ℕ) → Keeps {I = I} (control pid fd cmd arg f)
  unfolding control
  control-Keeps pid fd cmd arg f s c = elim (Bool-cases (cmd == 0)) [
    | inl e ↦ moved (ground (arith, e)) (dup_from-Counted pid s fd arg c)
    | inr e ↦ elim (Bool-cases (cmd == 1)) [
      | inl e1 ↦ moved (ground (arith, e, e1)) (
          proc-Keeps {A = ℕ} pid (λ p. return (if bit_at p.close_on_exec fd then 1 else 0))
            (λ p s c. c) s c)
      | inr e1 ↦ elim (Bool-cases (cmd == 2)) [
        | inl e2 ↦ moved (ground (arith, e, e1, e2)) (set_close_on_exec-Keeps pid fd arg s c)
        | inr e2 ↦ elim (Bool-cases (cmd == 3)) [
          | inl e3 ↦
              moved (ground (arith, e, e1, e2, e3))
                (bind-Keeps (file f) (λ o. return o.flags) (file-Keeps f) (λ o s c. c) s c)
          | inr e3 ↦ elim (Bool-cases (cmd == 4)) [
            | inl e4 ↦ moved (ground (arith, e, e1, e2, e3, e4)) (set_flags-Keeps f arg s c)
            | inr e4 ↦ moved (ground (arith, e, e1, e2, e3, e4)) c
          ]
        ]
      ]
    ]
  ]

  pub fcntl-Keeps : (pid fd cmd arg : ℕ) → Keeps {I = I} (fcntl pid fd cmd arg)
  unfolding fcntl
  fcntl-Keeps pid fd cmd arg =
      bind-Keeps (get_file pid fd) (control pid fd cmd arg) (get_file-Keeps pid fd)
        (control-Keeps pid fd cmd arg)
