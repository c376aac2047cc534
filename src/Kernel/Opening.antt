-- ===== src/Kernel/Opening.antt =====
-- Opening and creating files, and the calls on names, keep the counts of kernel.py.
use minixfs.Prelude.{
  ℕ, ◌+◌, ◌%◌, ◌/◌, ◌≡◌, refl, sym, ap, false, not, ◌&&◌, ◌||◌, Bool-cases, Option-cases,
  Result-cases, inl, inr, none, some, [], ◌∷◌, ◌==◌, if◌then◌else◌, ok, err, arith,
}
use minixfs.Memory as Memory
use minixfs.MinixFs.Dir.{Text}
use minixfs.MinixFs.Format.{is_dir, is_device, is_regular}
use minixfs.Overlay.State as Overlay
use minixfs.Overlay.State.{VInode, size}
use minixfs.Overlay.Lookup.{walk}
use minixfs.Overlay.Ops as Ops
use minixfs.Overlay.Dict.{
  table_get, table_set, table_get-table_set, total-table_set, table_set-Distinct,
}
use minixfs.Kernel.State.{
  FileObj, vnode, pipe, terminal, null_device, OpenFile, readable, writable, Process, Kernel, K,
  return, trap, raise, bit_at, ◌>>=◌, ◌>>◌, in_fs, eexist, eisdir, from_fs, enotdir, eperm, enxio,
  proc, put_proc, fault,
}
use minixfs.Kernel.Fds.{alloc_fd}
use minixfs.Kernel.Io.{cstr, inode}
use minixfs.Kernel.Open.{
  o_creat, o_excl, o_trunc, masked, place_of, is_missing, find_inode, open_device, open_inode,
  start_pos, enter_file, open_file, creat, creat_flags,
}
use minixfs.Kernel.Paths.{named, chdir}
use minixfs.Kernel.Counts.{Counted, end_share, is_pipe}
use minixfs.Kernel.Slots.{alloc_fd-cases, fill-Counted, set_fd_lem}
use minixfs.Kernel.Keeps.{
  Keeps, moved, bind_ok, bind_err, bind-Keeps, then-Keeps, if-Keeps, update-Keeps, proc-Keeps,
  in_fs-Keeps, aside-Keeps,
}
use minixfs.Kernel.Using.{return-Keeps, result-Keeps, inode-Keeps}

-- No name stands for a pipe.
abbrev NoPipe : FileObj → Type 0
NoPipe x = (q : ℕ) → is_pipe q x ≡ false

module _ {I : Type 0} where
  pub cstr-Keeps : (pid addr : ℕ) → Keeps {I = I} (cstr pid addr)
  unfolding cstr
  cstr-Keeps pid addr =
      proc-Keeps pid
        (λ p. elim (Memory.read_cstr p.mem addr 4096) [ ok t ↦ return t | err e ↦ trap (fault e) ])
        (λ p.
          result-Keeps (Memory.read_cstr p.mem addr 4096) (λ t. return t) fault
            (λ t. return-Keeps t))

  -- The tables do not change while the inode is found.
  find_inode-Keeps :
      (now pid : ℕ) (name : Text) (flags mode : ℕ)
      → Keeps {I = I} (find_inode now pid name flags mode)
  unfolding find_inode
  find_inode-Keeps now pid name flags mode = proc-Keeps pid found (λ p s c.
      elim (Result-cases (walk name (place_of p) s.fs).0) [
        | inl (ino, e) ↦ elim (Bool-cases (bit_at flags o_excl && bit_at flags o_creat)) [
          | inl h ↦ moved (ground (arith, e, h)) (in_fs-Keeps (walk name (place_of p)) s c)
          | inr h ↦ moved (ground (arith, e, h)) (in_fs-Keeps (walk name (place_of p)) s c)
        ]
        | inr (x, e) ↦
            let kept = in_fs-Keeps (walk name (place_of p)) s c in
            elim (Bool-cases (is_missing (from_fs x) && bit_at flags o_creat)) [
              | inl h ↦
                  moved (ground (arith, e, h))
                    (in_fs-Keeps (made p) (in_fs (walk name (place_of p)) s).1 kept)
              | inr h ↦ moved (ground (arith, e, h)) kept
            ]
      ])
    where
      made : Process I → Overlay.M ℕ
      made p = Ops.create now name (masked mode p.umask) (place_of p) p.euid p.egid

      found : Process I → K I ℕ
      found p s1 =
          let (r, s2) = in_fs (walk name (place_of p)) s1 in
          elim r [
            | ok ino ↦
                if bit_at flags o_excl && bit_at flags o_creat
                then raise eexist s2
                else return ino s2
            | err e ↦
                if is_missing e && bit_at flags o_creat
                then in_fs (Ops.create now name (masked mode p.umask) (place_of p) p.euid p.egid) s2
                else (err e, s2)
          ]

  -- What is known of the value of the first part may be used for the rest.
  known-Keeps :
      {A B : Type 0} (m : K I A) (f : A → K I B) (P : A → Type 0)
      → Keeps m
      → ((s : Kernel I) (a : A) → (m s).0 ≡ ok a → P a)
      → ((a : A) → P a → Keeps (f a))
      → Keeps (m >>= f)
  known-Keeps m f P km known kf s c = elim (Result-cases (m s).0) [
    | inl (a, e) ↦
        moved (sym (ap (λ r. r.1) (bind_ok m s f a e))) (kf a (known s a e) (m s).1 (km s c))
    | inr (x, e) ↦ moved (sym (bind_err m s f x e)) (km s c)
  ]

  open_device-Keeps : (ino : ℕ) → Keeps {I = I} (open_device ino)
  unfolding open_device
  open_device-Keeps ino = bind-Keeps (inode ino) chosen (inode-Keeps ino) (λ v s c.
      elim (Bool-cases (v.rdev / 256 == 4 || v.rdev / 256 == 5)) [
        | inl h ↦ moved (ground (arith, h)) c
        | inr h ↦ elim (Bool-cases (v.rdev / 256 == 1 && v.rdev % 256 == 3)) [
          | inl h1 ↦ moved (ground (arith, h, h1)) c
          | inr h1 ↦ elim (Bool-cases (v.rdev / 256 == 3)) [
            | inl h2 ↦ moved (ground (arith, h, h1, h2)) c
            | inr h2 ↦ moved (ground (arith, h, h1, h2)) c
          ]
        ]
      ])
    where
      chosen : VInode → K I FileObj
      chosen v =
          let major = v.rdev / 256 in
          if major == 4 || major == 5
          then (λ s. (ok (elim s.tty [ none ↦ vnode ino | some _ ↦ terminal ]), s))
          else if major == 1 && v.rdev % 256 == 3
          then return null_device
          else if major == 3
          then raise eperm
          else raise enxio

  open_inode-Keeps : (now ino flags : ℕ) → Keeps {I = I} (open_inode now ino flags)
  unfolding open_inode
  open_inode-Keeps now ino flags = bind-Keeps (inode ino) chosen (inode-Keeps ino) (λ v.
      if-Keeps (is_dir v.mode && not (flags % 4 == 0)) (raise eisdir) (other v) (λ s c. c)
        (if-Keeps (is_device v.mode) (open_device ino) (regular v) (open_device-Keeps ino) (
          if-Keeps (bit_at flags o_trunc && is_regular v.mode) cut (return (vnode ino))
            (then-Keeps (in_fs (Ops.truncate now ino 0)) (return (vnode ino))
              (in_fs-Keeps (Ops.truncate now ino 0)) (return-Keeps (vnode ino)))
            (return-Keeps (vnode ino)))))
    where
      cut : K I FileObj
      cut = in_fs (Ops.truncate now ino 0) >> return (vnode ino)

      regular : VInode → K I FileObj
      regular v = if bit_at flags o_trunc && is_regular v.mode then cut else return (vnode ino)

      other : VInode → K I FileObj
      other v = if is_device v.mode then open_device ino else regular v

      chosen : VInode → K I FileObj
      chosen v = if is_dir v.mode && not (flags % 4 == 0) then raise eisdir else other v

  open_device-NoPipe :
      (ino : ℕ) (s : Kernel I) (x : FileObj) → (open_device ino s).0 ≡ ok x → NoPipe x
  unfolding open_device
  open_device-NoPipe ino s x h q = elim (Option-cases s.tty) [
    | inl t ↦ ground (arith, h, t)
    | inr (u, t) ↦ ground (arith, h, t)
  ]

  open_inode-NoPipe :
      (now ino flags : ℕ) (s : Kernel I) (x : FileObj)
      → (open_inode now ino flags s).0 ≡ ok x
      → NoPipe x
  unfolding open_inode
  open_inode-NoPipe now ino flags s x h q =
      ground (arith, h, open_device-NoPipe ino (in_fs (Overlay.the ino) s).1 x)

  -- Of the kernel, only the overlay changes.
  start_pos_aside :
      (x : FileObj) (flags : ℕ) (s : Kernel I)
      → (start_pos x flags s).1 ≡ record s { fs = (start_pos x flags s).1.fs }
  unfolding start_pos
  start_pos_aside (vnode ino) flags s = ground arith
  start_pos_aside (pipe q) flags s = refl
  start_pos_aside terminal flags s = refl
  start_pos_aside null_device flags s = refl

  -- A new open file that is no pipe, before a slot stands for it.
  enter-Counted :
      (s : Kernel I) (o : OpenFile)
      → NoPipe o.obj
      → o.refs ≡ 1
      → Counted [] s
      → Counted
          (s.next_file ∷ [])
          (record s { files = table_set s.next_file o s.files; next_file = s.next_file + 1 })
  enter-Counted s o kind one c =
      let f = s.next_file in
      let free : table_get f s.files ≡ none = c.fresh_files f (omega arith) in
      record {
        refs = λ g. ground (arith, free, one, c.refs g, table_get-table_set f g o s.files);
        readers = λ p.
            ground (
              arith,
              free,
              kind p,
              c.readers p,
              total-table_set (end_share readable p) f o s.files,
            );
        writers = λ p.
            ground (
              arith,
              free,
              kind p,
              c.writers p,
              total-table_set (end_share writable p) f o s.files,
            );
        pipes_there = λ g p u at is. elim (Bool-cases (f == g)) [
          | inl same ↦
              absurd (ground (arith, at, is, same, kind p, table_get-table_set f g o s.files))
          | inr other ↦
              c.pipes_there g p u (ground (arith, at, other, table_get-table_set f g o s.files)) is
        ];
        pids = c.pids;
        slots = c.slots;
        fresh_files = λ g h. ground (arith, h, c.fresh_files g, table_get-table_set f g o s.files);
        fresh_pipes = c.fresh_pipes;
        fresh_pids = c.fresh_pids;
        distinct_files = table_set-Distinct f o s.files c.distinct_files;
      }

  -- The rest of `open`, once the object is known.
  unfoldable finish : ℕ → FileObj → ℕ → K I ℕ
  finish pid x flags = alloc_fd pid 0 >>= λ fd. start_pos x flags >>= λ pos.
      enter_file pid fd (record { obj = x; flags = flags; pos = pos; refs = 1 }) >> return fd

  finish-Keeps : (pid : ℕ) (x : FileObj) (flags : ℕ) → NoPipe x → Keeps (finish pid x flags)
  unfolding finish enter_file
  finish-Keeps pid x flags kind s c = elim (alloc_fd-cases s pid 0) [
    | inl (e, no_slot) ↦ moved (ground (arith, no_slot)) c
    | inr (p, fd, at, inside, free, slot) ↦
        let s1 = record s { fs = (start_pos x flags s).1.fs } in
        let c1 : Counted [] s1 = aside-Keeps s s1.fs s.runq s.exit_status c in
        let still : (start_pos x flags s).1 ≡ s1 = start_pos_aside x flags s in
        elim (Result-cases (start_pos x flags s).0) [
          | inr (e, h) ↦ moved (ground (arith, slot, h, still)) c1
          | inl (pos, h) ↦
              let o : OpenFile = record { obj = x; flags = flags; pos = pos; refs = 1 } in
              let s2 = record s1 {
                files = table_set s.next_file o s.files;
                next_file = s.next_file + 1;
              } in
              moved (ground (arith, slot, h, still, set_fd_lem s2 pid p fd (some s.next_file) at)) (
                fill-Counted pid p at (enter-Counted s1 o kind refl c1) fd s.next_file [] refl
                  inside free)
        ]
  ]

  pub open_file-Keeps :
      (now pid path flags mode : ℕ) → Keeps {I = I} (open_file now pid path flags mode)
  unfolding finish open_file
  open_file-Keeps now pid path flags mode =
      bind-Keeps (cstr pid path) (λ name. find_inode now pid name flags mode >>= with_inode)
        (cstr-Keeps pid path)
        (λ name.
          bind-Keeps (find_inode now pid name flags mode) with_inode
            (find_inode-Keeps now pid name flags mode)
            (λ ino.
              known-Keeps (open_inode now ino flags) (λ x. finish pid x flags) NoPipe
                (open_inode-Keeps now ino flags) (open_inode-NoPipe now ino flags)
                (λ x kind. finish-Keeps pid x flags kind)))
    where
      with_inode : ℕ → K I ℕ
      with_inode ino = open_inode now ino flags >>= λ x. finish pid x flags

  pub creat-Keeps : (now pid path mode : ℕ) → Keeps {I = I} (creat now pid path mode)
  unfolding creat
  creat-Keeps now pid path mode = open_file-Keeps now pid path creat_flags mode

  pub chdir-Keeps : (pid path : ℕ) → Keeps {I = I} (chdir pid path)
  unfolding chdir named
  chdir-Keeps pid path =
      bind-Keeps (named pid path) (λ ino. inode ino >>= there ino)
        (bind-Keeps (cstr pid path) (λ name. proc pid >>= below name) (cstr-Keeps pid path)
          (λ name. proc-Keeps pid (below name) (λ p. in_fs-Keeps (walk name (place_of p)))))
        (λ ino. bind-Keeps (inode ino) (there ino) (inode-Keeps ino) (λ v.
          if-Keeps (not (is_dir v.mode)) (raise enotdir) (arrive ino) (λ s c. c)
            (update-Keeps pid (λ p. record p { cwd = ino }) (λ p. return 0) (λ p. (refl, refl))
              (λ p. return-Keeps {A = ℕ} 0))))
    where
      below : Text → Process I → K I ℕ
      below name p = in_fs (walk name (place_of p))

      arrive : ℕ → K I ℕ
      arrive ino = proc pid >>= λ p. (put_proc (record p { cwd = ino }) >> return 0)

      there : ℕ → VInode → K I ℕ
      there ino v = if not (is_dir v.mode) then raise enotdir else arrive ino
