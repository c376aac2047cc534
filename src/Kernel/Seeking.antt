-- ===== src/Kernel/Seeking.antt =====
-- Where `lseek` of kernel.py goes.
use minixfs.Prelude.{
  ℕ, ◌+◌, ◌^◌, ◌≤◌, ◌<◌, ◌≡◌, ◌↔◌, ◌⊎◌, inl, inr, Option-cases, some, none, ok, err, arith,
}
use minixfs.Overlay.State as Overlay
use minixfs.Overlay.State.{VInode, size}
use minixfs.Overlay.Dict.{table_get, table_set}
use minixfs.Kernel.State.{vnode, OpenFile, Kernel, file, put_file, errno, einval}
use minixfs.Kernel.Fds.{get_file}
use minixfs.Kernel.Io.{seek_to, from_start, seek_start, lseek_vnode, lseek}

module _ {I : Type 0} (s : Kernel I) (pid fd f ino : ℕ) (o : OpenFile) (v : VInode) where
  -- The call comes down to where the sum lies.
  module _ (offset whence start : ℕ) (slot : get_file pid fd s ≡ (ok f, s))
      (at : table_get f s.files ≡ some o) (kind : o.obj ≡ vnode ino)
      (there : table_get ino s.fs.vnodes ≡ some v) (from : seek_start o v whence ≡ some start) where
    lseek_back :
        from_start start offset ≡ none → lseek pid fd offset whence s ≡ (err (errno einval), s)
    unfolding lseek lseek_vnode seek_to file put_file Overlay.the
    lseek_back h = ground (arith, slot, at, kind, there, from, h)

    lseek_to :
        (p : ℕ)
        → from_start start offset ≡ some p
        → lseek pid fd offset whence s
          ≡ (ok p, record s { files = table_set f (record o { pos = p }) s.files })
    unfolding lseek lseek_vnode seek_to file put_file Overlay.the
    lseek_to p h = ground (arith, slot, at, kind, there, from, h)

  -- Let the descriptor stand for an open file of an inode, let `start` be zero, the position of the
  -- file or the size of the inode, as `whence` selects it, and let the offset be a word. As a number
  -- with a sign, the offset is itself below 2^31, and itself less 2^32 from there on. The call returns
  -- `pos` exactly when the start and the signed offset add up to `pos`, and fails with EINVAL exactly
  -- when they add up to less than zero; a success leaves the position `pos` and a failure changes
  -- nothing.
  pub lseek_iff :
      (offset whence start pos : ℕ)
      → get_file pid fd s ≡ (ok f, s)
      → table_get f s.files ≡ some o
      → o.obj ≡ vnode ino
      → table_get ino s.fs.vnodes ≡ some v
      → seek_start o v whence ≡ some start
      → offset < 2 ^ 32
      → (((lseek pid fd offset whence s).0 ≡ ok pos) ↔ (
          ((offset < 2 ^ 31) × (pos ≡ start + offset))
          ⊎ ((2 ^ 31 ≤ offset) × (pos + 2 ^ 32 ≡ start + offset))))
        × (((lseek pid fd offset whence s).0 ≡ err (errno einval))
            ↔ ((2 ^ 31 ≤ offset) × (start + offset < 2 ^ 32)))
        × ((lseek pid fd offset whence s).0 ≡ ok pos
            → (lseek pid fd offset whence s).1
              ≡ record s { files = table_set f (record o { pos = pos }) s.files })
        × ((lseek pid fd offset whence s).0 ≡ err (errno einval)
            → (lseek pid fd offset whence s).1 ≡ s)
  lseek_iff offset whence start pos slot at kind there from word =
      elim (Option-cases (from_start start offset)) [
        | inl h ↦
            let e = lseek_back offset whence start slot at kind there from h in
            (ground (arith, e, h), ground (arith, e, h), ground (arith, e, h), ground (arith, e, h))
        | inr (p, h) ↦
            let e = lseek_to offset whence start slot at kind there from p h in
            (ground (arith, e, h), ground (arith, e, h), ground (arith, e, h), ground (arith, e, h))
      ]
