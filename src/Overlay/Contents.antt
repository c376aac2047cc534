-- ===== src/Overlay/Contents.antt =====
-- `read`, `write` and `truncate` of kvfs.py against the content of an object.
use minixfs.Prelude.{
  ℕ, ◌+◌, ◌-◌, ◌≡◌, refl, ◌≢◌, ◌∙◌, false, none, some, [], ltb, ◌++◌, if◌then◌else◌, Option-cases,
  Result-cases, inl, inr, length, take, get_or, length-zeros, length-append, length-take, Bytes,
  slice, zeros, Result, ok, err, arith,
}
use minixfs.MinixFs.Format.{Inode, is_dir}
use minixfs.MinixFs.Files.{read_file}
use minixfs.Overlay.Dict.{table_get, table_set, table_get-table_set}
use minixfs.Overlay.State.{OverlayFs, VInode, FsError, below, the, put, cow_file}
use minixfs.Overlay.Buffers.{byte_after, byte_cut, get_or-patched, length-patched, get_or-cut}
use minixfs.Overlay.Ops.{read, patched, write, truncate}

-- The bytes of an object: those in memory, or else those of its inode below.
unfoldable pub contents : OverlayFs → VInode → Result FsError Bytes
contents s v = elim v.content [
  | some d ↦ ok d
  | none ↦ elim v.base [
    | none ↦ ok []
    | some inode ↦ elim (read_file s.disk inode 0 none) [ ok d ↦ ok d | err e ↦ err (below e) ]
  ]
]

-- The object that the number names is a file, under its own number.
abbrev pub IsFile : OverlayFs → ℕ → VInode → Type 0
IsFile s ino v = (table_get ino s.vnodes ≡ some v) × (v.ino ≡ ino) × (is_dir v.mode ≡ false)

-- Another state of the table that has the same file under the number, and no other change.
abbrev Follows : OverlayFs → ℕ → VInode → OverlayFs → VInode → Type 0
Follows s ino v s' v' =
    (table_get ino s'.vnodes ≡ some v')
    × (v'.ino ≡ ino)
    × (v'.mode ≡ v.mode)
    × ((j : ℕ) → j ≢ ino → table_get j s'.vnodes ≡ table_get j s.vnodes)

put-Follows :
    (s : OverlayFs) (ino : ℕ) (v v' : VInode)
    → v'.ino ≡ ino
    → v'.mode ≡ v.mode
    → Follows s ino v (record s { vnodes = table_set v'.ino v' s.vnodes }) v'
put-Follows s ino v v' e m = (
  ground (arith, e, table_get-table_set v'.ino ino v' s.vnodes),
  e,
  m,
  λ j ne. ground (arith, e, ne, table_get-table_set v'.ino j v' s.vnodes),
)

module _ (s : OverlayFs) (ino : ℕ) (v : VInode) (at : table_get ino s.vnodes ≡ some v) where
  cow_file_loaded : (d : Bytes) → v.content ≡ some d → cow_file ino s ≡ (ok d, s)
  unfolding the cow_file
  cow_file_loaded d c = ground (arith, at, c)

  cow_file_new :
      v.content ≡ none
      → v.base ≡ none
      → let v' = record v { content = some [] } in
        cow_file ino s ≡ (ok [], record s { vnodes = table_set v.ino v' s.vnodes })
  unfolding the put cow_file
  cow_file_new c b = ground (arith, at, c, b)

  cow_file_below :
      (i : Inode) (d : Bytes)
      → v.content ≡ none
      → v.base ≡ some i
      → read_file s.disk i 0 none ≡ ok d
      → let v' = record v { content = some d } in
        cow_file ino s ≡ (ok d, record s { vnodes = table_set v.ino v' s.vnodes })
  unfolding the put cow_file
  cow_file_below i d c b r = ground (arith, at, c, b, r)

cow_file_lem :
    (s : OverlayFs) (ino : ℕ) (v : VInode) (buf : Bytes)
    → IsFile s ino v
    → contents s v ≡ ok buf
    → (s' : OverlayFs) × (v' : VInode) × (cow_file ino s ≡ (ok buf, s')) × Follows s ino v s' v'
unfolding contents
cow_file_lem s ino v buf (at, e, f) c = elim (Option-cases v.content) [
  | inr (d, hc) ↦
      (s, v, cow_file_loaded s ino v at d hc ∙ ground (arith, hc, c), (at, e, refl, λ j ne. refl))
  | inl hc ↦ elim (Option-cases v.base) [
    | inl hb ↦
        let v' = record v { content = some [] } in
        (
          record s { vnodes = table_set v.ino v' s.vnodes },
          v',
          cow_file_new s ino v at hc hb ∙ ground (arith, hc, hb, c),
          put-Follows s ino v v' e refl,
        )
    | inr (i, hb) ↦ elim (Result-cases (read_file s.disk i 0 none)) [
      | inl (d, r) ↦
          let v' = record v { content = some d } in
          (
            record s { vnodes = table_set v.ino v' s.vnodes },
            v',
            cow_file_below s ino v at i d hc hb r ∙ ground (arith, hc, hb, r, c),
            put-Follows s ino v v' e refl,
          )
      | inr (x, r) ↦ absurd (ground (arith, hc, hb, r, c))
    ]
  ]
]

module _ (s : OverlayFs) (ino : ℕ) (v : VInode) (at : table_get ino s.vnodes ≡ some v) where
  read_loaded :
      (d : Bytes) (a n : ℕ)
      → is_dir v.mode ≡ false
      → v.content ≡ some d
      → read ino a n s ≡ (ok (slice d a (a + n)), s)
  unfolding the read
  read_loaded d a n f c = ground (arith, at, f, c)

  module _ (s' : OverlayFs) (v' : VInode) (buf : Bytes) (c : cow_file ino s ≡ (ok buf, s'))
      (at' : table_get ino s'.vnodes ≡ some v') (f : is_dir v.mode ≡ false) where
    write_steps :
        (now offset : ℕ) (d : Bytes)
        → let w = record v' { content = some (patched buf offset d); mtime = now } in
          write now ino offset d s
          ≡ (ok (length d), record s' { vnodes = table_set v'.ino w s'.vnodes })
    unfolding the put write
    write_steps now offset d = ground (arith, at, f, c, at')

    truncate_steps :
        (now n : ℕ)
        → let b = if ltb n (length buf) then take n buf else buf ++ zeros (n - length buf) in
          let w = record v' { content = some b; mtime = now } in
          truncate now ino n s ≡ (ok tt, record s' { vnodes = table_set v'.ino w s'.vnodes })
    unfolding the put truncate
    truncate_steps now n = ground (arith, at, f, c, at')

-- Of a file whose content can be read, a write returns the number of bytes; the content after it is
-- the content before it with the bytes in their place, zeros in a gap before them, and as long as
-- the longer of the old content and the end of what was written; every read afterwards returns a
-- slice of it and changes nothing; no other object of the table changes.
pub write-read :
    (s : OverlayFs) (ino : ℕ) (v : VInode) (buf : Bytes) (now offset : ℕ) (d : Bytes)
    → IsFile s ino v
    → contents s v ≡ ok buf
    → (s' : OverlayFs) × (after : Bytes) × (write now ino offset d s ≡ (ok (length d), s'))
      × ((a n : ℕ) → read ino a n s' ≡ (ok (slice after a (a + n)), s'))
      × ((i : ℕ) → get_or after i 0 ≡ byte_after buf offset d i)
      × (length after
          ≡ (if ltb (length buf) (offset + length d) then offset + length d else length buf))
      × ((j : ℕ) → j ≢ ino → table_get j s'.vnodes ≡ table_get j s.vnodes)
write-read s ino v buf now offset d (at, e, f) c =
    let (s1, v1, run, (at1, e1, m1, others)) = cow_file_lem s ino v buf (at, e, f) c in
    let w = record v1 { content = some (patched buf offset d); mtime = now } in
    let (at2, e2, m2, others2) = put-Follows s1 ino v1 w e1 refl in
    let s2 = record s1 { vnodes = table_set v1.ino w s1.vnodes } in
    (
      s2,
      patched buf offset d,
      write_steps s ino v at s1 v1 buf run at1 f now offset d,
      λ a n. read_loaded s2 ino w at2 (patched buf offset d) a n (ground (arith, m1, f)) refl,
      get_or-patched buf offset d,
      length-patched buf offset d,
      λ j ne. others2 j ne ∙ others j ne,
    )

-- Of a file whose content can be read, `truncate` succeeds; the content after it has the length
-- asked for, the bytes of the old content below it, and zeros behind the old content; every read
-- afterwards returns a slice of it; no other object of the table changes.
pub truncate-read :
    (s : OverlayFs) (ino : ℕ) (v : VInode) (buf : Bytes) (now n : ℕ)
    → IsFile s ino v
    → contents s v ≡ ok buf
    → (s' : OverlayFs) × (after : Bytes) × (truncate now ino n s ≡ (ok tt, s'))
      × ((a k : ℕ) → read ino a k s' ≡ (ok (slice after a (a + k)), s'))
      × ((i : ℕ) → get_or after i 0 ≡ byte_cut buf n i)
      × (length after ≡ n)
      × ((j : ℕ) → j ≢ ino → table_get j s'.vnodes ≡ table_get j s.vnodes)
truncate-read s ino v buf now n (at, e, f) c =
    let (s1, v1, run, (at1, e1, m1, others)) = cow_file_lem s ino v buf (at, e, f) c in
    let b = if ltb n (length buf) then take n buf else buf ++ zeros (n - length buf) in
    let w = record v1 { content = some b; mtime = now } in
    let (at2, e2, m2, others2) = put-Follows s1 ino v1 w e1 refl in
    let s2 = record s1 { vnodes = table_set v1.ino w s1.vnodes } in
    (
      s2,
      b,
      truncate_steps s ino v at s1 v1 buf run at1 f now n,
      λ a k. read_loaded s2 ino w at2 b a k (ground (arith, m1, f)) refl,
      get_or-cut buf n,
      ground (
        arith,
        length-take n buf,
        length-append buf (zeros (n - length buf)),
        length-zeros (n - length buf),
      ),
      λ j ne. others2 j ne ∙ others j ne,
    )
