-- ===== src/Overlay/State.antt =====
-- The state of the overlay in kvfs.py: its objects, the table of inodes, and copying on write.
-- An operation that raises leaves what it changed before, so the state comes back beside the error.
use minixfs.Prelude.{
  ℕ, ◌+◌, ◌*◌, Bool, false, Option, none, some, List, [], ◌∷◌, ltb, if◌then◌else◌, length, Bytes,
  Result, ok, err,
}
use minixfs.MinixFs.Format.{MinixError, Inode, is_dir, is_device}
use minixfs.MinixFs.Disk.{MinixFs, get_inode, valid_ino}
use minixfs.MinixFs.Files.{read_file}
use minixfs.MinixFs.Dir.{Text, read_dir}
use minixfs.Overlay.Dict.{Entries, dict_set, Table, table_get, table_set}

abbrev pub name_max : ℕ
name_max = 14

-- The error numbers that the file raises.
pub data Errno : Type 0 where
  eperm enoent ebusy eexist enotdir eisdir einval enospc enotempty : Errno

-- An error of the overlay, one of the file system below, or the use of a number that names no object
-- of the table, which a Python reference cannot be.
pub data FsError : Type 0 where
  errno : Errno → FsError
  below : MinixError → FsError
  dangling : ℕ → FsError

pub record VInode : Type 0 where
  pub ino : ℕ
  pub mode : ℕ
  pub uid : ℕ
  pub gid : ℕ
  pub nlinks : ℕ
  pub mtime : ℕ
  pub rdev : ℕ
  pub disk_size : ℕ
  pub content : Option Bytes
  pub entries : Option Entries
  pub base : Option Inode
  pub open_refs : ℕ
  pub deleted : Bool

pub record OverlayFs : Type 0 where
  pub disk : MinixFs
  pub vnodes : Table VInode
  pub names : Table (ℕ × Text)
  pub next_ino : ℕ

abbrev pub M : Type 0 → Type 0
M A = OverlayFs → Result FsError A × OverlayFs

module _ {A B : Type 0} where
  infixl 6 ◌>>=◌
  abbrev pub ◌>>=◌ : M A → (A → M B) → M B
  ◌>>=◌ m f s = let (r, s') = m s in elim r [ ok a ↦ f a s' | err e ↦ (err e, s') ]

  infixl 6 ◌>>◌
  abbrev pub ◌>>◌ : M A → M B → M B
  ◌>>◌ m n s = let (r, s') = m s in elim r [ ok a ↦ n s' | err e ↦ (err e, s') ]

module _ {A : Type 0} where
  abbrev pub return : A → M A
  return a s = (ok a, s)

  abbrev pub raise : Errno → M A
  raise e s = (err (errno e), s)

  -- A call of the file system below.
  abbrev pub lift_below : (MinixFs → Result MinixError A) → M A
  lift_below f s = elim (f s.disk) [ ok a ↦ (ok a, s) | err e ↦ (err (below e), s) ]

abbrev pub Done : Type 0
Done = Unit {0}

-- The object that a number names, and an assignment to it.
unfoldable pub the : ℕ → M VInode
the ino s = elim (table_get ino s.vnodes) [ none ↦ (err (dangling ino), s) | some v ↦ (ok v, s) ]

unfoldable pub put : VInode → M Done
put v s = (ok tt, record s { vnodes = table_set v.ino v s.vnodes })

-- `VInode.from_base`
unfoldable pub from_base : Inode → VInode
from_base inode = record {
  ino = inode.num;
  mode = inode.mode;
  uid = inode.uid;
  gid = inode.gid;
  nlinks = inode.nlinks;
  mtime = inode.mtime;
  rdev = if is_device inode.mode then first inode.zones else 0;
  disk_size = inode.size;
  content = none;
  entries = none;
  base = some inode;
  open_refs = 0;
  deleted = false;
}
  where
    first : List ℕ → ℕ
    first [] = 0
    first (z ∷ zs) = z

-- `VInode.size`
unfoldable pub size : VInode → ℕ
size v = elim v.content [
  | some d ↦ length d
  | none ↦ elim v.entries [ some e ↦ length e * 16 | none ↦ v.disk_size ]
]

-- `get`: the number itself, once its object is in the table.
unfoldable pub get : ℕ → M ℕ
get ino s = elim (table_get ino s.vnodes) [
  | some v ↦ (ok ino, s)
  | none ↦
      if valid_ino s.disk.sb ino
      then (do inode ← lift_below (λ d. get_inode d ino); put (from_base inode); return ino) s
      else raise enoent s
]

-- `OverlayFS.__init__`
unfoldable open_overlay : MinixFs → Result FsError ℕ × OverlayFs
open_overlay base =
    get 1 (record { disk = base; vnodes = []; names = []; next_ino = base.sb.ninodes + 1 })

abbrev pub max_ino : ℕ
max_ino = 0xFFFF

-- `_new_inode`; the counter advances also where the numbers have run out.
unfoldable pub new_inode : ℕ → ℕ → ℕ → ℕ → ℕ → M ℕ
new_inode now mode uid gid rdev s =
    let ino = s.next_ino in
    let s' = record s { next_ino = ino + 1 } in
    if ltb max_ino ino
    then raise enospc s'
    else (do
      put (record {
        ino = ino;
        mode = mode;
        uid = uid;
        gid = gid;
        nlinks = 0;
        mtime = now;
        rdev = rdev;
        disk_size = 0;
        content = some [];
        entries = none;
        base = none;
        open_refs = 0;
        deleted = false;
      })
      return ino)
        s'

-- `_cow_file`: the content in memory, copied from below the first time.
unfoldable pub cow_file : ℕ → M Bytes
cow_file ino = do
  v ← the ino
  elim v.content [
    | some d ↦ return d
    | none ↦ elim v.base [
      | none ↦ do put (record v { content = some [] }); return []
      | some inode ↦ do
        d ← lift_below (λ disk. read_file disk inode 0 none)
        put (record v { content = some d })
        return d
    ]
  ]

-- `{name: ino for ino, name in entries}`
unfoldable pub to_dict : List (ℕ × Text) → Entries → Entries
to_dict [] d = d
to_dict ((ino, name) ∷ es) d = to_dict es (dict_set name ino d)

-- `_cow_dir`
unfoldable pub cow_dir : ℕ → M Entries
unfolding to_dict
cow_dir ino = do
  v ← the ino
  elim v.entries [
    | some d ↦ return d
    | none ↦
        if is_dir v.mode
        then (elim v.base [
          | none ↦ do put (record v { entries = some [] }); return []
          | some inode ↦ do
            es ← lift_below (λ disk. read_dir disk inode)
            put (record v { entries = some (to_dict es []) })
            return (to_dict es [])
        ])
        else raise enotdir
  ]
