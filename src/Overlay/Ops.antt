-- ===== src/Overlay/Ops.antt =====
-- The operations of kvfs.py that change files, directories and their metadata.
use minixfs.Prelude.{
  ℕ, ◌+◌, ◌-◌, ◌*◌, ◌/◌, ◌%◌, Bool, true, false, not, ◌&&◌, ◌||◌, Option, none, some, [], ◌∷◌, ◌++◌,
  ltb, ◌==◌, if◌then◌else◌, length, take, Bytes, slice, splice, zeros, ok,
}
use minixfs.MinixFs.Format.{is_dir, is_device, is_fifo}
use minixfs.MinixFs.Files.{read_file}
use minixfs.MinixFs.Dir.{Text}
use minixfs.Overlay.Dict.{Entries, dict_get, dict_set, dict_del, table_set}
use minixfs.Overlay.State.{
  eperm, enoent, eexist, enotdir, eisdir, enotempty, M, Done, ◌>>=◌, ◌>>◌, return, raise,
  lift_below, the, put, get, new_inode, cow_file, cow_dir,
}
use minixfs.Overlay.Lookup.{Place, is_dots, readdir_raw, lookup, walk, walk_parent}

-- ---- contents ----

unfoldable pub read : ℕ → ℕ → ℕ → M Bytes
read ino offset n = do
  v ← the ino
  if is_dir v.mode
      then (do raw ← readdir_raw ino; return (slice raw offset (offset + n)))
      else elim v.content [
        | some d ↦ return (slice d offset (offset + n))
        | none ↦ elim v.base [
          | none ↦ return []
          | some inode ↦ lift_below (λ disk. read_file disk inode offset (some n))
        ]
      ]

-- The buffer after a write: a gap before the offset is filled with zeros.
abbrev pub patched : Bytes → ℕ → Bytes → Bytes
patched buf offset d =
    splice (if ltb (length buf) offset then buf ++ zeros (offset - length buf) else buf) offset d

unfoldable pub write : ℕ → ℕ → ℕ → Bytes → M ℕ
write now ino offset d = do
  v ← the ino
  if is_dir v.mode then raise eisdir else do
    buf ← cow_file ino
    w ← the ino
    put (record w { content = some (patched buf offset d); mtime = now })
    return (length d)

unfoldable pub truncate : ℕ → ℕ → ℕ → M Done
truncate now ino size = do
  v ← the ino
  if is_dir v.mode then raise eisdir else do
    buf ← cow_file ino
    w ← the ino
    let buf' = if ltb size (length buf) then take size buf else buf ++ zeros (size - length buf)
    put (record w { content = some buf'; mtime = now })

-- ---- directory entries ----

unfoldable pub remember : ℕ → Text → ℕ → M Done
remember parent name ino s = (ok tt, record s { names = table_set ino (parent, name) s.names })

unfoldable pub link_entry : ℕ → ℕ → Text → ℕ → M Done
link_entry now parent name ino = do
  entries ← cow_dir parent
  p ← the parent
  put (record p { entries = some (dict_set name ino entries) })
  v ← the ino
  put (record v { nlinks = v.nlinks + 1 })
  q ← the parent
  put (record q { mtime = now })

unfoldable pub unlink_entry : ℕ → ℕ → Text → M ℕ
unlink_entry now parent name = do
  entries ← cow_dir parent
  elim (dict_get name entries) [
    | none ↦ raise enoent
    | some found ↦ do
      ino ← get found
      remember parent name ino
      p ← the parent
      put (record p { entries = some (dict_del name entries) })
      v ← the ino
      put (record v { nlinks = v.nlinks - 1 })
      q ← the parent
      put (record q { mtime = now })
      w ← the ino
      put (record w { deleted = if w.nlinks == 0 && w.open_refs == 0 then true else w.deleted })
      return ino
  ]

abbrev absent : Option ℕ → M Done
absent none = return tt
absent (some ino) = raise eexist

abbrev present : Option ℕ → M ℕ
present none = raise enoent
present (some ino) = return ino

-- `(mode & 0o7777) | kind`, with the kind of the file in the upper bits.
abbrev with_kind : ℕ → ℕ → ℕ
with_kind kind mode = kind * 4096 + mode % 4096

unfoldable pub create : ℕ → Text → ℕ → Place → ℕ → ℕ → M ℕ
create now path mode place uid gid = do
  (parent, name) ← walk_parent path place
  found ← lookup parent name
  absent found
  ino ← new_inode now (with_kind 8 mode) uid gid 0
  link_entry now parent name ino
  remember parent name ino
  return ino

-- A new object has no content in memory only as a device or a fifo would, and `mknod` gives the
-- others an empty one, which they have already.
unfoldable pub mknod : ℕ → Text → ℕ → ℕ → Place → ℕ → ℕ → M ℕ
mknod now path mode rdev place uid gid = do
  (parent, name) ← walk_parent path place
  found ← lookup parent name
  absent found
  ino ← new_inode now mode uid gid rdev
  v ← the ino
  put (record v { content = if is_device v.mode || is_fifo v.mode then v.content else some [] })
  link_entry now parent name ino
  remember parent name ino
  return ino

unfoldable pub mkdir : ℕ → Text → ℕ → Place → ℕ → ℕ → M ℕ
mkdir now path mode place uid gid = do
  (parent, name) ← walk_parent path place
  found ← lookup parent name
  absent found
  ino ← new_inode now (with_kind 4 mode) uid gid 0
  v ← the ino
  put (record v {
    content = none;
    entries = some ((b'.' ∷ [], ino) ∷ (b'.' ∷ b'.' ∷ [], parent) ∷ []);
    nlinks = v.nlinks + 1;
  })
  p ← the parent
  put (record p { nlinks = p.nlinks + 1 })
  link_entry now parent name ino
  remember parent name ino
  return ino

-- `set(entries) - {".", ".."}`, as a test that something is left.
unfoldable pub has_names : Entries → Bool
has_names [] = false
has_names ((name, ino) ∷ d) = not (is_dots name) || has_names d

unfoldable pub rmdir : ℕ → Text → Place → M Done
rmdir now path place = do
  (parent, name) ← walk_parent path place
  found ← lookup parent name
  ino ← present found
  v ← the ino
  if not (is_dir v.mode) then raise enotdir else do
    entries ← cow_dir ino
    if has_names entries then raise enotempty else do
      _ ← unlink_entry now parent name
      p ← the parent
      put (record p { nlinks = p.nlinks - 1 })
      w ← the ino
      put (record w { nlinks = 0; deleted = true })

unfoldable pub unlink : ℕ → Text → Place → M Done
unlink now path place = do
  (parent, name) ← walk_parent path place
  found ← lookup parent name
  ino ← present found
  v ← the ino
  if is_dir v.mode then raise eisdir else do _ ← unlink_entry now parent name; return tt

unfoldable pub link : ℕ → Text → Text → Place → M Done
link now oldpath newpath place = do
  ino ← walk oldpath place
  v ← the ino
  if is_dir v.mode then raise eperm else do
    (parent, name) ← walk_parent newpath place
    found ← lookup parent name
    absent found
    link_entry now parent name ino

-- What stands under the new name gives way.
unfoldable pub clear_target : ℕ → Text → ℕ → Text → ℕ → Place → M Done
clear_target now newpath newparent newname target place = do
  v ← the target
  if is_dir v.mode
      then rmdir now newpath place
      else do _ ← unlink_entry now newparent newname; return tt

-- The links of a rename, once the target is out of the way.
unfoldable pub move_entry : ℕ → ℕ → Text → ℕ → Text → ℕ → M Done
move_entry now oldparent oldname newparent newname ino = do
  link_entry now newparent newname ino
  _ ← unlink_entry now oldparent oldname
  v ← the ino
  if is_dir v.mode && not (oldparent == newparent)
      then (do
        entries ← cow_dir ino
        w ← the ino
        put (record w { entries = some (dict_set (b'.' ∷ b'.' ∷ []) newparent entries) })
        np ← the newparent
        put (record np { nlinks = np.nlinks + 1 })
        op ← the oldparent
        put (record op { nlinks = op.nlinks - 1 }))
      else return tt

unfoldable pub rename : ℕ → Text → Text → Place → M Done
rename now oldpath newpath place = do
  (oldparent, oldname) ← walk_parent oldpath place
  found ← lookup oldparent oldname
  ino ← present found
  (newparent, newname) ← walk_parent newpath place
  existing ← lookup newparent newname
  elim existing [
    | none ↦ move_entry now oldparent oldname newparent newname ino
    | some target ↦ if target == ino then return tt else do
      clear_target now newpath newparent newname target place
      move_entry now oldparent oldname newparent newname ino
  ]

-- ---- metadata ----

unfoldable pub chmod : ℕ → ℕ → M Done
chmod ino mode = do v ← the ino; put (record v { mode = v.mode / 4096 * 4096 + mode % 4096 })

abbrev no_id : ℕ
no_id = 0xFFFF

unfoldable pub chown : ℕ → ℕ → ℕ → M Done
chown ino uid gid = do
  v ← the ino
  put (record v {
    uid = if uid == no_id then v.uid else uid;
    gid = if gid == no_id then v.gid else gid;
  })

unfoldable pub utime : ℕ → ℕ → M Done
utime ino mtime = do v ← the ino; put (record v { mtime = mtime })
