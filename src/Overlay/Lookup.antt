-- ===== src/Overlay/Lookup.antt =====
-- Reading directories, looking names up and walking paths in kvfs.py.
use minixfs.Prelude.{
  ℕ, ◌-◌, ◌%◌, ◌^◌, Bool, not, ◌&&◌, ◌||◌, Option, none, some, List, [], ◌∷◌, ◌++◌, ◌==◌, text_eq,
  if◌then◌else◌, length, take, Bytes, zeros, u16_bytes, err,
}
use minixfs.MinixFs.Format.{is_dir}
use minixfs.MinixFs.Files.{read_file}
use minixfs.MinixFs.Dir.{Text, read_dir, split_slash, is_skipped, is_absolute}
use minixfs.Overlay.Dict.{Entries, dict_get}
use minixfs.Overlay.State.{
  dangling, enotdir, enoent, ebusy, einval, M, ◌>>=◌, return, raise, lift_below, the, get, name_max,
}

unfoldable pub flip_entries : Entries → List (ℕ × Text)
flip_entries [] = []
flip_entries ((name, ino) ∷ d) = (ino, name) ∷ flip_entries d

-- `list_dir`. A directory that is not copied has its inode below.
unfoldable pub list_dir : ℕ → M (List (ℕ × Text))
unfolding flip_entries
list_dir ino = do
  v ← the ino
  if is_dir v.mode
      then (elim v.entries [
        | some d ↦ return (flip_entries d)
        | none ↦ elim v.base [
          | none ↦ λ s. (err (dangling ino), s)
          | some inode ↦ lift_below (λ disk. read_dir disk inode)
        ]
      ])
      else raise enotdir

-- `name.encode("latin-1")[:14].ljust(14, b"\x00")` behind the two bytes of the number.
unfoldable pub pack_entries : Entries → Bytes
pack_entries [] = []
pack_entries ((name, ino) ∷ d) =
    let t = take name_max name in
    u16_bytes (ino % 2 ^ 16) ++ ((t ++ zeros (name_max - length t)) ++ pack_entries d)

unfoldable pub readdir_raw : ℕ → M Bytes
unfolding pack_entries
readdir_raw ino = do
  v ← the ino
  if is_dir v.mode
      then (elim v.entries [
        | some d ↦ return (pack_entries d)
        | none ↦ elim v.base [
          | none ↦ λ s. (err (dangling ino), s)
          | some inode ↦ lift_below (λ disk. read_file disk inode 0 none)
        ]
      ])
      else raise enotdir

unfoldable pub first_named : List (ℕ × Text) → Text → Option ℕ
first_named [] name = none
first_named ((ino, ename) ∷ es) name =
    let rest = first_named es name in if text_eq ename name then some ino else rest

abbrev pub get_some : Option ℕ → M (Option ℕ)
get_some none = return none
get_some (some ino) = do i ← get ino; return (some i)

-- `lookup`
unfoldable pub lookup : ℕ → Text → M (Option ℕ)
unfolding first_named
lookup dir name = do
  v ← the dir
  if is_dir v.mode
      then (elim v.entries [
        | some d ↦ get_some (dict_get name d)
        | none ↦ elim v.base [
          | none ↦ λ s. (err (dangling dir), s)
          | some inode ↦ do
            es ← lift_below (λ disk. read_dir disk inode)
            get_some (first_named es name)
        ]
      ])
      else raise enotdir

-- The loop of `walk` over the parts of the path, with the root that `..` does not leave.
unfoldable pub walk_parts : ℕ → ℕ → List Text → M ℕ
walk_parts root cur [] = return cur
walk_parts root cur (part ∷ parts) =
    let rest = walk_parts root cur parts in
    if is_skipped part then rest else do
      v ← the cur
      if not (is_dir v.mode)
          then raise enotdir
          else if text_eq part (b'.' ∷ b'.' ∷ []) && cur == root
          then rest
          else do
            found ← lookup cur part
            elim found [ none ↦ raise enoent | some next ↦ walk_parts root next parts ]

-- The root and the working directory of the caller; the kernel always gives both.
pub record Place : Type 0 where
  pub cwd : ℕ
  pub root : ℕ

unfoldable pub walk : Text → Place → M ℕ
walk path place =
    walk_parts place.root (if is_absolute path then place.root else place.cwd) (split_slash path)

-- `path.rstrip("/")`, and the last slash of what is left.
unfoldable pub strip_right : Text → Text
strip_right [] = []
strip_right (c ∷ cs) = elim (strip_right cs) [
  | [] ↦ if c == b'/' then [] else c ∷ []
  | d ∷ ds ↦ c ∷ d ∷ ds
]

unfoldable pub rsplit_slash : Text → Option (Text × Text)
rsplit_slash [] = none
rsplit_slash (c ∷ cs) = elim (rsplit_slash cs) [
  | some (a, b) ↦ some (c ∷ a, b)
  | none ↦ if c == b'/' then some ([], cs) else none
]

abbrev pub is_dots : Text → Bool
is_dots name = text_eq name (b'.' ∷ []) || text_eq name (b'.' ∷ b'.' ∷ [])

abbrev pub or_slash : Text → Text
or_slash [] = b'/' ∷ []
or_slash (c ∷ cs) = c ∷ cs

-- The parent directory and the name, from the parts of the path.
unfoldable pub checked_parent : ℕ → Text → M (ℕ × Text)
checked_parent parent name = do
  v ← the parent
  if not (is_dir v.mode)
      then raise enotdir
      else if text_eq name [] || is_dots name
      then raise einval
      else return (parent, take name_max name)

unfoldable pub walk_parent : Text → Place → M (ℕ × Text)
unfolding strip_right rsplit_slash checked_parent
walk_parent path place =
    if text_eq (strip_right path) [] then raise ebusy else elim (rsplit_slash (strip_right path)) [
      | none ↦ checked_parent place.cwd (strip_right path)
      | some (dir, name) ↦ do parent ← walk (or_slash dir) place; checked_parent parent name
    ]
