-- ===== src/MinixFs/Dir.antt =====
-- Directories of minixfs.py: their entries, the lookup of a name and the resolution of a path.
-- A text is the list of its characters, which are the bytes that latin-1 decodes.
pub mod Paths
use minixfs.Prelude.{
  ℕ, zero, suc, ◌+◌, ◌-◌, Bool, true, false, not, ◌&&◌, ◌||◌, Option, none, some, List, [], ◌∷◌,
  ◌++◌, ltb, leb, ◌==◌, text_eq, if◌then◌else◌, length, Bytes, slice, u16_at, Result, ok, err,
  ◌>>=◌,
}
use minixfs.MinixFs.Format.{
  MinixError, not_a_directory, lookup_in_file, no_such_path, Inode, is_dir, dirent_size,
}
use minixfs.MinixFs.Disk.{MinixFs, get_inode, root}
use minixfs.MinixFs.Files.{read_file}

abbrev pub Text : Type 0
Text = List ℕ

-- An entry: the number of the inode and the name.
abbrev pub Entry : Type 0
Entry = ℕ × Text

-- `name.split(b"\x00", 1)[0]`
unfoldable pub until_zero : Bytes → Bytes
until_zero [] = []
until_zero (b ∷ bs) = if b == 0 then [] else b ∷ until_zero bs

-- The loop of `read_dir` over the offsets from `off` on; the fuel bounds its rounds.
unfoldable pub entries_from : ℕ → Bytes → ℕ → ℕ → List Entry
unfolding until_zero
entries_from esize raw zero off = []
entries_from esize raw (suc fuel) off =
    let rest = entries_from esize raw fuel (off + esize) in
    let ino = u16_at raw off in
    if leb (off + esize) (length raw)
    then (if ino == 0 then rest else (ino, until_zero (slice raw (off + 2) (off + esize))) ∷ rest)
    else []

unfoldable pub parse_entries : ℕ → Bytes → List Entry
unfolding entries_from
parse_entries esize raw = entries_from esize raw (length raw) 0

unfoldable pub read_dir : MinixFs → Inode → Result MinixError (List Entry)
unfolding parse_entries
read_dir fs inode =
    if is_dir inode.mode
    then (do raw ← read_file fs inode 0 none; ok (parse_entries (dirent_size fs.sb) raw))
    else err (not_a_directory inode.num)

-- The first entry of a name.
unfoldable pub find_entry : List Entry → Text → Option ℕ
find_entry [] name = none
find_entry ((ino, ename) ∷ es) name =
    let rest = find_entry es name in if text_eq ename name then some ino else rest

unfoldable pub dir_lookup : MinixFs → Inode → Text → Result MinixError (Option Inode)
dir_lookup fs dir name = do
  entries ← read_dir fs dir
  elim (find_entry entries name) [
    | none ↦ ok none
    | some ino ↦ do inode ← get_inode fs ino; ok (some inode)
  ]

-- `path.split("/")`: the parts between the slashes, of which the first is being read.
unfoldable pub split_slash : Text → List Text
split_slash [] = [] ∷ []
split_slash (c ∷ cs) =
    let rest = split_slash cs in
    if c == b'/' then [] ∷ rest else elim rest [ [] ↦ (c ∷ []) ∷ [] | p ∷ ps ↦ (c ∷ p) ∷ ps ]

abbrev pub is_skipped : Text → Bool
is_skipped part = text_eq part [] || text_eq part (b'.' ∷ [])

-- The loop of `resolve` over the parts of the path.
unfoldable pub resolve_parts : MinixFs → Inode → List Text → Result MinixError Inode
resolve_parts fs cur [] = ok cur
resolve_parts fs cur (part ∷ parts) = elim (is_skipped part) [
  | true ↦ resolve_parts fs cur parts
  | false ↦ elim (is_dir cur.mode) [
    | false ↦ err (lookup_in_file part)
    | true ↦ elim (dir_lookup fs cur part) [
      | err e ↦ err e
      | ok none ↦ err (no_such_path part)
      | ok (some next) ↦ resolve_parts fs next parts
    ]
  ]
]

abbrev pub is_absolute : Text → Bool
is_absolute [] = false
is_absolute (c ∷ cs) = c == b'/'

unfoldable pub resolve : MinixFs → Text → Option Inode → Result MinixError Inode
unfolding split_slash resolve_parts
resolve fs path none = do cur ← root fs; resolve_parts fs cur (split_slash path)
resolve fs path (some cwd) = do
  cur ← if is_absolute path then root fs else ok cwd
  resolve_parts fs cur (split_slash path)
