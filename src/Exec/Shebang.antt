-- ===== src/Exec/Shebang.antt =====
-- Finding the file that an execve runs (`parse_shebang` and `resolve_exec` of kexec.py).
use minixfs.Prelude.{
  ℕ, zero, suc, Bool, not, ◌&&◌, ◌||◌, Option, none, some, List, [], ◌∷◌, ◌++◌, leb, ◌==◌,
  if◌then◌else◌, drop, Bytes, Result, ok, err,
}
use minixfs.MinixFs.Format.{is_regular}
use minixfs.Overlay.State.{OverlayFs, the}
use minixfs.Overlay.Lookup.{Place, walk}
use minixfs.Overlay.Ops.{read}
use minixfs.Exec.{ExecError, enoexec, eacces, from_fs}

-- White space to `bytes.strip`, and to `str.split` on latin-1 characters.
abbrev pub is_space_byte : ℕ → Bool
is_space_byte c = c == 32 || (leb 9 c && leb c 13)

abbrev pub is_space_char : ℕ → Bool
is_space_char c = is_space_byte c || (leb 28 c && leb c 31) || c == 0x85 || c == 0xA0

-- The part before the first byte of a kind, and the rest from that byte on.
unfoldable pub take_until : (ℕ → Bool) → Bytes → Bytes
take_until p [] = []
take_until p (c ∷ cs) = let rest = take_until p cs in if p c then [] else c ∷ rest

unfoldable pub drop_until : (ℕ → Bool) → Bytes → Bytes
drop_until p [] = []
drop_until p (c ∷ cs) = let rest = drop_until p cs in if p c then c ∷ cs else rest

unfoldable pub strip_end : (ℕ → Bool) → Bytes → Bytes
strip_end p [] = []
strip_end p (c ∷ cs) = elim (strip_end p cs) [
  | [] ↦ if p c then [] else c ∷ []
  | d ∷ ds ↦ c ∷ d ∷ ds
]

abbrev pub strip : (ℕ → Bool) → Bytes → Bytes
strip p t = strip_end p (drop_until (λ c. not (p c)) t)

-- Not a script; a line of spaces that only `str.split` knows, where the source fails with an
-- IndexError; or the interpreter and its argument.
pub data Shebang : Type 0 where
  no_script index_error : Shebang
  script : (interp : Bytes) → (arg : Option Bytes) → Shebang

abbrev pub split_line : Bytes → Shebang
split_line text = elim (drop_until (λ c. not (is_space_char c)) text) [
  | [] ↦ index_error
  | c ∷ cs ↦
      let interp = take_until is_space_char (c ∷ cs) in
      elim (strip is_space_char (drop_until is_space_char (c ∷ cs))) [
        | [] ↦ script interp none
        | d ∷ ds ↦ script interp (some (d ∷ ds))
      ]
]

unfoldable pub parse_shebang : Bytes → Shebang
unfolding take_until drop_until strip_end
parse_shebang head = elim head [
  | [] ↦ no_script
  | a ∷ rest ↦ elim rest [
    | [] ↦ no_script
    | b ∷ line ↦
        if a == 35 && b == 33
        then (elim (strip is_space_byte
            (take_until (λ c. c == 0) (take_until (λ c. c == 10) line))) [
              | [] ↦ no_script
              | c ∷ cs ↦ split_line (c ∷ cs)
            ])
        else no_script
  ]
]

-- An error of the loader, or the IndexError.
pub data ResolveError : Type 0 where
  loader : ExecError → ResolveError
  python_index : ResolveError

abbrev pub argument : Option Bytes → List Bytes
argument none = []
argument (some t) = t ∷ []

-- The number of the file, by which the source returns its object, and the arguments; `left` is the
-- number of calls that the depth allows, five at first.
unfoldable pub resolve_exec :
    (left : ℕ)
    → Bytes
    → List Bytes
    → Place
    → OverlayFs
    → Result ResolveError (ℕ × List Bytes) × OverlayFs
unfolding parse_shebang
resolve_exec zero path argv place s = (err (loader enoexec), s)
resolve_exec (suc left) path argv place s =
    let (found, s1) = walk path place s in
    elim found [
      | err e ↦ (err (loader (from_fs e)), s1)
      | ok ino ↦ elim (the ino s1).0 [
        | err e ↦ (err (loader (from_fs e)), s1)
        | ok v ↦
            if not (is_regular v.mode)
            then (err (loader eacces), s1)
            else let (got, s2) = read ino 0 128 s1 in
              elim got [
                | err e ↦ (err (loader (from_fs e)), s2)
                | ok head ↦ elim (parse_shebang head) [
                  | no_script ↦ (ok (ino, argv), s2)
                  | index_error ↦ (err python_index, s2)
                  | script interp arg ↦
                      resolve_exec left interp (interp ∷ (argument arg ++ path ∷ drop 1 argv)) place
                        s2
                ]
              ]
      ]
    ]
