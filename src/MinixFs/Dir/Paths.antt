-- ===== src/MinixFs/Dir/Paths.antt =====
-- The resolution of paths in minixfs.py: a path is resolved one part after the other.
use minixfs.Prelude.{
  ◌≡◌, ◌≢◌, refl, false, none, some, List, [], ◌∷◌, ◌++◌, ◌==◌, Bool-cases, Result-cases, inl, inr,
  if◌then◌else◌, Result, ok, ◌>>=◌, arith,
}
use minixfs.MinixFs.Format.{MinixError, Inode}
use minixfs.MinixFs.Disk.{MinixFs, root}
use minixfs.MinixFs.Dir.{
  Text, split_slash, resolve_parts, resolve, dir_lookup, is_absolute, is_skipped,
}

split_slash-ne-nil : (p : Text) → split_slash p ≢ []
unfolding split_slash
split_slash-ne-nil [] = λ h. cc
split_slash-ne-nil (c ∷ cs) = λ h. ground arith

-- A slash between two texts splits there.
split_slash-append : (p q : Text) → split_slash (p ++ b'/' ∷ q) ≡ split_slash p ++ split_slash q
unfolding split_slash
split_slash-append [] q = refl
split_slash-append (c ∷ cs) q = ground (arith, split_slash-append cs q, split_slash-ne-nil cs)

module _ (fs : MinixFs) where
  resolve_parts-append :
      (cur : Inode) (xs ys : List Text)
      → resolve_parts fs cur (xs ++ ys) ≡ (do m ← resolve_parts fs cur xs; resolve_parts fs m ys)
  unfolding resolve_parts
  resolve_parts-append cur [] ys = refl
  resolve_parts-append cur (x ∷ xs) ys = elim (Bool-cases (is_skipped x)) [
    | inl s ↦ ground (arith, s, resolve_parts-append cur xs ys)
    | inr s ↦ elim (Result-cases (dir_lookup fs cur x)) [
      | inr (e, f) ↦ ground (arith, s, f)
      | inl (none, f) ↦ ground (arith, s, f)
      | inl (some next, f) ↦ ground (arith, s, f, resolve_parts-append next xs ys)
    ]
  ]

  -- A path that is put together from a text and a relative path is resolved by resolving the text,
  -- and then the relative path from the inode found; an error of the first part is the error of the
  -- whole.
  pub resolve-append :
      (p q : Text) (cwd : Inode)
      → p ≢ []
      → is_absolute q ≡ false
      → resolve fs (p ++ b'/' ∷ q) (some cwd)
        ≡ (do m ← resolve fs p (some cwd); resolve fs q (some m))
  unfolding resolve
  resolve-append [] q cwd ne rel = absurd (ne refl)
  resolve-append (c ∷ cs) q cwd ne rel =
      let start : Result MinixError Inode = if c == b'/' then root fs else ok cwd in
      elim (Result-cases start) [
        | inr (e, f) ↦ ground (arith, f)
        | inl (s, f) ↦ ground (
          arith,
          f,
          rel,
          split_slash-append (c ∷ cs) q,
          resolve_parts-append s (split_slash (c ∷ cs)) (split_slash q),
        )
      ]
