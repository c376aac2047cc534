-- ===== src/Overlay/Finds.antt =====
-- What `lookup` finds. What it finds of other names is unchanged where a directory and one more
-- object are replaced.
use minixfs.Prelude.{
  ℕ, ◌≡◌, sym, ap, ◌∙◌, true, none, some, ◌==◌, if◌then◌else◌, ok, err, Result-cases, Option-cases,
  inl, inr, arith,
}
use minixfs.MinixFs.Format.{is_dir}
use minixfs.MinixFs.Disk.{get_inode}
use minixfs.MinixFs.Dir.{Text}
use minixfs.Overlay.Dict.{Entries, dict_get, Table, table_get}
use minixfs.Overlay.State.{OverlayFs, VInode, the, put, get}
use minixfs.Overlay.Lookup.{lookup}

-- The number names a directory whose entries are in memory.
abbrev pub IsLoadedDir : OverlayFs → ℕ → VInode → Entries → Type 0
IsLoadedDir s ino v d =
    (table_get ino s.vnodes ≡ some v)
    × (v.ino ≡ ino)
    × (is_dir v.mode ≡ true)
    × (v.entries ≡ some d)

pub lookup_here :
    (s : OverlayFs) (dir : ℕ) (p : VInode) (d : Entries) (name : Text) (ino : ℕ) (v : VInode)
    → IsLoadedDir s dir p d
    → dict_get name d ≡ some ino
    → table_get ino s.vnodes ≡ some v
    → lookup dir name s ≡ (ok (some ino), s)
unfolding the get lookup
lookup_here s dir p d name ino v (at, e, isd, en) f at' = ground (arith, at, isd, en, f, at')

pub lookup_missing :
    (s : OverlayFs) (dir : ℕ) (p : VInode) (d : Entries) (name : Text)
    → IsLoadedDir s dir p d
    → dict_get name d ≡ none
    → lookup dir name s ≡ (ok none, s)
unfolding the lookup
lookup_missing s dir p d name (at, e, isd, en) f = ground (arith, at, isd, en, f)

-- What `get` returns depends on the disk and on whether the number is in the table.
get_present :
    (s : OverlayFs) (j : ℕ) (v : VInode) → table_get j s.vnodes ≡ some v → get j s ≡ (ok j, s)
unfolding get
get_present s j v h = ground (arith, h)

get_absent :
    (s : OverlayFs) (t : Table VInode) (n : Table (ℕ × Text)) (j : ℕ)
    → table_get j s.vnodes ≡ none
    → table_get j t ≡ none
    → (get j (record s { vnodes = t; names = n })).0 ≡ (get j s).0
unfolding get put
get_absent s t n j h k = elim (Result-cases (get_inode s.disk j)) [
  | inl (i, r) ↦ ground (arith, h, k, r)
  | inr (e, r) ↦ ground (arith, h, k, r)
]

lookup-get :
    (s : OverlayFs) (dir : ℕ) (p : VInode) (d : Entries) (name : Text) (j : ℕ)
    → IsLoadedDir s dir p d
    → dict_get name d ≡ some j
    → (lookup dir name s).0 ≡ elim ((get j s).0) [ ok i ↦ ok (some i) | err e ↦ err e ]
unfolding the lookup
lookup-get s dir p d name j (at, e, isd, en) f = elim (Result-cases ((get j s).0)) [
  | inl (i, r) ↦ ground (arith, at, isd, en, f, r)
  | inr (x, r) ↦ ground (arith, at, isd, en, f, r)
]

module _ (s : OverlayFs) (t : Table VInode) (n : Table (ℕ × Text)) (parent ino : ℕ)
    (p p' v v' : VInode) (d d' : Entries) (here : IsLoadedDir s parent p d)
    (at : table_get ino s.vnodes ≡ some v)
    (agree : (j : ℕ)
      → table_get j t
        ≡ (if parent == j then some p' else if ino == j then some v' else table_get j s.vnodes))
    (here' : IsLoadedDir (record s { vnodes = t; names = n }) parent p' d') where
  get_alike : (j : ℕ) → (get j (record s { vnodes = t; names = n })).0 ≡ (get j s).0
  get_alike j = elim (Option-cases (table_get j s.vnodes)) [
    | inr (w, h) ↦ elim (Option-cases (table_get j t)) [
      | inr (w', h') ↦
          ap (λ r. r.0) (get_present (record s { vnodes = t; names = n }) j w' h')
          ∙ sym (ap (λ r. r.0) (get_present s j w h))
      | inl h' ↦ absurd (ground (arith, h, h', agree j))
    ]
    | inl h ↦ get_absent s t n j h (ground (arith, h, at, here.0, agree j))
  ]

  pub lookup_alike :
      (other : Text)
      → dict_get other d' ≡ dict_get other d
      → (lookup parent other (record s { vnodes = t; names = n })).0 ≡ (lookup parent other s).0
  lookup_alike other same =
      let s' = record s { vnodes = t; names = n } in
      elim (Option-cases (dict_get other d)) [
        | inl f ↦
            ap (λ r. r.0) (lookup_missing s' parent p' d' other here' (same ∙ f))
            ∙ sym (ap (λ r. r.0) (lookup_missing s parent p d other here f))
        | inr (j, f) ↦
            lookup-get s' parent p' d' other j here' (same ∙ f)
            ∙ ap (λ r. elim r [ ok i ↦ ok (some i) | err x ↦ err x ]) (get_alike j)
            ∙ sym (lookup-get s parent p d other j here f)
      ]
