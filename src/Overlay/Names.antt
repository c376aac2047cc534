-- ===== src/Overlay/Names.antt =====
-- Names in the directories of kvfs.py: linking and looking up.
use minixfs.Prelude.{
  ℕ, ◌+◌, ◌≡◌, refl, ◌≢◌, ◌∙◌, false, some, text_eq, text_eq_iff, ◌==◌, if◌then◌else◌, ok, arith,
}
use minixfs.MinixFs.Dir.{Text}
use minixfs.Overlay.Dict.{
  Entries, dict_set, dict_get-dict_set, Table, table_get, table_set, table_get-table_set,
}
use minixfs.Overlay.State.{OverlayFs, VInode, the, put, cow_dir}
use minixfs.Overlay.Lookup.{lookup}
use minixfs.Overlay.Ops.{link_entry}
use minixfs.Overlay.Finds.{IsLoadedDir, lookup_here, lookup_alike}

-- The table after the three assignments of `_link_entry`.
abbrev linked_table : ℕ → ℕ → Text → ℕ → VInode → VInode → Entries → Table VInode → Table VInode
linked_table now parent name ino p v d t =
    let p' = record p { entries = some (dict_set name ino d) } in
    table_set p.ino (record p' { mtime = now })
      (table_set v.ino (record v { nlinks = v.nlinks + 1 }) (table_set p.ino p' t))

link_entry_steps :
    (s : OverlayFs) (now parent : ℕ) (name : Text) (ino : ℕ) (p v : VInode) (d : Entries)
    → IsLoadedDir s parent p d
    → table_get ino s.vnodes ≡ some v
    → v.ino ≡ ino
    → parent ≢ ino
    → link_entry now parent name ino s
      ≡ (ok tt, record s { vnodes = linked_table now parent name ino p v d s.vnodes })
unfolding the put cow_dir link_entry
link_entry_steps s now parent name ino p v d (at, e, isd, en) at' e' ne =
    let p' = record p { entries = some (dict_set name ino d) } in
    let t1 = table_set p.ino p' s.vnodes in
    let v' = record v { nlinks = v.nlinks + 1 } in
    ground (
      arith,
      at,
      isd,
      en,
      table_get-table_set p.ino ino p' s.vnodes,
      table_get-table_set p.ino parent p' s.vnodes,
      table_get-table_set v.ino parent v' t1,
    )

module _ (s : OverlayFs) (now parent : ℕ) (name : Text) (ino : ℕ) (p v : VInode) (d : Entries)
    (e : p.ino ≡ parent) (e' : v.ino ≡ ino) (ne : parent ≢ ino) where
  linked : Table VInode
  linked = linked_table now parent name ino p v d s.vnodes

  table_get-linked :
      (j : ℕ)
      → table_get j linked ≡ (
          if parent == j
          then some (record p { entries = some (dict_set name ino d); mtime = now })
          else if ino == j
          then some (record v { nlinks = v.nlinks + 1 })
          else table_get j s.vnodes)
  unfolding linked
  table_get-linked j =
      let p' = record p { entries = some (dict_set name ino d) } in
      let p'' = record p' { mtime = now } in
      let v' = record v { nlinks = v.nlinks + 1 } in
      let t1 = table_set p.ino p' s.vnodes in
      let t2 = table_set v.ino v' t1 in
      ground (
        arith,
        e,
        e',
        table_get-table_set p.ino j p' s.vnodes,
        table_get-table_set v.ino j v' t1,
        table_get-table_set p.ino j p'' t2,
      )

  module _ (here : IsLoadedDir s parent p d) (at' : table_get ino s.vnodes ≡ some v) where
    linked_dir :
        IsLoadedDir
          (record s { vnodes = linked })
          parent
          (record p { entries = some (dict_set name ino d); mtime = now })
          (dict_set name ino d)
    linked_dir = (ground (arith, table_get-linked parent), e, here.2, refl)

    lookup-linked_other :
        (other : Text)
        → text_eq name other ≡ false
        → (lookup parent other (record s { vnodes = linked })).0 ≡ (lookup parent other s).0
    lookup-linked_other other differs =
        lookup_alike s linked s.names parent ino p
          (record p { entries = some (dict_set name ino d); mtime = now }) v
          (record v { nlinks = v.nlinks + 1 }) d (dict_set name ino d) here at' table_get-linked
          linked_dir other (dict_get-dict_set name other ino d ∙ ground (arith, differs))

-- In a directory whose entries are in memory, linking another object of the table under a name
-- succeeds; a lookup of the name finds the object and changes nothing; a lookup of any other name
-- returns what it returned before; the object counts one link more, and no object but it and the
-- directory changes.
pub link_entry-lookup :
    (s : OverlayFs) (now parent : ℕ) (name : Text) (ino : ℕ) (p v : VInode) (d : Entries)
    → IsLoadedDir s parent p d
    → table_get ino s.vnodes ≡ some v
    → v.ino ≡ ino
    → parent ≢ ino
    → (s' : OverlayFs) × (link_entry now parent name ino s ≡ (ok tt, s'))
      × (lookup parent name s' ≡ (ok (some ino), s'))
      × ((other : Text)
          → text_eq name other ≡ false
          → (lookup parent other s').0 ≡ (lookup parent other s).0)
      × (table_get ino s'.vnodes ≡ some (record v { nlinks = v.nlinks + 1 }))
      × ((j : ℕ) → j ≢ parent → j ≢ ino → table_get j s'.vnodes ≡ table_get j s.vnodes)
unfolding linked
link_entry-lookup s now parent name ino p v d here at' e' ne =
    let e = here.1 in
    let s' = record s { vnodes = linked s now parent name ino p v d e e' ne } in
    let v' = record v { nlinks = v.nlinks + 1 } in
    let at = table_get-linked s now parent name ino p v d e e' ne in
    let now_dir = linked_dir s now parent name ino p v d e e' ne here at' in
    let counted : table_get ino s'.vnodes ≡ some v' = ground (arith, ne, at ino) in
    (
      s',
      link_entry_steps s now parent name ino p v d here at' e' ne,
      lookup_here s' parent (record p { entries = some (dict_set name ino d); mtime = now })
          (dict_set name ino d) name ino v' now_dir
          (dict_get-dict_set name name ino d ∙ ground (arith, text_eq_iff name name)) counted,
      lookup-linked_other s now parent name ino p v d e e' ne here at',
      counted,
      λ j n1 n2. ground (arith, n1, n2, at j),
    )
