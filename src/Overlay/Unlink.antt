-- ===== src/Overlay/Unlink.antt =====
-- Removing names from the directories of kvfs.py.
use minixfs.Prelude.{
  ℕ, ◌-◌, ◌≡◌, refl, ◌≢◌, ◌∙◌, true, false, ◌&&◌, none, some, text_eq, text_eq_iff, ◌==◌,
  if◌then◌else◌, ok, arith,
}
use minixfs.MinixFs.Dir.{Text}
use minixfs.Overlay.Dict.{
  Entries, dict_get, dict_del, dict_get-dict_del, Table, table_get, table_set, table_get-table_set,
}
use minixfs.Overlay.State.{OverlayFs, VInode, the, put, get, cow_dir}
use minixfs.Overlay.Lookup.{lookup}
use minixfs.Overlay.Ops.{remember, unlink_entry}
use minixfs.Overlay.Finds.{IsLoadedDir, lookup_missing, lookup_alike}

-- The object once the name is gone: a link less, and deleted where no link and no open file is left.
abbrev pub unlinked : VInode → VInode
unlinked v = record v {
  nlinks = v.nlinks - 1;
  deleted = if v.nlinks - 1 == 0 && v.open_refs == 0 then true else v.deleted;
}

-- The directory without the name.
abbrev without_name : ℕ → VInode → Entries → VInode
without_name now p d = record p { entries = some d; mtime = now }

-- The table after the four assignments of `_unlink_entry`.
abbrev unlinked_table : ℕ → VInode → VInode → Entries → Table VInode → Table VInode
unlinked_table now p v d t =
    let p' = record p { entries = some d } in
    table_set v.ino (unlinked v) (
      table_set p.ino (without_name now p d)
        (table_set v.ino (record v { nlinks = v.nlinks - 1 }) (table_set p.ino p' t)))

unlink_entry_steps :
    (s : OverlayFs) (now parent : ℕ) (name : Text) (ino : ℕ) (p v : VInode) (d : Entries)
    → IsLoadedDir s parent p d
    → dict_get name d ≡ some ino
    → table_get ino s.vnodes ≡ some v
    → v.ino ≡ ino
    → parent ≢ ino
    → unlink_entry now parent name s ≡ (
      ok ino,
      record s {
        vnodes = unlinked_table now p v (dict_del name d) s.vnodes;
        names = table_set ino (parent, name) s.names;
      },
    )
unfolding the put get cow_dir remember unlink_entry
unlink_entry_steps s now parent name ino p v d (at, e, isd, en) f at' e' ne =
    let d' = dict_del name d in
    let p' = record p { entries = some d' } in
    let t1 = table_set p.ino p' s.vnodes in
    let v' = record v { nlinks = v.nlinks - 1 } in
    let t2 = table_set v.ino v' t1 in
    ground (
      arith,
      at,
      isd,
      en,
      f,
      table_get-table_set p.ino ino p' s.vnodes,
      table_get-table_set p.ino parent p' s.vnodes,
      table_get-table_set v.ino parent v' t1,
      table_get-table_set v.ino ino v' t1,
      table_get-table_set p.ino ino (without_name now p d') t2,
    )

module _ (s : OverlayFs) (now parent : ℕ) (name : Text) (ino : ℕ) (p v : VInode) (d : Entries)
    (e : p.ino ≡ parent) (e' : v.ino ≡ ino) (ne : parent ≢ ino) where
  rest : Table VInode
  rest = unlinked_table now p v (dict_del name d) s.vnodes

  table_get-rest :
      (j : ℕ)
      → table_get j rest ≡ (
          if parent == j
          then some (without_name now p (dict_del name d))
          else if ino == j
          then some (unlinked v)
          else table_get j s.vnodes)
  unfolding rest
  table_get-rest j =
      let d' = dict_del name d in
      let p' = record p { entries = some d' } in
      let p'' = without_name now p d' in
      let v' = record v { nlinks = v.nlinks - 1 } in
      let t1 = table_set p.ino p' s.vnodes in
      let t2 = table_set v.ino v' t1 in
      let t3 = table_set p.ino p'' t2 in
      ground (
        arith,
        e,
        e',
        ne,
        table_get-table_set p.ino j p' s.vnodes,
        table_get-table_set v.ino j v' t1,
        table_get-table_set p.ino j p'' t2,
        table_get-table_set v.ino j (unlinked v) t3,
      )

-- In a directory whose entries are in memory, removing the name of another object of the table
-- returns the object; a lookup of the name then finds nothing, and a lookup of any other name returns
-- what it returned before; the object counts one link less, and is deleted exactly where it was or
-- where no link and no open file is left; no object but it and the directory changes, and the place
-- of the name is remembered.
pub unlink_entry-lookup :
    (s : OverlayFs) (now parent : ℕ) (name : Text) (ino : ℕ) (p v : VInode) (d : Entries)
    → IsLoadedDir s parent p d
    → dict_get name d ≡ some ino
    → table_get ino s.vnodes ≡ some v
    → v.ino ≡ ino
    → parent ≢ ino
    → (s' : OverlayFs) × (unlink_entry now parent name s ≡ (ok ino, s'))
      × (lookup parent name s' ≡ (ok none, s'))
      × ((other : Text)
          → text_eq name other ≡ false
          → (lookup parent other s').0 ≡ (lookup parent other s).0)
      × (table_get ino s'.vnodes ≡ some (unlinked v))
      × ((j : ℕ) → j ≢ parent → j ≢ ino → table_get j s'.vnodes ≡ table_get j s.vnodes)
      × (table_get ino s'.names ≡ some (parent, name))
unfolding rest
unlink_entry-lookup s now parent name ino p v d here f at' e' ne =
    let e = here.1 in
    let d' = dict_del name d in
    let p' = without_name now p d' in
    let t = rest s now parent name ino p v d e e' ne in
    let n = table_set ino (parent, name) s.names in
    let s' = record s { vnodes = t; names = n } in
    let at = table_get-rest s now parent name ino p v d e e' ne in
    let here' : IsLoadedDir s' parent p' d' = (ground (arith, at parent), e, here.2, refl) in
    (
      s',
      unlink_entry_steps s now parent name ino p v d here f at' e' ne,
      lookup_missing s' parent p' d' name here'
          (dict_get-dict_del name name d ∙ ground (arith, text_eq_iff name name)),
      λ other differs.
          lookup_alike s t n parent ino p p' v (unlinked v) d d' here at' at here' other
            (dict_get-dict_del name other d ∙ ground (arith, differs)),
      ground (arith, ne, at ino),
      λ j n1 n2. ground (arith, n1, n2, at j),
      table_get-table_set ino ino (parent, name) s.names ∙ ground arith,
    )
