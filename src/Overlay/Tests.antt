-- ===== src/Overlay/Tests.antt =====
-- A small overlay for kvfs.py: a directory and a file in memory over an empty image.
use minixfs.Prelude.{
  ℕ, ◌+◌, ◌*◌, ◌≡◌, refl, ◌≢◌, true, false, none, some, [], ◌∷◌, ltb, if◌then◌else◌, length, get_or,
  Bytes, slice, text_eq, ok, arith,
}
use minixfs.MinixFs.Dir.{Text, parse_entries}
use minixfs.Overlay.Dict.{Entries, dict_get, table_get}
use minixfs.Overlay.State.{OverlayFs, VInode}
use minixfs.Overlay.Lookup.{lookup, list_dir, readdir_raw}
use minixfs.Overlay.Ops.{read, write, truncate, link_entry, unlink_entry}
use minixfs.Overlay.Buffers.{byte_after}
use minixfs.Overlay.Contents.{contents, write-read, truncate-read}
use minixfs.Overlay.Entries.{parse_entries-readdir_raw}
use minixfs.Overlay.Names.{link_entry-lookup}
use minixfs.Overlay.Unlink.{unlink_entry-lookup}

abbrev listing : Entries
listing = (b'.' ∷ [], 1) ∷ (b'.' ∷ b'.' ∷ [], 1) ∷ (b'a' ∷ [], 2) ∷ []

abbrev top : VInode
top = record {
  ino = 1;
  mode = 0x41ED;
  uid = 0;
  gid = 0;
  nlinks = 2;
  mtime = 0;
  rdev = 0;
  disk_size = 0;
  content = none;
  entries = some listing;
  base = none;
  open_refs = 0;
  deleted = false;
}

abbrev file : VInode
file = record {
  ino = 2;
  mode = 0x81A4;
  uid = 0;
  gid = 0;
  nlinks = 1;
  mtime = 0;
  rdev = 0;
  disk_size = 0;
  content = some (1 ∷ 2 ∷ 3 ∷ []);
  entries = none;
  base = none;
  open_refs = 0;
  deleted = false;
}

abbrev small : OverlayFs
small = record {
  disk = record {
    image = [];
    offset = 0;
    sb = record {
      ninodes = 2;
      nzones = 0;
      imap_blocks = 0;
      zmap_blocks = 0;
      firstdatazone = 0;
      log_zone_size = 0;
      max_size = 0;
      magic = 0;
    };
  };
  vnodes = (1, top) ∷ (2, file) ∷ [];
  names = [];
  next_ino = 3;
}

abbrev bytes : Bytes
bytes = 8 ∷ 9 ∷ []

abbrev old : Bytes
old = 1 ∷ 2 ∷ 3 ∷ []

write-read_example :
    (s' : OverlayFs) × (after : Bytes) × (write 7 2 5 bytes small ≡ (ok (length bytes), s'))
    × ((a n : ℕ) → read 2 a n s' ≡ (ok (slice after a (a + n)), s'))
    × ((i : ℕ) → get_or after i 0 ≡ byte_after old 5 bytes i)
    × (length after
        ≡ (if ltb (length old) (5 + length bytes) then 5 + length bytes else length old))
    × ((j : ℕ) → j ≢ 2 → table_get j s'.vnodes ≡ table_get j small.vnodes)
unfolding table_get contents
write-read_example = write-read small 2 file old 7 5 bytes (refl, refl, refl) refl

truncate-read_example :
    (s' : OverlayFs) × (after : Bytes) × (truncate 7 2 2 small ≡ (ok tt, s'))
    × ((a k : ℕ) → read 2 a k s' ≡ (ok (slice after a (a + k)), s'))
    × ((i : ℕ) → get_or after i 0 ≡ (if ltb i 2 then get_or old i 0 else 0))
    × (length after ≡ 2)
    × ((j : ℕ) → j ≢ 2 → table_get j s'.vnodes ≡ table_get j small.vnodes)
unfolding table_get contents
truncate-read_example = truncate-read small 2 file old 7 2 (refl, refl, refl) refl

abbrev name : Text
name = b'b' ∷ []

link_entry-lookup_example :
    (s' : OverlayFs) × (link_entry 7 1 name 2 small ≡ (ok tt, s'))
    × (lookup 1 name s' ≡ (ok (some 2), s'))
    × ((other : Text)
        → text_eq name other ≡ false
        → (lookup 1 other s').0 ≡ (lookup 1 other small).0)
    × (table_get 2 s'.vnodes ≡ some (record file { nlinks = 2 }))
    × ((j : ℕ) → j ≢ 1 → j ≢ 2 → table_get j s'.vnodes ≡ table_get j small.vnodes)
unfolding table_get
link_entry-lookup_example =
    link_entry-lookup small 7 1 name 2 top file listing (refl, refl, refl, refl) refl refl
      (omega arith)

abbrev name_a : Text
name_a = b'a' ∷ []

unlink_entry-lookup_example :
    (s' : OverlayFs) × (unlink_entry 7 1 name_a small ≡ (ok 2, s'))
    × (lookup 1 name_a s' ≡ (ok none, s'))
    × ((other : Text)
        → text_eq name_a other ≡ false
        → (lookup 1 other s').0 ≡ (lookup 1 other small).0)
    × (table_get 2 s'.vnodes ≡ some (record file { nlinks = 0; deleted = true }))
    × ((j : ℕ) → j ≢ 1 → j ≢ 2 → table_get j s'.vnodes ≡ table_get j small.vnodes)
    × (table_get 2 s'.names ≡ some (1, name_a))
unfolding table_get dict_get
unlink_entry-lookup_example =
    unlink_entry-lookup small 7 1 name_a 2 top file listing (refl, refl, refl, refl) refl refl refl
      (omega arith)

parse_entries-readdir_raw_example :
    (raw : Bytes) × (readdir_raw 1 small ≡ (ok raw, small))
    × (length raw ≡ 16 * length listing)
    × (list_dir 1 small ≡ (ok (parse_entries 16 raw), small))
unfolding table_get
parse_entries-readdir_raw_example =
    parse_entries-readdir_raw small 1 top listing (refl, refl, refl, refl)
      (
        omega arith,
        omega arith,
        omega arith,
        (omega arith, tt),
        (
          omega arith,
          omega arith,
          omega arith,
          (omega arith, (omega arith, tt)),
          (omega arith, omega arith, omega arith, (omega arith, tt), tt),
        ),
      )
