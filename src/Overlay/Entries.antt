-- ===== src/Overlay/Entries.antt =====
-- The bytes that `readdir_raw` of kvfs.py makes of a directory, against the parser of `read_dir` in
-- minixfs.py.
use minixfs.Prelude.{
  ℕ, zero, suc, ◌+◌, ◌-◌, ◌%◌, ◌^◌, ◌*◌, ok, drop, ◌<◌, ◌≤◌, ◌≡◌, refl, ◌≢◌, sym, ap, ◌∙◌, [], ◌∷◌,
  ◌++◌, length, take, u16_at, u16_bytes, zeros, length-zeros, length-append, length-take, take_all,
  drop-append_length, take-append_length, get_or-append_right, slice, Bytes, arith,
}
use mathlib.Core.List.{append_assoc}
use minixfs.MinixFs.Dir.{Text, until_zero, entries_from, parse_entries}
use minixfs.Overlay.Dict.{Entries}
use minixfs.Overlay.State.{name_max, OverlayFs, VInode, the}
use minixfs.Overlay.Finds.{IsLoadedDir}
use minixfs.Overlay.Lookup.{flip_entries, pack_entries, list_dir, readdir_raw}

-- No character of the name is zero.
abbrev pub NoZero : Text → Type 0
NoZero [] = Unit {0}
NoZero (c ∷ cs) = (c ≢ 0) × NoZero cs

-- Every number fits its field and is not the mark of a free entry, and every name fits its field.
abbrev pub Fits : Entries → Type 0
Fits [] = Unit {0}
Fits ((name, ino) ∷ d) = (0 < ino) × (ino < 65536) × (length name ≤ 14) × NoZero name × Fits d

until_zero-zeros : (n : ℕ) → until_zero (zeros n) ≡ []
unfolding until_zero
until_zero-zeros zero = refl
until_zero-zeros (suc n) = refl

until_zero-pad : (t : Text) (n : ℕ) → NoZero t → until_zero (t ++ zeros n) ≡ t
unfolding until_zero
until_zero-pad [] n h = until_zero-zeros n
until_zero-pad (c ∷ t) n (h, hs) = ground (arith, h, until_zero-pad t n hs)

abbrev field : Text → Bytes
field name = take name_max name ++ zeros (name_max - length (take name_max name))

abbrev chunk : Text → ℕ → Bytes
chunk name ino = u16_bytes (ino % 2 ^ 16) ++ field name

length-field : (name : Text) → length (field name) ≡ 14
length-field name =
    let t = take name_max name in
    omega (
      arith,
      length-append t (zeros (name_max - length t)),
      length-take name_max name,
      length-zeros (name_max - length t),
    )

until_zero-field : (name : Text) → length name ≤ 14 → NoZero name → until_zero (field name) ≡ name
until_zero-field name h z =
    ap (λ t. until_zero (t ++ zeros (14 - length t))) (take_all 14 name h)
    ∙ until_zero-pad name (14 - length name) z

module _ (pre : Bytes) (name : Text) (ino : ℕ) (tail : Bytes) where
  number_at : u16_at (pre ++ (chunk name ino ++ tail)) (length pre) ≡ ino % 65536
  number_at = ground (
    arith,
    get_or-append_right 0 pre (chunk name ino ++ tail) (length pre) (omega arith),
    get_or-append_right 0 pre (chunk name ino ++ tail) (length pre + 1) (omega arith),
  )

  name_at : slice (pre ++ (chunk name ino ++ tail)) (length pre + 2) (length pre + 16) ≡ field name
  name_at =
      ap (λ t. take (length pre + 16 - (length pre + 2)) t) after_number
      ∙ take-append_length (length pre + 16 - (length pre + 2)) (field name) tail
          (omega (arith, length-field name))
    where
      after_number : drop (length pre + 2) (pre ++ (chunk name ino ++ tail)) ≡ field name ++ tail
      after_number =
          ap (λ t. drop (length pre + 2) t)
            (sym (append_assoc pre (u16_bytes (ino % 2 ^ 16)) (field name ++ tail)))
          ∙ drop-append_length (length pre + 2) (pre ++ u16_bytes (ino % 2 ^ 16))
              (field name ++ tail) (omega (arith, length-append pre (u16_bytes (ino % 2 ^ 16))))

entries_from-pack_entries :
    (d : Entries) (pre : Bytes) (fuel : ℕ)
    → length d ≤ fuel
    → Fits d
    → entries_from 16 (pre ++ pack_entries d) fuel (length pre) ≡ flip_entries d
unfolding entries_from pack_entries flip_entries
entries_from-pack_entries [] pre zero h fits = refl
entries_from-pack_entries [] pre (suc fuel) h fits = ground (arith, length-append pre [])
entries_from-pack_entries (e ∷ d) pre zero h fits = absurd (omega arith)
entries_from-pack_entries ((name, ino) ∷ d) pre (suc fuel) h (some_ino, small, short, z, fits) =
    let raw = pre ++ (chunk name ino ++ pack_entries d) in
    let next : entries_from 16 raw fuel (length pre + 16) ≡ flip_entries d =
      ap (λ r. entries_from 16 r fuel (length pre + 16))
        (sym (append_assoc pre (chunk name ino) (pack_entries d)))
      ∙ ap (λ k. entries_from 16 ((pre ++ chunk name ino) ++ pack_entries d) fuel k)
          (omega (arith, length-append pre (chunk name ino), length-field name))
      ∙ entries_from-pack_entries d (pre ++ chunk name ino) fuel (omega arith) fits in
    ground (
      arith,
      next,
      some_ino,
      small,
      number_at pre name ino (pack_entries d),
      name_at pre name ino (pack_entries d),
      until_zero-field name short z,
      length-append pre (chunk name ino ++ pack_entries d),
      length-append (field name) (pack_entries d),
      length-field name,
    )

length-pack_entries : (d : Entries) → length (pack_entries d) ≡ 16 * length d
unfolding pack_entries
length-pack_entries [] = refl
length-pack_entries ((name, ino) ∷ d) =
    omega
      (arith, length-append (field name) (pack_entries d), length-field name, length-pack_entries d)

readdir_raw_loaded :
    (s : OverlayFs) (dir : ℕ) (p : VInode) (d : Entries)
    → IsLoadedDir s dir p d
    → readdir_raw dir s ≡ (ok (pack_entries d), s)
unfolding the readdir_raw
readdir_raw_loaded s dir p d (at, e, isd, en) = ground (arith, at, isd, en)

list_dir_loaded :
    (s : OverlayFs) (dir : ℕ) (p : VInode) (d : Entries)
    → IsLoadedDir s dir p d
    → list_dir dir s ≡ (ok (flip_entries d), s)
unfolding the list_dir
list_dir_loaded s dir p d (at, e, isd, en) = ground (arith, at, isd, en)

-- Of a directory whose entries are in memory, whose names have at most 14 characters, none of them
-- zero, and whose numbers are between 1 and 65535, the raw bytes are 16 for each entry, and parsing
-- them as a directory of the disk gives the entries that `list_dir` lists, in their order; neither
-- operation changes anything.
pub parse_entries-readdir_raw :
    (s : OverlayFs) (dir : ℕ) (p : VInode) (d : Entries)
    → IsLoadedDir s dir p d
    → Fits d
    → (raw : Bytes) × (readdir_raw dir s ≡ (ok raw, s))
      × (length raw ≡ 16 * length d)
      × (list_dir dir s ≡ (ok (parse_entries 16 raw), s))
unfolding parse_entries
parse_entries-readdir_raw s dir p d here fits =
    let n = length-pack_entries d in
    (
      pack_entries d,
      readdir_raw_loaded s dir p d here,
      n,
      list_dir_loaded s dir p d here
          ∙ ap (λ es. (ok es, s))
              (sym
                (entries_from-pack_entries d [] (length (pack_entries d)) (omega (arith, n)) fits)),
    )
