-- ===== src/MinixFs/Partition.antt =====
-- `find_minix_partition_offset` of minixfs.py: the place of the file system in the image.
use minixfs.Prelude.{
  ℕ, zero, suc, ◌+◌, ◌*◌, Bool, false, ◌&&◌, ◌||◌, not, List, [], ◌∷◌, ltb, ◌==◌, if◌then◌else◌,
  length, get_or, Bytes, slice, u16_at, u32_at, Result, ok, err,
}
use minixfs.MinixFs.Format.{block_size, is_magic, MinixError, no_filesystem}

abbrev pub sector_size : ℕ
sector_size = 512

abbrev mbr_part_table_offset : ℕ
mbr_part_table_offset = 0x1BE

abbrev mbr_signature_offset : ℕ
mbr_signature_offset = 0x1FE

unfoldable pub has_magic : Bytes → ℕ → Bool
has_magic image offset =
    let raw = slice image (offset + block_size) (offset + block_size + block_size) in
    if ltb (length raw) 18 then false else is_magic (u16_at raw 16)

-- A candidate: its rank, 0 for an old Minix partition type, and its first sector.
abbrev pub Candidate : Type 0
Candidate = ℕ × ℕ

-- Python's order on pairs, as a test that the first comes no later.
abbrev pub before : Candidate → Candidate → Bool
before (p, a) (q, b) = ltb p q || (p == q && not (ltb b a))

insert_candidate : Candidate → List Candidate → List Candidate
insert_candidate c [] = c ∷ []
insert_candidate c (d ∷ ds) = if before c d then c ∷ d ∷ ds else d ∷ insert_candidate c ds

unfoldable pub sort_candidates : List Candidate → List Candidate
unfolding insert_candidate
sort_candidates [] = []
sort_candidates (c ∷ cs) = insert_candidate c (sort_candidates cs)

-- The entries of the partition table from number `i` on, of which `n` are left.
unfoldable pub candidates_from : Bytes → ℕ → ℕ → List Candidate
candidates_from mbr i zero = []
candidates_from mbr i (suc n) =
    let entry = slice mbr (mbr_part_table_offset + i * 16) (mbr_part_table_offset + (i + 1) * 16) in
    let ptype = get_or entry 4 0 in
    let start_lba = u32_at entry 8 in
    let rest = candidates_from mbr (i + 1) n in
    if not (ptype == 0) && not (start_lba == 0)
    then ((if ptype == 0x80 || ptype == 0x81 then 0 else 1), start_lba) ∷ rest
    else rest

unfoldable pub first_with_magic : Bytes → List Candidate → Result MinixError ℕ
first_with_magic image [] = err no_filesystem
first_with_magic image ((_, start_lba) ∷ cs) =
    if has_magic image (start_lba * sector_size)
    then ok (start_lba * sector_size)
    else first_with_magic image cs

unfoldable pub find_minix_partition_offset : Bytes → Result MinixError ℕ
unfolding candidates_from sort_candidates first_with_magic
find_minix_partition_offset image =
    let mbr = slice image 0 sector_size in
    if has_magic image 0
    then ok 0
    else if length mbr == sector_size
        && (get_or mbr mbr_signature_offset 0 == 0x55
            && get_or mbr (mbr_signature_offset + 1) 0 == 0xAA)
    then first_with_magic image (sort_candidates (candidates_from mbr 0 4))
    else err no_filesystem
