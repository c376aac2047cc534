-- ===== src/MinixFs/Files/Spec.antt =====
-- `read_file` of minixfs.py against the content of a file as one string of bytes.
use minixfs.Prelude.{
  ℕ, zero, suc, ◌+◌, ◌≤◌, ◌≡◌, refl, ap, ◌∙◌, false, Option, List, [], ◌∷◌, ◌++◌, if◌then◌else◌,
  Bool-cases, inl, inr, length, get_or, Bytes, slice, ok, err, arith,
}
use minixfs.MinixFs.Format.{Inode, not_readable}
use minixfs.MinixFs.Disk.{MinixFs, read_block}
use minixfs.MinixFs.Files.{blocks_from, iter_blocks, nblocks, readable, read_file}
use minixfs.MinixFs.Files.Zones.{zone_table, zone_at-eq-zone_table}
use minixfs.MinixFs.Files.Content.{join, read_end, read_file-eq-slice}

-- The blocks of the zones that the table of a file names, from block `i` on, `n` of them.
content_from : MinixFs → Inode → ℕ → ℕ → Bytes
content_from fs inode i zero = []
content_from fs inode i (suc n) =
    read_block fs (get_or (zone_table fs inode) i 0) ++ content_from fs inode (i + 1) n

pub content : MinixFs → Inode → Bytes
content fs inode = content_from fs inode 0 (nblocks inode.size)

-- What `read_file` reads is bounded by what its zones can address.
abbrev pub Addressable : Inode → Type 0
Addressable inode = (length inode.zones ≡ 9) × (nblocks inode.size ≤ 262663)

blocks_from_all :
    (fs : MinixFs) (inode : Inode) (i n : ℕ)
    → length inode.zones ≡ 9
    → i + n ≤ 262663
    → (bs : List Bytes) × (blocks_from fs inode i n ≡ ok bs) × (join bs ≡ content_from fs inode i n)
unfolding blocks_from content_from
blocks_from_all fs inode i zero nine h = ([], refl, refl)
blocks_from_all fs inode i (suc n) nine h =
    let (bs, e, f) = blocks_from_all fs inode (i + 1) n nine (omega arith) in
    (
      read_block fs (get_or (zone_table fs inode) i 0) ∷ bs,
      ground (arith, e, zone_at-eq-zone_table fs inode nine i),
      ap (λ t. read_block fs (get_or (zone_table fs inode) i 0) ++ t) f,
    )

read_file_refused :
    (fs : MinixFs) (inode : Inode) (offset : ℕ) (len : Option ℕ)
    → readable inode.mode ≡ false
    → read_file fs inode offset len ≡ err (not_readable inode.num)
unfolding read_file
read_file_refused fs inode offset len r = ground (arith, r)

-- Of a directory, a regular file or a symbolic link whose size its zones can address, `read_file`
-- returns the bytes of the content from the offset to the end of the file, or to the length asked
-- for; of any other inode it raises.
pub read_file_lem :
    (fs : MinixFs) (inode : Inode) (offset : ℕ) (len : Option ℕ)
    → Addressable inode
    → read_file fs inode offset len ≡ (
        if readable inode.mode
        then ok (slice (content fs inode) offset (read_end inode offset len))
        else err (not_readable inode.num))
unfolding content
read_file_lem fs inode offset len (nine, small) = elim (Bool-cases (readable inode.mode)) [
  | inr r ↦ rw r (read_file_refused fs inode offset len r)
  | inl r ↦
      let (bs, e, f) = blocks_from_all fs inode 0 (nblocks inode.size) nine (omega arith) in
      rw r (
        read_file-eq-slice fs inode offset len bs r (unfold iter_blocks in e)
        ∙ ap (λ t. ok (slice t offset (read_end inode offset len))) f)
]
