-- ===== src/MinixFs/Disk.antt =====
-- The blocks, inodes and bitmaps of `MinixFS` in minixfs.py, over the bytes of the image file.
-- The file is read by a seek and a read, which gives the bytes that there are at that place.
use minixfs.Prelude.{
  ℕ, zero, suc, ◌+◌, ◌-◌, ◌*◌, ◌/◌, ◌%◌, ◌^◌, Bool, ◌&&◌, Option, none, some, [], ◌++◌, ltb, leb,
  ◌==◌, if◌then◌else◌, length, get_or, Bytes, slice, zeros, Result, ok, err, ◌>>=◌,
}
use minixfs.MinixFs.Format.{
  block_size, inode_size, inodes_per_block, root_inode, MinixError, index_error, inode_out_of_range,
  zone_out_of_range, SuperBlock, parse_superblock, inode_table_block, Inode, parse_inode,
}
use minixfs.MinixFs.Partition.{find_minix_partition_offset}

pub record MinixFs : Type 0 where
  pub image : Bytes
  pub offset : ℕ
  pub sb : SuperBlock

-- `read_block`, over the image and the offset alone, as the constructor calls it.
unfoldable pub read_block_at : Bytes → ℕ → ℕ → Bytes
read_block_at image offset block =
    if block == 0
    then zeros block_size
    else let pos = offset + block * block_size in
      let raw = slice image pos (pos + block_size) in
      if ltb (length raw) block_size then raw ++ zeros (block_size - length raw) else raw

unfoldable pub read_block : MinixFs → ℕ → Bytes
read_block fs block = read_block_at fs.image fs.offset block

-- `MinixFS(fp, offset)`; with no offset the partition is looked for.
unfoldable pub open_fs : Bytes → Option ℕ → Result MinixError MinixFs
open_fs image offset = do
  off ← elim offset [ none ↦ find_minix_partition_offset image | some o ↦ ok o ]
  sb ← parse_superblock (read_block_at image off 1)
  ok (record { image = image; offset = off; sb = sb })

abbrev pub valid_ino : SuperBlock → ℕ → Bool
valid_ino sb num = leb 1 num && leb num sb.ninodes

unfoldable pub get_inode : MinixFs → ℕ → Result MinixError Inode
get_inode fs num =
    if valid_ino fs.sb num
    then (let block = inode_table_block fs.sb + (num - 1) / inodes_per_block in
        let off = (num - 1) % inodes_per_block * inode_size in
        ok (parse_inode num (slice (read_block fs block) off (off + inode_size))))
    else err (inode_out_of_range num)

unfoldable pub root : MinixFs → Result MinixError Inode
root fs = get_inode fs root_inode

-- `byte & (1 << (n % 8))`, as a test.
abbrev pub bit_of : ℕ → ℕ → Bool
bit_of byte n = byte / 2 ^ (n % 8) % 2 == 1

-- The bit `bit` of the bitmap whose first block is `start`.
unfoldable pub bitmap_bit : MinixFs → ℕ → ℕ → Bool
bitmap_bit fs start bit =
    let bmap = read_block fs (start + bit / (block_size * 8)) in
    bit_of (get_or bmap (bit % (block_size * 8) / 8) 0) bit

unfoldable pub inode_allocated : MinixFs → ℕ → Result MinixError Bool
inode_allocated fs num =
    if valid_ino fs.sb num then ok (bitmap_bit fs 2 num) else err (inode_out_of_range num)

abbrev pub valid_zone : SuperBlock → ℕ → Bool
valid_zone sb zone = leb sb.firstdatazone zone && ltb zone sb.nzones

unfoldable pub zone_allocated : MinixFs → ℕ → Result MinixError Bool
zone_allocated fs zone =
    if valid_zone fs.sb zone
    then ok (bitmap_bit fs (2 + fs.sb.imap_blocks) (zone - fs.sb.firstdatazone + 1))
    else err (zone_out_of_range zone)

-- `b"".join(self.read_block(start + i) for i in range(n))`
unfoldable pub join_blocks : MinixFs → ℕ → ℕ → Bytes
join_blocks fs start zero = []
join_blocks fs start (suc n) = read_block fs start ++ join_blocks fs (start + 1) n

-- The loop of `_count_bitmap` over the bits `i`, `i + 1`, … of which `n` are left.
unfoldable pub count_bits : Bytes → ℕ → ℕ → ℕ → Result MinixError ℕ
count_bits raw i zero count = ok count
count_bits raw i (suc n) count =
    let rest =
      count_bits raw (i + 1) n (if bit_of (get_or raw (i / 8) 0) i then count + 1 else count) in
    if ltb (i / 8) (length raw) then rest else err (index_error (i / 8))

unfoldable pub count_bitmap : MinixFs → ℕ → ℕ → ℕ → Result MinixError ℕ
unfolding join_blocks count_bits
count_bitmap fs start nblocks nbits = count_bits (join_blocks fs start nblocks) 1 nbits 0

pub record FsStats : Type 0 where
  pub total_inodes : ℕ
  pub used_inodes : ℕ
  pub total_zones : ℕ
  pub used_zones : ℕ

-- Where the first data zone lies past the number of zones the source reports a negative total, and
-- this one reports zero; the count of used zones is zero in both.
unfoldable pub fs_stats : MinixFs → Result MinixError FsStats
fs_stats fs =
    let total_zones = fs.sb.nzones - fs.sb.firstdatazone in
    do
      used_inodes ← count_bitmap fs 2 fs.sb.imap_blocks fs.sb.ninodes
      used_zones ← count_bitmap fs (2 + fs.sb.imap_blocks) fs.sb.zmap_blocks total_zones
      ok (record {
        total_inodes = fs.sb.ninodes;
        used_inodes = used_inodes;
        total_zones = total_zones;
        used_zones = used_zones;
      })
