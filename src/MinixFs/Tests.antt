-- ===== src/MinixFs/Tests.antt =====
-- A small image for minixfs.py: a root directory with one file, whose second block is a hole.
use minixfs.Prelude.{
  ℕ, ◌-◌, ◌*◌, ◌≡◌, refl, none, some, [], ◌∷◌, ◌++◌, Bytes, zeros, length, ltb, get_or,
  if◌then◌else◌, u16_bytes, u32_bytes, arith, ok, err, ◌>>=◌, slice, List,
}
use minixfs.MinixFs.Format.{
  SuperBlock, Inode, parse_superblock, parse_inode, block_out_of_range, not_readable,
}
use minixfs.MinixFs.Partition.{find_minix_partition_offset, has_magic}
use minixfs.MinixFs.Disk.{
  MinixFs, open_fs, read_block_at, read_block, get_inode, root, count_bitmap,
}
use minixfs.MinixFs.Bitmap.{set_bits, count_bitmap-eq-set_bits}
use minixfs.MinixFs.Files.{zone_at, readable, read_file}
use minixfs.MinixFs.Files.Zones.{zone_table, zone_at-eq-zone_table}
use minixfs.MinixFs.Files.Content.{read_end}
use minixfs.MinixFs.Files.Spec.{content, read_file_lem}
use minixfs.MinixFs.Dir.{read_dir, resolve, find_entry, dir_lookup}
use minixfs.MinixFs.Dir.Paths.{resolve-append}

abbrev pad : Bytes → Bytes
pad b = b ++ zeros (1024 - length b)

abbrev words : List ℕ → Bytes
words [] = []
words (w ∷ ws) = u16_bytes w ++ words ws

abbrev inode_bytes : ℕ → ℕ → List ℕ → Bytes
inode_bytes mode size zones =
    words (mode ∷ 0 ∷ [])
    ++ (u32_bytes size ++ (u32_bytes 0 ++ (0 ∷ 1 ∷ (words zones ++ zeros (18 - 2 * length zones)))))

abbrev entry_bytes : ℕ → Bytes → Bytes
entry_bytes ino name = u16_bytes ino ++ (name ++ zeros (14 - length name))

-- Blocks: boot, superblock, inode map, zone map, inodes, the directory, the file.
image : Bytes
image =
    pad []
    ++ (pad (words (16 ∷ 9 ∷ 1 ∷ 1 ∷ 5 ∷ 0 ∷ 0 ∷ 0 ∷ 0x137F ∷ []))
        ++ (pad (7 ∷ [])
            ++ (pad (7 ∷ [])
                ++ (pad (inode_bytes 0x41ED 48 (5 ∷ []) ++ inode_bytes 0x81A4 2000 (6 ∷ []))
                    ++ (pad (
                          entry_bytes 1 (b'.' ∷ [])
                          ++ (entry_bytes 1 (b'.' ∷ b'.' ∷ []) ++ entry_bytes 2 (b'a' ∷ [])))
                        ++ pad (72 ∷ 105 ∷ []))))))

abbrev super : SuperBlock
super = record {
  ninodes = 16;
  nzones = 9;
  imap_blocks = 1;
  zmap_blocks = 1;
  firstdatazone = 5;
  log_zone_size = 0;
  max_size = 0;
  magic = 0x137F;
}

abbrev disk : MinixFs
disk = record { image = image; offset = 0; sb = super }

abbrev dir : Inode
dir = record {
  num = 1;
  mode = 0x41ED;
  uid = 0;
  size = 48;
  mtime = 0;
  gid = 0;
  nlinks = 1;
  zones = 5 ∷ 0 ∷ 0 ∷ 0 ∷ 0 ∷ 0 ∷ 0 ∷ 0 ∷ 0 ∷ [];
}

abbrev file : Inode
file = record dir {
  num = 2;
  mode = 0x81A4;
  size = 2000;
  zones = 6 ∷ 0 ∷ 0 ∷ 0 ∷ 0 ∷ 0 ∷ 0 ∷ 0 ∷ 0 ∷ [];
}

opens : open_fs image none ≡ ok disk
unfolding image open_fs find_minix_partition_offset has_magic parse_superblock read_block_at
opens = refl

has_root : get_inode disk 1 ≡ ok dir
unfolding image get_inode parse_inode read_block read_block_at
has_root = refl

lists_root : read_dir disk dir ≡ ok ((1, b'.' ∷ []) ∷ (1, b'.' ∷ b'.' ∷ []) ∷ (2, b'a' ∷ []) ∷ [])
unfolding image read_dir read_file zone_at read_block read_block_at
lists_root = refl

finds_file : resolve disk (b'/' ∷ b'a' ∷ []) none ≡ ok file
unfolding image resolve root dir_lookup find_entry get_inode parse_inode read_dir read_file zone_at
    read_block read_block_at
finds_file = refl

-- The last byte of the first block, and the first of the hole.
reads_across : read_file disk file 0 (some 3) ≡ ok (72 ∷ 105 ∷ 0 ∷ [])
unfolding image read_file zone_at read_block read_block_at
reads_across = refl

zone_at-eq-zone_table_example : zone_at disk file 8 ≡ (
    if ltb 8 262663
    then ok (get_or (zone_table disk file) 8 0)
    else err (block_out_of_range (8 - 519)))
zone_at-eq-zone_table_example = zone_at-eq-zone_table disk file refl 8

read_file_lem_example : read_file disk file 1 (some 1500) ≡ (
    if readable file.mode
    then ok (slice (content disk file) 1 (read_end file 1 (some 1500)))
    else err (not_readable 2))
read_file_lem_example = read_file_lem disk file 1 (some 1500) (refl, omega arith)

resolve-append_example :
    resolve disk ((b'.' ∷ []) ++ b'/' ∷ (b'a' ∷ [])) (some dir)
    ≡ (do m ← resolve disk (b'.' ∷ []) (some dir); resolve disk (b'a' ∷ []) (some m))
resolve-append_example = resolve-append disk (b'.' ∷ []) (b'a' ∷ []) dir (λ h. cc) refl

count_bitmap-eq-set_bits_example : count_bitmap disk 2 1 16 ≡ ok (set_bits disk 2 1 16)
count_bitmap-eq-set_bits_example = count_bitmap-eq-set_bits disk 2 1 16 (omega arith)

two_inodes_used : count_bitmap disk 2 1 16 ≡ ok 2
unfolding image count_bitmap read_block read_block_at
two_inodes_used = refl
