-- ===== src/MinixFs/Format.antt =====
-- The on-disk records of minixfs.py: the superblock and the inodes, with the tests on a mode.
use minixfs.Prelude.{
  ℕ, zero, suc, ◌+◌, ◌/◌, ◌%◌, Bool, ◌||◌, List, [], ◌∷◌, ◌==◌, if◌then◌else◌, get_or, Bytes,
  u16_at, u32_at, Result, ok, err,
}

abbrev pub block_size : ℕ
block_size = 1024

abbrev pub inode_size : ℕ
inode_size = 32

abbrev pub inodes_per_block : ℕ
inodes_per_block = block_size / inode_size

abbrev pub zones_per_block : ℕ
zones_per_block = block_size / 2

abbrev pub minix_magic_14 : ℕ
minix_magic_14 = 0x137F

abbrev pub minix_magic_30 : ℕ
minix_magic_30 = 0x138F

abbrev pub root_inode : ℕ
root_inode = 1

-- The places where the file raises `MinixError`, by its message, and Python's `IndexError` for a
-- bitmap that is too short.
pub data MinixError : Type 0 where
  bad_magic : ℕ → MinixError
  bad_zone_size : MinixError
  no_filesystem : MinixError
  inode_out_of_range : ℕ → MinixError
  zone_out_of_range : ℕ → MinixError
  block_out_of_range : ℕ → MinixError
  not_readable : ℕ → MinixError
  not_a_directory : ℕ → MinixError
  lookup_in_file : List ℕ → MinixError
  no_such_path : List ℕ → MinixError
  index_error : ℕ → MinixError

pub record SuperBlock : Type 0 where
  pub ninodes : ℕ
  pub nzones : ℕ
  pub imap_blocks : ℕ
  pub zmap_blocks : ℕ
  pub firstdatazone : ℕ
  pub log_zone_size : ℕ
  pub max_size : ℕ
  pub magic : ℕ

abbrev pub is_magic : ℕ → Bool
is_magic m = m == minix_magic_14 || m == minix_magic_30

-- `SuperBlock.parse`, with the fields of the format `<HHHHHHIH`.
unfoldable pub parse_superblock : Bytes → Result MinixError SuperBlock
parse_superblock raw =
    let sb : SuperBlock = record {
      ninodes = u16_at raw 0;
      nzones = u16_at raw 2;
      imap_blocks = u16_at raw 4;
      zmap_blocks = u16_at raw 6;
      firstdatazone = u16_at raw 8;
      log_zone_size = u16_at raw 10;
      max_size = u32_at raw 12;
      magic = u16_at raw 16;
    } in
    if is_magic sb.magic
    then (if sb.log_zone_size == 0 then ok sb else err bad_zone_size)
    else err (bad_magic sb.magic)

abbrev pub name_len : SuperBlock → ℕ
name_len sb = if sb.magic == minix_magic_14 then 14 else 30

abbrev pub dirent_size : SuperBlock → ℕ
dirent_size sb = 2 + name_len sb

abbrev pub inode_table_block : SuperBlock → ℕ
inode_table_block sb = 2 + sb.imap_blocks + sb.zmap_blocks

pub record Inode : Type 0 where
  pub num : ℕ
  pub mode : ℕ
  pub uid : ℕ
  pub size : ℕ
  pub mtime : ℕ
  pub gid : ℕ
  pub nlinks : ℕ
  pub zones : List ℕ

-- `n` little-endian 16-bit words from an offset on.
unfoldable pub words_at : Bytes → ℕ → ℕ → List ℕ
words_at raw off zero = []
words_at raw off (suc n) = u16_at raw off ∷ words_at raw (off + 2) n

-- `Inode.parse`, with the fields of the format `<HHIIBB9H`.
unfoldable pub parse_inode : ℕ → Bytes → Inode
unfolding words_at
parse_inode num raw = record {
  num = num;
  mode = u16_at raw 0;
  uid = u16_at raw 2;
  size = u32_at raw 4;
  mtime = u32_at raw 8;
  gid = get_or raw 12 0;
  nlinks = get_or raw 13 0;
  zones = words_at raw 14 9;
}

-- `S_IFMT(mode)`, shifted down by twelve bits.
abbrev pub file_type : ℕ → ℕ
file_type mode = mode / 4096 % 16

abbrev pub is_dir : ℕ → Bool
is_dir mode = file_type mode == 4

abbrev pub is_regular : ℕ → Bool
is_regular mode = file_type mode == 8

abbrev pub is_chardev : ℕ → Bool
is_chardev mode = file_type mode == 2

abbrev pub is_blockdev : ℕ → Bool
is_blockdev mode = file_type mode == 6

abbrev pub is_device : ℕ → Bool
is_device mode = is_chardev mode || is_blockdev mode

abbrev pub is_fifo : ℕ → Bool
is_fifo mode = file_type mode == 1

abbrev pub is_symlink : ℕ → Bool
is_symlink mode = file_type mode == 10

-- `devno`: the major and the minor number that the first zone of a device holds.
unfoldable pub devno : Inode → ℕ × ℕ
devno inode = (get_or inode.zones 0 0 / 256, get_or inode.zones 0 0 % 256)
