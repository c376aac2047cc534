-- ===== src/MinixFs/Files.antt =====
-- The zones of a file and the reading of its content, in minixfs.py.
pub mod Zones
pub mod Content
pub mod Spec
use minixfs.Prelude.{
  ℕ, zero, suc, ◌+◌, ◌-◌, ◌*◌, ◌/◌, ◌%◌, min, Bool, true, false, ◌||◌, Option, none, some, List, [],
  ◌∷◌, ◌++◌, ltb, leb, ◌==◌, if◌then◌else◌, get_or, Bytes, slice, u16_at, Result, ok, err, ◌>>=◌,
}
use minixfs.MinixFs.Format.{
  block_size, zones_per_block, MinixError, block_out_of_range, not_readable, Inode, is_dir,
  is_regular, is_symlink,
}
use minixfs.MinixFs.Disk.{MinixFs, read_block}

-- The zone of block `index` of a file; 0 is a hole.
unfoldable pub zone_at : MinixFs → Inode → ℕ → Result MinixError ℕ
zone_at fs inode index =
    if ltb index 7
    then ok (get_or inode.zones index 0)
    else let index1 = index - 7 in
      if ltb index1 zones_per_block
      then (let ind = get_or inode.zones 7 0 in
          if ind == 0 then ok 0 else ok (u16_at (read_block fs ind) (index1 * 2)))
      else let index2 = index1 - zones_per_block in
        if ltb index2 (zones_per_block * zones_per_block)
        then (let dbl = get_or inode.zones 8 0 in
            let ind = u16_at (read_block fs dbl) (index2 / zones_per_block * 2) in
            if dbl == 0
            then ok 0
            else if ind == 0
            then ok 0
            else ok (u16_at (read_block fs ind) (index2 % zones_per_block * 2)))
        else err (block_out_of_range index2)

-- `iter_blocks`, from block `i` on, of which `n` are left. The generator raises at the first block
-- that has no zone.
unfoldable pub blocks_from : MinixFs → Inode → ℕ → ℕ → Result MinixError (List Bytes)
blocks_from fs inode i zero = ok []
blocks_from fs inode i (suc n) =
    let rest = blocks_from fs inode (i + 1) n in
    do zone ← zone_at fs inode i; more ← rest; ok (read_block fs zone ∷ more)

abbrev pub nblocks : ℕ → ℕ
nblocks size = (size + block_size - 1) / block_size

unfoldable pub iter_blocks : MinixFs → Inode → Result MinixError (List Bytes)
iter_blocks fs inode = blocks_from fs inode 0 (nblocks inode.size)

-- The loop of `read_file`, from `pos`, a multiple of the block size, to `end`. Each round reads a
-- block, and the fuel bounds the rounds.
unfoldable pub read_loop : MinixFs → Inode → ℕ → ℕ → ℕ → ℕ → ℕ → Result MinixError Bytes
read_loop fs inode offset end zero block pos = ok []
read_loop fs inode offset end (suc fuel) block pos =
    let rest = read_loop fs inode offset end fuel (block + 1) (pos + block_size) in
    if ltb pos end
    then (do
      zone ← zone_at fs inode block
      more ← rest
      ok (slice (read_block fs zone) (offset - pos) (end - pos) ++ more))
    else ok []

abbrev pub readable : ℕ → Bool
readable mode = is_dir mode || (is_regular mode || is_symlink mode)

-- `read_file`; with no length it reads to the end of the file.
unfoldable pub read_file : MinixFs → Inode → ℕ → Option ℕ → Result MinixError Bytes
unfolding read_loop
read_file fs inode offset length =
    let wanted : ℕ = elim length [ none ↦ inode.size - offset | some n ↦ n ] in
    let end = min inode.size (offset + wanted) in
    let block = offset / block_size in
    let loop = read_loop fs inode offset end end block (block * block_size) in
    if readable inode.mode
    then (if leb end offset then ok [] else loop)
    else err (not_readable inode.num)
