-- ===== src/MinixFs/Files/Content.antt =====
-- `read_file` of minixfs.py returns a slice of the blocks of the file, put end to end.
use minixfs.Prelude.{
  ℕ, zero, suc, ◌+◌, ◌-◌, ◌*◌, ◌/◌, ◌≤◌, ◌<◌, ◌≡◌, refl, sym, ap, ap₂, ◌∙◌, inl, inr, true, Option,
  none, some, List, [], ◌∷◌, ◌++◌, ◌==◌, min, length, take, drop, drop_all, take-nil, Bytes, slice,
  zeros, ok, arith, lt-cases, Result-cases, length-append, slice-append, length-slice, length-zeros,
  Bool-cases,
}
use mathlib.Core.List.{append_assoc}
use minixfs.MinixFs.Format.{Inode}
use minixfs.MinixFs.Disk.{MinixFs, read_block, read_block_at}
use minixfs.MinixFs.Files.{
  zone_at, blocks_from, iter_blocks, nblocks, read_loop, readable, read_file,
}

-- `b"".join(blocks)`
abbrev pub join : List Bytes → Bytes
join [] = []
join (b ∷ bs) = b ++ join bs

slice_empty : (xs : Bytes) (a b : ℕ) → b ≤ a → slice xs a b ≡ []
slice_empty xs a b h = ap (λ k. take k (drop a xs)) {x = b - a} {y = 0} (omega arith)

sub_shift : (x pos n : ℕ) → n ≡ 1024 → x - pos - n ≡ x - (pos + 1024)
sub_shift x pos n h = omega arith

-- The end of what `read_file` reads; with no length it is the end of the file.
abbrev pub read_end : Inode → ℕ → Option ℕ → ℕ
read_end inode offset none = inode.size
read_end inode offset (some n) = min inode.size (offset + n)

module _ (fs : MinixFs) where
  pub length-read_block : (z : ℕ) → length (read_block fs z) ≡ 1024
  unfolding read_block read_block_at
  length-read_block z = elim (Bool-cases (z == 0)) [
    | inl e ↦ ground (arith, length-zeros 1024)
    | inr e ↦
        let p : ℕ = fs.offset + z * 1024 in
        let raw : Bytes = slice fs.image p (p + 1024) in
        ground (
          arith,
          length-slice fs.image p (p + 1024),
          length-append raw (zeros (1024 - length raw)),
          length-zeros (1024 - length raw),
        )
  ]

  -- The first of the remaining blocks, and the others.
  record FirstBlock (inode : Inode) (i n : ℕ) (bs : List Bytes) : Type 0 where
    zone : ℕ
    rest : List Bytes
    zone_is : zone_at fs inode i ≡ ok zone
    rest_is : blocks_from fs inode (i + 1) n ≡ ok rest
    whole : bs ≡ read_block fs zone ∷ rest

  first_block :
      (inode : Inode) (i n : ℕ) (bs : List Bytes)
      → blocks_from fs inode i (suc n) ≡ ok bs
      → FirstBlock inode i n bs
  unfolding blocks_from
  first_block inode i n bs e = elim (Result-cases (zone_at fs inode i)) [
    | inr (x, f) ↦ cc (rw f at e)
    | inl (z, f) ↦ elim (Result-cases (blocks_from fs inode (i + 1) n)) [
      | inr (x, g) ↦ cc (rw (f, g) at e)
      | inl (r, g) ↦ record {
        zone = z;
        rest = r;
        zone_is = f;
        rest_is = g;
        whole = cc (rw (f, g) at e);
      }
    ]
  ]

  module _ (inode : Inode) (offset end : ℕ) where
    -- The loop from block `i` on returns the part of the remaining blocks that lies in the range.
    read_loop-join :
        (n fuel i pos : ℕ) (bs : List Bytes)
        → pos ≡ i * 1024
        → blocks_from fs inode i n ≡ ok bs
        → end ≤ (i + n) * 1024
        → end - pos ≤ fuel
        → read_loop fs inode offset end fuel i pos ≡ ok (slice (join bs) (offset - pos) (end - pos))
    unfolding read_loop
    read_loop-join n zero i pos bs q e h f =
        ap ok (sym (slice_empty (join bs) (offset - pos) (end - pos) (omega arith)))
    read_loop-join zero (suc fuel) i pos bs q e h f =
        ground (arith, slice_empty (join bs) (offset - pos) (end - pos))
    read_loop-join (suc n) (suc fuel) i pos bs q e h f = elim (lt-cases pos end) [
      | inr p ↦ ground (arith, slice_empty (join bs) (offset - pos) (end - pos))
      | inl p ↦
          let b = first_block inode i n bs e in
          ground (
            arith,
            b.zone_is,
            ap join b.whole,
            length-read_block b.zone,
            slice-append (read_block fs b.zone) (join b.rest) (offset - pos) (end - pos),
            sub_shift offset pos (length (read_block fs b.zone)),
            sub_shift end pos (length (read_block fs b.zone)),
            read_loop-join n fuel (i + 1) (pos + 1024) b.rest (omega arith) b.rest_is (omega arith)
                (omega arith),
          )
    ]

  blocks_move :
      (inode : Inode) (i j n m : ℕ)
      → i ≡ j
      → n ≡ m
      → blocks_from fs inode i n ≡ blocks_from fs inode j m
  blocks_move inode i j n m p q = ap₂ (blocks_from fs inode) p q

  -- The blocks after the first `k`, and the bytes before them.
  record Suffix (inode : Inode) (i k n : ℕ) (bs : List Bytes) : Type 0 where
    rest : List Bytes
    rest_is : blocks_from fs inode (i + k) (n - k) ≡ ok rest
    before : Bytes
    split : join bs ≡ before ++ join rest
    before_length : length before ≡ k * 1024

  suffix :
      (inode : Inode) (i k n : ℕ) (bs : List Bytes)
      → blocks_from fs inode i n ≡ ok bs
      → k ≤ n
      → Suffix inode i k n bs
  suffix inode i zero n bs e h = record {
    rest = bs;
    rest_is = blocks_move inode (i + 0) i (n - 0) n (omega arith) (omega arith) ∙ e;
    before = [];
    split = refl;
    before_length = omega arith;
  }
  suffix inode i (suc k) zero bs e h = absurd (omega arith)
  suffix inode i (suc k) (suc n) bs e h =
      let b = first_block inode i n bs e in
      let t = suffix inode (i + 1) k n b.rest b.rest_is (omega arith) in
      record {
        rest = t.rest;
        rest_is =
            blocks_move inode (i + suc k) (i + 1 + k) (suc n - suc k) (n - k) (omega arith)
              (omega arith)
            ∙ t.rest_is;
        before = read_block fs b.zone ++ t.before;
        split =
            ap join b.whole
            ∙ ap (λ r. read_block fs b.zone ++ r) t.split
            ∙ sym (append_assoc (read_block fs b.zone) t.before (join t.rest));
        before_length = omega (
          arith,
          length-append (read_block fs b.zone) t.before,
          length-read_block b.zone,
          t.before_length,
        );
      }

  -- A slice that starts behind a prefix.
  slice_past :
      (xs ys : Bytes) (a b n : ℕ)
      → length xs ≡ n
      → n ≤ a
      → slice (xs ++ ys) a b ≡ slice ys (a - n) (b - n)
  slice_past xs ys a b n e h =
      slice-append xs ys a b
      ∙ ap (λ t. take (b - a) t ++ slice ys (a - length xs) (b - length xs))
          (drop_all a xs (omega arith))
      ∙ ap (λ t. t ++ slice ys (a - length xs) (b - length xs)) (take-nil (b - a))
      ∙ ap (λ k. slice ys (a - k) (b - k)) e

  read_range :
      (inode : Inode) (offset end : ℕ) (bs : List Bytes)
      → iter_blocks fs inode ≡ ok bs
      → offset < end
      → end ≤ inode.size
      → read_loop fs inode offset end end (offset / 1024) (offset / 1024 * 1024)
        ≡ ok (slice (join bs) offset end)
  unfolding iter_blocks
  read_range inode offset end bs e h l =
      let k : ℕ = offset / 1024 in
      let t = suffix inode 0 k (nblocks inode.size) bs e (omega arith) in
      read_loop-join inode offset end (nblocks inode.size - k) end k (k * 1024) t.rest refl
        (blocks_move inode k (0 + k) (nblocks inode.size - k) (nblocks inode.size - k) (omega arith)
            refl
          ∙ t.rest_is)
        (omega arith) (omega arith)
      ∙ ap ok (
          sym (
            ap (λ x. slice x offset end) t.split
            ∙ slice_past t.before (join t.rest) offset end (k * 1024) t.before_length
                (omega arith)))

  -- For a readable inode whose blocks can be listed, `read_file` returns the bytes of the blocks put
  -- end to end that lie from the offset to the end of the file, or to the length asked for.
  pub read_file-eq-slice :
      (inode : Inode) (offset : ℕ) (len : Option ℕ) (bs : List Bytes)
      → readable inode.mode ≡ true
      → iter_blocks fs inode ≡ ok bs
      → read_file fs inode offset len ≡ ok (slice (join bs) offset (read_end inode offset len))
  unfolding read_file
  read_file-eq-slice inode offset none bs r e = elim (lt-cases offset inode.size) [
    | inl p ↦
        let f : min inode.size (offset + (inode.size - offset)) ≡ inode.size = omega arith in
        ground (arith, r, f, read_range inode offset inode.size bs e p (omega arith))
    | inr p ↦ ground (arith, r, slice_empty (join bs) offset inode.size)
  ]
  read_file-eq-slice inode offset (some n) bs r e =
      elim (lt-cases offset (min inode.size (offset + n))) [
        | inl p ↦
            ground
              (arith, r, read_range inode offset (min inode.size (offset + n)) bs e p (omega arith))
        | inr p ↦ ground (arith, r, slice_empty (join bs) offset (min inode.size (offset + n)))
      ]
