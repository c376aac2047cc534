-- ===== src/MinixFs/Files/Zones.antt =====
-- The map from the blocks of a file to zones, as one table, and the bound on the blocks of a file.
use minixfs.Prelude.{
  ℕ, zero, suc, ◌+◌, ◌-◌, ◌*◌, ◌/◌, ◌%◌, ◌<◌, ◌≡◌, refl, ap, ap₂, ◌∙◌, inl, inr, List, [], ◌∷◌,
  ◌++◌, ltb, if◌then◌else◌, length, get_or, take, Bytes, u16_at, ok, err, arith, lt-cases,
  length-append, length-take, get_or-append_left, get_or-append_right, get_or-take,
  get_or-replicate,
}
use minixfs.MinixFs.Format.{zones_per_block, Inode, words_at, block_out_of_range}
use minixfs.MinixFs.Disk.{MinixFs, read_block, read_block_at}
use minixfs.MinixFs.Files.{zone_at}

-- The zones that a block of zone numbers lists.
zone_words : MinixFs → ℕ → List ℕ
zone_words fs z = words_at (read_block fs z) 0 zones_per_block

concat_words : MinixFs → List ℕ → List ℕ
concat_words fs [] = []
concat_words fs (z ∷ zs) = zone_words fs z ++ concat_words fs zs

-- The zones of a file in order: seven of the inode, those of its indirect block, and those of the
-- indirect blocks that its double indirect block lists. Block 0 reads as zeros, so that a hole in
-- place of an indirect block makes its whole range a hole.
pub zone_table : MinixFs → Inode → List ℕ
zone_table fs inode =
    take 7 inode.zones
    ++ (zone_words fs (get_or inode.zones 7 0)
        ++ concat_words fs (zone_words fs (get_or inode.zones 8 0)))

length-words_at : (raw : Bytes) (off n : ℕ) → length (words_at raw off n) ≡ n
unfolding words_at
length-words_at raw off zero = refl
length-words_at raw off (suc n) = ap suc (length-words_at raw (off + 2) n)

get_or-words_at :
    (raw : Bytes) (off n i : ℕ) → i < n → get_or (words_at raw off n) i 0 ≡ u16_at raw (off + i * 2)
unfolding words_at
get_or-words_at raw off zero i h = absurd (omega arith)
get_or-words_at raw off (suc n) zero h = ap (u16_at raw) (omega arith)
get_or-words_at raw off (suc n) (suc i) h =
    get_or-words_at raw (off + 2) n i (omega arith) ∙ ap (u16_at raw) (omega arith)

module _ (fs : MinixFs) where
  length-zone_words : (z : ℕ) → length (zone_words fs z) ≡ 512
  unfolding zone_words
  length-zone_words z = length-words_at (read_block fs z) 0 zones_per_block

  get_or-zone_words :
      (z i : ℕ) → i < 512 → get_or (zone_words fs z) i 0 ≡ u16_at (read_block fs z) (i * 2)
  unfolding zone_words
  get_or-zone_words z i h =
      get_or-words_at (read_block fs z) 0 zones_per_block i h
      ∙ ap (u16_at (read_block fs z)) (omega arith)

  length-concat_words : (zs : List ℕ) → length (concat_words fs zs) ≡ 512 * length zs
  unfolding concat_words
  length-concat_words [] = refl
  length-concat_words (z ∷ zs) = omega (
    arith,
    length-append (zone_words fs z) (concat_words fs zs),
    length-zone_words z,
    length-concat_words zs,
  )

  get_or-concat_words :
      (zs : List ℕ) (i : ℕ)
      → i < 512 * length zs
      → get_or (concat_words fs zs) i 0
        ≡ u16_at (read_block fs (get_or zs (i / 512) 0)) (i % 512 * 2)
  unfolding concat_words
  get_or-concat_words [] i h = absurd (omega arith)
  get_or-concat_words (z ∷ zs) i h = elim (lt-cases i 512) [
    | inl p ↦
        get_or-append_left 0 (zone_words fs z) (concat_words fs zs) i
          (omega (arith, length-zone_words z))
        ∙ get_or-zone_words z i p
        ∙ ap₂ (λ k m. u16_at (read_block fs (get_or (z ∷ zs) k 0)) (m * 2)) {x = 0} {y = i / 512}
            (omega arith) (omega arith)
    | inr p ↦
        get_or-append_right 0 (zone_words fs z) (concat_words fs zs) i
          (omega (arith, length-zone_words z))
        ∙ ap (λ k. get_or (concat_words fs zs) k 0) {y = i - 512}
            (omega (arith, length-zone_words z))
        ∙ get_or-concat_words zs (i - 512) (omega arith)
        ∙ ap₂ (λ k m. u16_at (read_block fs (get_or (z ∷ zs) k 0)) (m * 2))
            {x = suc ((i - 512) / 512)} (omega arith) (omega arith)
  ]

  read_block-zero : (i : ℕ) → i < 512 → u16_at (read_block fs 0) (i * 2) ≡ 0
  unfolding read_block read_block_at
  read_block-zero i h = omega (
    arith,
    get_or-replicate {A = ℕ} 0 1024 0 (i * 2) (omega arith),
    get_or-replicate {A = ℕ} 0 1024 0 (i * 2 + 1) (omega arith),
  )

  module _ (inode : Inode) (nine : length inode.zones ≡ 9) where
    direct_length : length (take 7 inode.zones) ≡ 7
    direct_length = omega (arith, length-take 7 inode.zones)

    indirect : List ℕ
    indirect = zone_words fs (get_or inode.zones 7 0)

    double : List ℕ
    double = concat_words fs (zone_words fs (get_or inode.zones 8 0))

    length-double : length double ≡ 262144
    unfolding double
    length-double = omega (
      arith,
      length-concat_words (zone_words fs (get_or inode.zones 8 0)),
      length-zone_words (get_or inode.zones 8 0),
    )

    length-zone_table : length (zone_table fs inode) ≡ 262663
    unfolding zone_table indirect double
    length-zone_table = omega (
      arith,
      length-append (take 7 inode.zones) (indirect ++ double),
      length-append indirect double,
      direct_length,
      length-double,
      length-zone_words (get_or inode.zones 7 0),
    )

    entry_direct : (i : ℕ) → i < 7 → get_or (zone_table fs inode) i 0 ≡ get_or inode.zones i 0
    unfolding zone_table indirect double
    entry_direct i h =
        get_or-append_left 0 (take 7 inode.zones) (indirect ++ double) i
          (omega (arith, direct_length))
        ∙ get_or-take 0 7 inode.zones i h

    entry_past : (i : ℕ) → get_or (zone_table fs inode) (7 + i) 0 ≡ get_or (indirect ++ double) i 0
    unfolding zone_table indirect double
    entry_past i =
        get_or-append_right 0 (take 7 inode.zones) (indirect ++ double) (7 + i)
          (omega (arith, direct_length))
        ∙ ap (λ k. get_or (indirect ++ double) k 0) {y = i} (omega (arith, direct_length))

    entry_indirect :
        (i : ℕ)
        → i < 512
        → get_or (zone_table fs inode) (7 + i) 0
          ≡ u16_at (read_block fs (get_or inode.zones 7 0)) (i * 2)
    unfolding indirect
    entry_indirect i h =
        entry_past i
        ∙ get_or-append_left 0 indirect double i
            (omega (arith, length-zone_words (get_or inode.zones 7 0)))
        ∙ get_or-zone_words (get_or inode.zones 7 0) i h

    entry_double :
        (i : ℕ)
        → i < 262144
        → get_or (zone_table fs inode) (7 + (512 + i)) 0
          ≡ u16_at
              (read_block fs (u16_at (read_block fs (get_or inode.zones 8 0)) (i / 512 * 2)))
              (i % 512 * 2)
    unfolding indirect double
    entry_double i h =
        entry_past (512 + i)
        ∙ get_or-append_right 0 indirect double (512 + i)
            (omega (arith, length-zone_words (get_or inode.zones 7 0)))
        ∙ ap (λ k. get_or double k 0) {y = i}
            (omega (arith, length-zone_words (get_or inode.zones 7 0)))
        ∙ get_or-concat_words (zone_words fs (get_or inode.zones 8 0)) i
            (omega (arith, length-zone_words (get_or inode.zones 8 0)))
        ∙ ap (λ k. u16_at (read_block fs k) (i % 512 * 2))
            (get_or-zone_words (get_or inode.zones 8 0) (i / 512) (omega arith))

    -- Below 7 + 512 + 512 * 512 blocks `zone_at` is the entry of the table, holes in place of
    -- indirect blocks included; from that bound on it raises.
    pub zone_at-eq-zone_table :
        (i : ℕ)
        → zone_at fs inode i ≡ (
            if ltb i 262663
            then ok (get_or (zone_table fs inode) i 0)
            else err (block_out_of_range (i - 519)))
    unfolding zone_at
    zone_at-eq-zone_table i = elim (lt-cases i 7) [
      | inl p ↦ ground (arith, entry_direct i p)
      | inr p ↦ elim (lt-cases i 519) [
        | inl q ↦
            let e : 7 + (i - 7) ≡ i = omega arith in
            ground (
              arith,
              entry_indirect (i - 7) (omega arith),
              e,
              read_block-zero (i - 7) (omega arith),
            )
        | inr q ↦ elim (lt-cases i 262663) [
          | inl r ↦
              let e : 7 + (512 + (i - 7 - 512)) ≡ i = omega arith in
              let k : ℕ = i - 7 - 512 in
              ground (
                arith,
                entry_double k (omega arith),
                e,
                read_block-zero (k / 512) (omega arith),
                read_block-zero (k % 512) (omega arith),
              )
          | inr r ↦ ground arith
        ]
      ]
    ]
