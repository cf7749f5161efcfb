-- ===== src/Group/Init/Room.antt =====
-- `init_bg` of img-db/ext4_utils/allocate.c: the header of a group, and where the group ends.
use android_tools.Common.{
  ℕ, zero, suc, ◌+◌, ◌-◌, ◌*◌, ◌/◌, ◌%◌, ◌^◌, ◌≤◌, ◌<◌, ◌≡◌, refl, ap, arith, Bool, true, false,
  List, ltb, replicate, IsBytes-replicate, length-replicate, get_or, done, ◌>>=◌, ◌∙◌, min,
}
use native.Mathlib.Decide.{dec_le}
use android_tools.Bitmap.{bit_at}
use android_tools.Bitmap.Bits.{is_set_zero}
use android_tools.Fs.{FsInfo, FsAuxInfo, u32, bg_has_super_block}
use android_tools.Group.{BlockGroupInfo, reserve_blocks}
use android_tools.Group.Walk.{Fits}
use android_tools.Group.Blocks.{
  IsGroup, reserved, too_few_blocks, reserve_blocks-Free, reserve_blocks-IsGroup,
}
use android_tools.Group.Init.{
  header_blocks, super_blocks, fresh_bg, overrun, reserve_overrun, init_bg,
}

get_or-replicate : (n i : ℕ) → get_or (replicate n 0) i 0 ≡ zero
get_or-replicate zero i = refl
get_or-replicate (suc n) zero = refl
get_or-replicate (suc n) (suc i) = get_or-replicate n i

pub bit_at-replicate : (n k : ℕ) → bit_at (replicate n 0) k ≡ false
unfolding bit_at
bit_at-replicate n k = rw (get_or-replicate n (k / 8)) (is_set_zero (k % 8) (omega arith))

-- What a group number must meet: the group's blocks and bitmap agree, its header fits before the
-- end of the filesystem, and no number of a block wraps.
pub record InRange (info : FsInfo) (aux : FsAuxInfo) (i : ℕ) (has_super : Bool) : Type 0 where
  pub covered : info.blocks_per_group ≤ 8 * info.block_size
  pub small : info.blocks_per_group < 2 ^ 32 - 8
  pub header : header_blocks aux has_super ≤ info.blocks_per_group
  pub begins :
      aux.first_data_block + i * info.blocks_per_group + header_blocks aux has_super
      ≤ aux.len_blocks
  pub ends : aux.first_data_block + i * info.blocks_per_group + info.blocks_per_group < 2 ^ 32 - 1
  pub len_small : aux.len_blocks + info.blocks_per_group < 2 ^ 32

-- what the reservations of blocks leave alone
pub record Kept (old new : BlockGroupInfo) : Type 0 where
  pub first_block : new.first_block ≡ old.first_block
  pub data_blocks_used : new.data_blocks_used ≡ old.data_blocks_used
  pub inode_bitmap : new.inode_bitmap ≡ old.inode_bitmap
  pub free_inodes : new.free_inodes ≡ old.free_inodes
  pub first_free_inode : new.first_free_inode ≡ old.first_free_inode
  pub header_blocks : new.header_blocks ≡ old.header_blocks
  pub has_superblock : new.has_superblock ≡ old.has_superblock
  pub inode_table : new.inode_table ≡ old.inode_table

Kept-refl : {bg : BlockGroupInfo} → Kept bg bg
Kept-refl = record {
  first_block = refl;
  data_blocks_used = refl;
  inode_bitmap = refl;
  free_inodes = refl;
  first_free_inode = refl;
  header_blocks = refl;
  has_superblock = refl;
  inode_table = refl;
}

module _ (force : Bool) (info : FsInfo) (aux : FsAuxInfo) (i : ℕ) (has_super : Bool)
    (v : InRange info aux i has_super) where
  abbrev first : ℕ
  first = aux.first_data_block + i * info.blocks_per_group

  fresh-IsGroup : IsGroup info.blocks_per_group (fresh_bg info aux i has_super)
  fresh-IsGroup = record {
    bytes = IsBytes-replicate info.block_size 0 (omega arith);
    covered = ground (arith, v.covered, length-replicate {A = ℕ} info.block_size 0);
    room = omega arith;
    small = v.small;
    bits = λ k h. ground (arith, bit_at-replicate info.block_size k);
  }

  module _ {bg : BlockGroupInfo} (g : IsGroup info.blocks_per_group bg)
      (at_first : bg.first_block ≡ first) where
    abbrev over : ℕ
    over = overrun info aux bg

    no_overrun : over ≡ 0 → reserve_overrun force info aux bg ≡ done bg
    no_overrun e = let test : ltb 0 over ≡ false = ground arith in rw test

    some_overrun :
        (n : ℕ)
        → over ≡ n
        → 0 < n
        → reserve_overrun force info aux bg
          ≡ (reserve_blocks force bg (u32 (info.blocks_per_group + 2 ^ 32 - n)) n >>= λ r. done r.1)
    some_overrun n e pos = let test : ltb 0 over ≡ true = ground arith in rw (test, e)

    -- Before the end of the filesystem nothing is taken: the difference is zero, or wraps to more
    -- than the group has.
    inside_stays :
        first + info.blocks_per_group ≤ aux.len_blocks → reserve_overrun force info aux bg ≡ done bg
    inside_stays inside = elim (dec_le over 0) [
      | yes none_over ↦ no_overrun (omega arith)
      | no some_over ↦
          let many : bg.free_blocks < over = omega (arith, v.len_small, v.ends, g.room, at_first) in
          some_overrun over refl (omega arith)
          ∙ ap (λ r. r >>= λ s. done s.1)
              (too_few_blocks force bg (u32 (info.blocks_per_group + 2 ^ 32 - over)) over many)
    ]

    -- Past the end, the last blocks of the group are taken.
    past_taken :
        (n : ℕ)
        → n + aux.len_blocks ≡ first + info.blocks_per_group
        → 0 < n
        → bg.first_free_block + bg.free_blocks ≡ info.blocks_per_group
        → n ≤ bg.free_blocks
        → (bitmap : List ℕ) × (reserve_overrun force info aux bg
            ≡ done (reserved bg (info.blocks_per_group - n) n bitmap))
          × IsGroup info.blocks_per_group (reserved bg (info.blocks_per_group - n) n bitmap)
    past_taken n e pos full fits_n =
        let start = info.blocks_per_group - n in
        let is_over : over ≡ n = omega (arith, v.ends, at_first) in
        let at_start : u32 (info.blocks_per_group + 2 ^ 32 - n) ≡ start = omega (arith, v.small) in
        let fits : Fits force n 0 start bg.block_bitmap = record {
          bytes = g.bytes;
          upto = omega arith;
          inside = omega (arith, g.covered);
          small = omega (arith, g.small);
          num_small = omega (arith, g.small);
        } in
        let (bitmap, m, run) =
          reserve_blocks-Free force bg start n fits fits_n (λ k lo hi. ground (arith, g.bits k)) in
        (
          bitmap,
          some_overrun n is_over pos
              ∙ ap (λ (s : ℕ). reserve_blocks force bg s n >>= λ r. done r.1) at_start
              ∙ ap (λ r. r >>= λ s. done s.1) run,
          record {
            bytes = m.bytes;
            covered = ground (arith, g.covered, m.same_length);
            room = ground (arith, g.room, g.small);
            small = g.small;
            bits = λ k below. ground (arith, g.bits k, m.bits k, g.small);
          },
        )

    kept : (bitmap : List ℕ) (n : ℕ) → Kept bg (reserved bg (info.blocks_per_group - n) n bitmap)
    kept bitmap n = record {
      first_block = refl;
      data_blocks_used = refl;
      inode_bitmap = refl;
      free_inodes = refl;
      first_free_inode = refl;
      header_blocks = refl;
      has_superblock = refl;
      inode_table = refl;
    }

    -- The rest of `init_bg` after the header: the blocks past the end are taken away.
    overrun-IsGroup :
        bg.first_free_block ≡ header_blocks aux has_super
        → bg.free_blocks ≡ info.blocks_per_group - header_blocks aux has_super
        → (bg' : BlockGroupInfo) × (reserve_overrun force info aux bg ≡ done bg')
          × IsGroup info.blocks_per_group bg'
          × (bg'.free_blocks
              ≡ min info.blocks_per_group (aux.len_blocks - first) - header_blocks aux has_super)
          × Kept bg bg'
    overrun-IsGroup at_free count = elim (dec_le (first + info.blocks_per_group) aux.len_blocks) [
      | yes inside ↦ (bg, inside_stays inside, g, omega (arith, v.begins), Kept-refl)
      | no past ↦
          let n = first + info.blocks_per_group - aux.len_blocks in
          let (bitmap, run, g') =
            past_taken n (omega arith) (omega arith) (omega (arith, v.header))
              (omega (arith, v.begins, v.header)) in
          (
            reserved bg (info.blocks_per_group - n) n bitmap,
            run,
            g',
            omega (arith, v.begins, v.header),
            kept bitmap n,
          )
    ]

  -- For a group in range, `init_bg` returns, with `force` or without: the group is well formed, its
  -- number of data blocks and its inodes are as first filled in, and free are the blocks between
  -- its header and its end, or the end of the filesystem if that comes first.
  pub init_bg-IsGroup :
      bg_has_super_block info i ≡ done has_super
      → (bg : BlockGroupInfo) × (block : ℕ) × (init_bg force info aux i ≡ done (bg, block))
        × IsGroup info.blocks_per_group bg
        × (bg.free_blocks
            ≡ min info.blocks_per_group
                (aux.len_blocks - (aux.first_data_block + i * info.blocks_per_group))
              - header_blocks aux has_super)
        × Kept (fresh_bg info aux i has_super) bg
  unfolding init_bg
  init_bg-IsGroup super =
      let fresh = fresh_bg info aux i has_super in
      let (bitmap, run, g, m) =
        reserve_blocks-IsGroup info.blocks_per_group force fresh-IsGroup
          (header_blocks aux has_super) v.header in
      let (bg', run', g', count, k) =
        overrun-IsGroup g (omega (arith, v.ends)) (omega (arith, v.header, v.small)) refl in
      (
        bg',
        u32 (fresh.first_block + super_blocks aux has_super),
        rw (super, run, run'),
        g',
        count,
        record {
          first_block = k.first_block;
          data_blocks_used = k.data_blocks_used;
          inode_bitmap = k.inode_bitmap;
          free_inodes = k.free_inodes;
          first_free_inode = k.first_free_inode;
          header_blocks = k.header_blocks;
          has_superblock = k.has_superblock;
          inode_table = k.inode_table;
        },
      )
