-- ===== src/Group.antt =====
-- The block groups of img-db/ext4_utils/allocate.c: their state, and the blocks of one group.
pub mod Walk
pub mod Reserve
pub mod Blocks
pub mod Release
pub mod Init
use android_tools.Common.{
  ℕ, zero, suc, ◌+◌, ◌-◌, ◌*◌, ◌/◌, ◌%◌, ◌^◌, Bool, true, false, not, ◌&&◌, List, Option, none,
  some, ◌==◌, ltb, leb, if◌then◌else◌, get_elem?, set, bit_or, bit_and, Run, done, fault,
  out_of_fuel, ◌>>=◌, ◌>>◌, error,
}
use android_tools.Bitmap.{bitmap_set_bit, bitmap_set_8_bits, bitmap_clear_bit}

-- `struct block_group_info`. The two bitmaps are the halves of its buffer `bitmaps`.
pub record BlockGroupInfo : Type 0 where
  pub first_block : ℕ
  pub header_blocks : ℕ
  pub data_blocks_used : ℕ
  pub has_superblock : Bool
  pub block_bitmap : List ℕ
  pub inode_bitmap : List ℕ
  pub inode_table : Option (List ℕ)
  pub free_blocks : ℕ
  pub first_free_block : ℕ
  pub free_inodes : ℕ
  pub first_free_inode : ℕ
  pub used_dirs : ℕ

-- The results 0 and -1 of the functions that may fail.
pub data Status : Type 0 where
  ok failed : Status

-- EXT4_ALLOCATE_FAILED, `(u32)(~0)`
abbrev pub allocate_failed : ℕ
allocate_failed = 2 ^ 32 - 1

-- How a loop of `reserve_blocks` ends: at its test, with the values of `i`, `block` and the bitmap,
-- or by `return -1`.
pub data Progress : Type 0 where
  next : ℕ → ℕ → List ℕ → Progress
  taken : List ℕ → Progress

module _ (force : Bool) (num : ℕ) where
  -- the `error` and the `return -1` of a round, or the next round
  abbrev pub after_set : ℕ × List ℕ → (List ℕ → Run Progress) → Run Progress
  after_set (was, bitmap) round = elim (was == 0) [
    | true ↦ round bitmap
    | false ↦ error force >> done (taken bitmap)
  ]

  -- `for (; i < num && …; i++, block++)` of `reserve_blocks`, the first loop with the test
  -- `block % 8 != 0` and the last with none.
  unfoldable pub reserve_bits : (ℕ → Bool) → ℕ → ℕ → ℕ → List ℕ → Run Progress
  reserve_bits more zero i block bitmap = out_of_fuel
  reserve_bits more (suc fuel) i block bitmap = elim (ltb i num && more block) [
    | false ↦ done (next i block bitmap)
    | true ↦ bitmap_set_bit bitmap block >>= λ set.
        after_set set (reserve_bits more fuel ((i + 1) % 2 ^ 32) ((block + 1) % 2 ^ 32))
  ]

  -- `for (; i + 8 <= (num & ~7); i += 8, block += 8)`
  unfoldable pub reserve_bytes : ℕ → ℕ → ℕ → List ℕ → Run Progress
  reserve_bytes zero i block bitmap = out_of_fuel
  reserve_bytes (suc fuel) i block bitmap = elim (leb ((i + 8) % 2 ^ 32) (num / 8 * 8)) [
    | false ↦ done (next i block bitmap)
    | true ↦ bitmap_set_8_bits bitmap block >>= λ set.
        after_set set (reserve_bytes fuel ((i + 8) % 2 ^ 32) ((block + 8) % 2 ^ 32))
  ]

-- what follows a loop, unless it returned -1
abbrev pub and_then : Run Progress → (ℕ → ℕ → List ℕ → Run Progress) → Run Progress
and_then r k = r >>= λ p. elim p [
  | taken bitmap ↦ done (taken bitmap)
  | next i block bitmap ↦ k i block bitmap
]

-- The three loops of `reserve_blocks`; each is given more rounds than `num`.
unfoldable pub reserve_loops : Bool → ℕ → ℕ → List ℕ → Run Progress
unfolding reserve_bits reserve_bytes
reserve_loops force num start bitmap =
    and_then (reserve_bits force num (λ block. not (block % 8 == 0)) (suc num) 0 start bitmap)
      λ i block b.
        and_then (reserve_bytes force num (suc num) i block b)
          λ i block b. reserve_bits force num (λ _. true) (suc num) i block b

-- the end of `reserve_blocks`, after its loops
abbrev pub reserve_end : BlockGroupInfo → ℕ → ℕ → Progress → Run (Status × BlockGroupInfo)
reserve_end bg start num (taken bitmap) = done (failed, record bg { block_bitmap = bitmap })
reserve_end bg start num (next i block bitmap) = done (
  ok,
  record bg {
    block_bitmap = bitmap;
    free_blocks = bg.free_blocks - num;
    first_free_block =
        if start == bg.first_free_block then (start + num) % 2 ^ 32 else bg.first_free_block;
  },
)

unfoldable pub reserve_blocks : Bool → BlockGroupInfo → ℕ → ℕ → Run (Status × BlockGroupInfo)
unfolding reserve_loops
reserve_blocks force bg start num =
    if ltb bg.free_blocks num
    then done (failed, bg)
    else (reserve_loops force num start bg.block_bitmap >>= reserve_end bg start num)

-- The loop of `free_blocks`: `i` counts up to `num_blocks` and `block` goes down.
unfoldable pub clear_blocks : ℕ → ℕ → List ℕ → Run (List ℕ)
clear_blocks zero block bitmap = done bitmap
clear_blocks (suc left) block bitmap =
    bitmap_clear_bit bitmap block >>= clear_blocks left ((block + 2 ^ 32 - 1) % 2 ^ 32)

unfoldable pub free_blocks : BlockGroupInfo → ℕ → Run BlockGroupInfo
unfolding clear_blocks
free_blocks bg num_blocks =
    clear_blocks num_blocks ((bg.first_free_block + 2 ^ 32 - 1) % 2 ^ 32) bg.block_bitmap
    >>= λ bitmap. done (record bg {
      block_bitmap = bitmap;
      free_blocks = (bg.free_blocks + num_blocks) % 2 ^ 32;
      first_free_block = (bg.first_free_block + 2 ^ 32 - num_blocks) % 2 ^ 32;
    })
