-- ===== src/Tests/Regions.antt =====
-- Runs of allocations as lists of regions, and their theorems at a small heap.
use android_tools.Common.{ℕ, ◌≡◌, refl, arith, true, List, [], ◌∷◌, none, some, get_or, map, done}
use android_tools.Bitmap.{bitmap_set_bit, is_set}
use android_tools.Group.{reserve_blocks, ok, allocate_failed}
use android_tools.Alloc.{Groups, Region, do_allocate, allocate_from_group}
use android_tools.Tests.{pool, group_a, group_b}
use android_tools.Regions.{
  Heap, Allocation, empty_list, allocate_blocks, block_allocation_len, get_block, block_in,
  last_region, reserve_oob_blocks, advance_blocks,
}
use android_tools.Regions.Chain.{
  Chain, blocks_of, extent_of, block_allocation_len-Chain, allocate_blocks-get_block,
}
use android_tools.Extents.{Extent, write_extents}
use android_tools.Extents.Cover.{lookup, write_extents-get_block}

-- Blocks 10 and 11, and 40 to 42.
abbrev heap : Heap
heap =
    record { block = 10; len = 2; bg = 0; next = some 1; prev = none }
    ∷ record { block = 40; len = 3; bg = 1; next = none; prev = some 0 }
    ∷ []

abbrev alloc : Allocation
alloc = record {
  list = record { first = some 0; last = some 1; iter = some 0; partial_iter = 1 };
  oob_list = empty_list;
}

abbrev regions : List (ℕ × ℕ)
regions = (10, 2) ∷ (40, 3) ∷ []

held : Chain heap (some 0) regions
held = (0, _, refl, refl, refl, refl, (1, _, refl, refl, refl, refl, refl))

all_blocks : block_allocation_len 2 heap alloc ≡ done 5
all_blocks = block_allocation_len-Chain 2 heap alloc regions (omega arith) held (omega arith)

write_extents-get_block_example :
    (es : List Extent) × (end : Allocation) × (write_extents 3 4 heap
        (record alloc { list = record alloc.list { partial_iter = 0 } })
        0
      ≡ done (es, end))
    × (last_region end ≡ true)
    × (get_block 3 heap (record alloc { list = record alloc.list { partial_iter = 0 } }) 3
        ≡ done (lookup es 3))
write_extents-get_block_example =
    write_extents-get_block 3 4 heap
      (record alloc { list = record alloc.list { partial_iter = 0 } }) regions 3 (omega arith)
      (omega arith) held refl (omega arith, omega arith, (omega arith, omega arith, tt))
      (omega arith, (omega arith, tt)) (omega arith)

-- Over the end of a region the position does not move on: block 1 is asked for, and block 11 is given.
advance_blocks-lost :
    (advance_blocks 2 heap (record alloc { list = record alloc.list { partial_iter = 0 } }) 3
      ≡ done (ok, alloc))
    × (get_block 2 heap alloc 0 ≡ done 11)
unfolding advance_blocks get_block block_in
advance_blocks-lost = (refl, refl)

-- A request for just the first region takes the second one instead, and leaves the position.
reserve_oob_blocks-boundary :
    reserve_oob_blocks 4 heap (record alloc { list = record alloc.list { partial_iter = 0 } }) 2
    ≡ done (
      ok,
      record { block = 10; len = 2; bg = 0; next = none; prev = none }
          ∷ record { block = 40; len = 3; bg = 1; next = none; prev = none }
          ∷ [],
      record {
        list = record { first = some 0; last = some 0; iter = some 0; partial_iter = 0 };
        oob_list = record { first = some 1; last = some 1; iter = some 1; partial_iter = 0 };
      },
    )
unfolding reserve_oob_blocks
reserve_oob_blocks-boundary = refl

abbrev left : Groups
left =
    record group_a {
      block_bitmap = 0xFF ∷ 1 ∷ 0 ∷ 0 ∷ [];
      data_blocks_used = 2;
      free_blocks = 7;
      first_free_block = 9;
    }
    ∷ group_b
    ∷ []

abbrev region : Region
region = record { block = 7; len = 2; bg = 0 }

allocated_region : do_allocate true 3 2 pool ≡ done (some (region ∷ []), left)
unfolding do_allocate allocate_from_group reserve_blocks bitmap_set_bit is_set
allocated_region = refl

allocate_blocks-get_block_example :
    (made : Allocation) × (h : Heap) × (allocate_blocks true 3 heap 2 pool
      ≡ done (some made, h, left))
    × (get_block 1 h made 1
        ≡ done (get_or (blocks_of (map extent_of (region ∷ []))) 1 allocate_failed))
allocate_blocks-get_block_example =
    allocate_blocks-get_block true 3 heap 2 pool left region [] 1 allocated_region (omega arith, tt)
      (omega arith)
