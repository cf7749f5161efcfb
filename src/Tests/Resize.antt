-- ===== src/Tests/Resize.antt =====
-- Runs of the inode for resizing, and its theorems at a small allocation.
use android_tools.Common.{
  ℕ, zero, suc, Bool, ltb, map, replicate, ◌≡◌, ◌<◌, refl, arith, true, List, [], ◌∷◌, none, some,
  get_or, done,
}
use android_tools.Fs.{FsInfo, FsAuxInfo, bg_has_super_block, is_power_of, is_power_loop}
use android_tools.Inode.{get_inode, inode_place, allocate_bg_inode_table}
use android_tools.Bitmap.{bitmap_set_bit, is_set}
use android_tools.Group.{BlockGroupInfo, reserve_blocks}
use android_tools.Alloc.{Groups, Region, do_allocate, allocate_from_group}
use android_tools.Tests.{pool, group_a, group_b}
use android_tools.Tests.Contents.{empty_queue, empty-Holds}
use android_tools.Regions.{Heap, Allocation, empty_list}
use android_tools.Extents.{State}
use android_tools.Resize.{
  ResizeData, ResizeInode, resize_ino, inode_attach_resize, create_resize_inode,
}
use android_tools.Resize.Reserved.{IsSized, IsReserved, Attached}
use android_tools.Resize.Built.{regions_from}
use android_tools.Resize.Created.{start_of, with_table, create_resize_inode-Attached}
use android_tools.Resize.Rows.{leap, inode_attach_resize-repeats}

abbrev info : FsInfo
info = record {
  len = 640;
  block_size = 16;
  blocks_per_group = 16;
  inodes_per_group = 8;
  inode_size = 4;
  inodes = 24;
  journal_blocks = 0;
  feat_ro_compat = 1;
  feat_compat = 0;
  feat_incompat = 0;
  no_journal = 1;
}

-- Three reserved blocks in each of two groups, behind one block of descriptors.
abbrev aux : FsAuxInfo
aux = record {
  first_data_block = 0;
  len_blocks = 40;
  inode_table_blocks = 2;
  groups = 3;
  bg_desc_blocks = 1;
  bg_desc_reserve_blocks = 3;
  default_i_flags = 0;
  blocks_per_ind = 4;
  blocks_per_dind = 16;
  blocks_per_tind = 64;
}

abbrev heap : Heap
heap =
    record { block = 2; len = 3; bg = 0; next = some 1; prev = none }
    ∷ record { block = 18; len = 3; bg = 1; next = none; prev = some 0 }
    ∷ []

abbrev alloc : Allocation
alloc = record {
  list = record { first = some 0; last = some 1; iter = some 0; partial_iter = 0 };
  oob_list = empty_list;
}

abbrev starts : List ℕ
starts = 2 ∷ 18 ∷ []

sized : IsSized info aux starts
sized = record {
  numbers = omega arith;
  some_super = omega arith;
  few_supers = omega arith;
  total = omega arith;
  some_blocks = omega arith;
  few_blocks = omega arith;
  words = refl;
  small = omega arith;
}

reserved : IsReserved info aux heap alloc starts
reserved = record {
  chain = (0, _, refl, refl, refl, refl, (1, _, refl, refl, refl, refl, refl));
  at_first = refl;
  at_start = refl;
  no_oob = refl;
  sized = sized;
}

abbrev left : Groups
left =
    record group_a {
      block_bitmap = 0xFF ∷ 0 ∷ 0 ∷ 0 ∷ [];
      data_blocks_used = 1;
      free_blocks = 8;
      first_free_block = 8;
    }
    ∷ group_b
    ∷ []

abbrev region : Region
region = record { block = 7; len = 1; bg = 0 }

one_block : do_allocate true 3 1 pool ≡ done (some (region ∷ []), left)
unfolding do_allocate allocate_from_group reserve_blocks bitmap_set_bit is_set
one_block = refl

abbrev state : State
state = record { heap = heap; bgs = pool; queue = empty_queue }

-- The same as the tool would do it: group 0 gets its inode table first.
abbrev supers : ℕ → Bool
supers i = ltb i 2

known : (j : ℕ) → j < 3 → bg_has_super_block info j ≡ done (supers j)
unfolding bg_has_super_block is_power_of is_power_loop
known zero h = refl
known (suc zero) h = refl
known (suc (suc zero)) h = refl
known (suc (suc (suc j))) h = absurd (omega arith)

abbrev with_inodes : BlockGroupInfo → BlockGroupInfo
with_inodes bg = record bg { inode_table = some (replicate 32 0) }

abbrev found_pool : Groups
found_pool = with_inodes group_a ∷ group_b ∷ []

found : get_inode info aux resize_ino pool ≡ done ((0, 24), found_pool, some (7, 32))
unfolding get_inode inode_place allocate_bg_inode_table
found = refl

abbrev used_pool : Groups
used_pool =
    record (with_inodes group_a) {
      block_bitmap = 0xFF ∷ 0 ∷ 0 ∷ 0 ∷ [];
      data_blocks_used = 1;
      free_blocks = 8;
      first_free_block = 8;
    }
    ∷ group_b
    ∷ []

block_given : do_allocate true 3 1 found_pool ≡ done (some (region ∷ []), used_pool)
unfolding do_allocate allocate_from_group reserve_blocks bitmap_set_bit is_set
block_given = refl

abbrev first_state : State
first_state = record { heap = []; bgs = pool; queue = empty_queue }

create_resize_inode-Attached_example :
    (r : ResizeInode × State) × (create_resize_inode true info aux 3 first_state 300 100 200
      ≡ done r)
    × (r.0.place ≡ (0, 24))
    × Attached info aux
        (map start_of (regions_from info aux supers 0 3))
        region
        100
        200
        (with_table info aux 300 (some (7, 32)) [])
        (done (r.0.content, r.1))
create_resize_inode-Attached_example =
    create_resize_inode-Attached info aux true 3 first_state supers 300 100 200 (0, 24) found_pool
      used_pool (some (7, 32)) region [] known sized (omega arith) found block_given (omega arith)
      (omega arith) empty-Holds (omega arith)

inode_attach_resize-repeats_example :
    (d : ResizeData) × (st : State) × (inode_attach_resize true info aux 3 state alloc 100 200
      ≡ done (d, st))
    × (0 < leap aux)
    × (leap aux < 3)
    × (get_or d.dind_block_data 0 0 ≡ get_or d.dind_block_data (leap aux) 0)
inode_attach_resize-repeats_example =
    inode_attach_resize-repeats info aux reserved 3 (omega arith) true state region left 100 200 []
      refl one_block (omega arith) (omega arith) empty-Holds (omega arith) (omega arith)
      (omega arith)
