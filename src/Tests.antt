-- ===== src/Tests.antt =====
-- Runs on small inputs, and the theorems at inputs where their hypotheses hold.
mod Output
mod Regions
mod Contents
mod Resize
mod Links
use android_tools.Common.{
  ℕ, zero, suc, ◌+◌, ◌-◌, ◌*◌, ◌^◌, ◌≤◌, ◌<◌, ◌≡◌, ◌≢◌, ◌⊎◌, inl, inr, refl, arith, Bool, true,
  false, not, ◌&&◌, List, [], ◌∷◌, ◌++◌, none, some, ltb, leb, bit_xor, all_below, all_below_sound,
  length, set, IsBytes, done, exited, out_of_fuel, ◌>>◌, error,
}
use android_tools.Crc.{crc32_tab, all_ones, crc_step, crc_loop, sparse_crc32}
use android_tools.Crc.Laws.{crc_bits, sparse_crc32-eq-bits, sparse_crc32-append}
use android_tools.Bitmap.{bit_at, is_set}
use android_tools.Bitmap.Marks.{Free, Marks}
use android_tools.Fs.{
  FsInfo, FsAuxInfo, last_header_size, u32, sparse_super, is_power_of, is_power_loop,
  bg_has_super_block, create_fs_aux_info, first_aux_info, drop_last_group, compute_journal_blocks,
}
use android_tools.Fs.Super.{IsPower, Decides, is_power_of-Decides, bg_has_super_block-Decides}
use android_tools.Fs.Geometry.{
  HasRoom, journal_blocks_bounds, create_fs_aux_info-HasRoom, small_blocks_lose_group,
}
use android_tools.Group.{BlockGroupInfo, ok, failed, reserve_blocks, free_blocks}
use android_tools.Group.Walk.{Fits}
use android_tools.Group.Blocks.{
  IsGroup, reserved, reserve_blocks-Free, reserve_blocks-taken, reserve_blocks-IsGroup,
}
use android_tools.Group.Release.{released, free_blocks-IsGroup, free_blocks-reserve_blocks}
use android_tools.Group.Init.{fresh_bg, init_bg, block_allocator_init}
use android_tools.Group.Init.Room.{InRange, Kept, init_bg-IsGroup}
use android_tools.Alloc.{
  Groups, allocate_from_group, allocate_contiguous_blocks, allocate_partial, multiple_loop,
  do_allocate,
}
use android_tools.Alloc.Pool.{IsPool, total_free}
use android_tools.Totals.{GroupDesc, Totals, AreDescribed, update_free, update_free_lem}
use android_tools.Alloc.{allocate_block}
use android_tools.Common.{◌>>=◌}
use android_tools.Alloc.Single.{as_block, allocate_block-eq-contiguous}
use android_tools.Alloc.Take.{
  Taken, Search, allocate_from_group-Taken, allocate_contiguous_blocks-Search,
}
use android_tools.Alloc.Spread.{unused, HasSpace, Partial, allocate_partial-Partial}
use android_tools.Alloc.Total.{Spread, do_allocate-Spread}
use android_tools.Alloc.Hang.{Stuck, multiple_loop-hangs}
use android_tools.Inode.{reserve_inodes, allocate_inode, inode_place}
use android_tools.Inode.Reserve.{IsInodes, numbered, reserve_inodes-IsInodes}
use android_tools.Inode.Fresh.{AreInodes, Numbered, allocate_inode-Numbered, inode_place_lem}
use android_tools.Start.{block_allocator_init-IsPool}
use android_tools.Queue.{memory, file, Queue, queue_data}
use android_tools.Queue.Chain.{Entry}
use android_tools.Queue.Checked.{Checked, for_each_data_block-Checked}
use android_tools.Common.{map}
use android_tools.Queue.{for_each_data_block, call}
use android_tools.Queue.Order.{insert_entry, Holds}
use android_tools.Queue.Add.{queue_data-Holds}

-- The check value of CRC-32, on the digits 1 to 9.
abbrev digits : List ℕ
digits = 49 ∷ 50 ∷ 51 ∷ 52 ∷ 53 ∷ 54 ∷ 55 ∷ 56 ∷ 57 ∷ []

digits-IsBytes : IsBytes digits
digits-IsBytes = omega arith

sparse_crc32-digits : sparse_crc32 0 digits ≡ 0xcbf43926
unfolding sparse_crc32 crc_loop crc_step crc32_tab
sparse_crc32-digits = refl

sparse_crc32-eq-bits_example :
    sparse_crc32 0 digits ≡ bit_xor (crc_bits (bit_xor 0 all_ones) digits) all_ones
sparse_crc32-eq-bits_example = sparse_crc32-eq-bits 0 digits digits-IsBytes

sparse_crc32-append_example :
    sparse_crc32 (sparse_crc32 0 digits) (48 ∷ []) ≡ sparse_crc32 0 (digits ++ (48 ∷ []))
sparse_crc32-append_example = sparse_crc32-append 0 digits (48 ∷ [])

-- A filesystem of 40 blocks in groups of 16.
abbrev info : FsInfo
info = record {
  len = 160;
  block_size = 4;
  blocks_per_group = 16;
  inodes_per_group = 8;
  inode_size = 4;
  inodes = 24;
  journal_blocks = 0;
  feat_ro_compat = sparse_super;
  feat_compat = 0;
  feat_incompat = 0;
  no_journal = 1;
}

abbrev aux : FsAuxInfo
aux = record {
  first_data_block = 0;
  len_blocks = 40;
  inode_table_blocks = 2;
  groups = 3;
  bg_desc_blocks = 1;
  bg_desc_reserve_blocks = 1;
  default_i_flags = 0;
  blocks_per_ind = 1;
  blocks_per_dind = 1;
  blocks_per_tind = 1;
}

-- Group 0 has 7 blocks and 2 inodes in use; group 1 ends after 13 blocks.
abbrev group_a : BlockGroupInfo
group_a = record {
  first_block = 0;
  header_blocks = 7;
  data_blocks_used = 0;
  has_superblock = true;
  block_bitmap = 0x7F ∷ 0 ∷ 0 ∷ 0 ∷ [];
  inode_bitmap = 3 ∷ 0 ∷ 0 ∷ 0 ∷ [];
  inode_table = none;
  free_blocks = 9;
  first_free_block = 7;
  free_inodes = 6;
  first_free_inode = 3;
  used_dirs = 0;
}

abbrev group_b : BlockGroupInfo
group_b = record group_a {
  first_block = 16;
  block_bitmap = 0x7F ∷ 0xE0 ∷ 0 ∷ 0 ∷ [];
  free_blocks = 6;
}

abbrev pool : Groups
pool = group_a ∷ group_b ∷ []

abbrev same : Bool → Bool → Bool
same true b = b
same false b = not b

same_sound : (a b : Bool) → same a b ≡ true → a ≡ b
same_sound true true e = refl
same_sound true false e = cc
same_sound false true e = cc
same_sound false false e = refl

group_a-bits : (k : ℕ) → k < 16 → bit_at group_a.block_bitmap k ≡ not (leb 7 k && ltb k 16)
unfolding all_below bit_at is_set
group_a-bits k h = same_sound _ _ (
    all_below_sound 16 (λ k. same (bit_at group_a.block_bitmap k) (not (leb 7 k && ltb k 16))) k
      refl h)

group_b-bits : (k : ℕ) → k < 16 → bit_at group_b.block_bitmap k ≡ not (leb 7 k && ltb k 13)
unfolding all_below bit_at is_set
group_b-bits k h = same_sound _ _ (
    all_below_sound 16 (λ k. same (bit_at group_b.block_bitmap k) (not (leb 7 k && ltb k 13))) k
      refl h)

group_a-IsGroup : IsGroup 16 group_a
group_a-IsGroup = record {
  bytes = omega arith;
  covered = omega arith;
  room = omega arith;
  small = omega arith;
  bits = group_a-bits;
}

group_b-IsGroup : IsGroup 16 group_b
group_b-IsGroup = record {
  bytes = omega arith;
  covered = omega arith;
  room = omega arith;
  small = omega arith;
  bits = group_b-bits;
}

pool-IsPool : IsPool 16 pool
pool-IsPool = ((group_a-IsGroup, omega arith), ((group_b-IsGroup, omega arith), tt))

pool-HasSpace : HasSpace pool
pool-HasSpace = ((λ e. omega arith), ((λ e. omega arith), tt))

pool-unused : unused pool < 3
unfolding unused
pool-unused = omega arith

do_allocate-Spread_example : Spread 16 pool 12 [] (do_allocate true 3 12 pool)
do_allocate-Spread_example =
    do_allocate-Spread 16 true 3 12 pool pool-unused pool-HasSpace pool-IsPool

allocate_contiguous_blocks-Search_example :
    Search 16 pool 8 0 (allocate_contiguous_blocks true 8 pool)
allocate_contiguous_blocks-Search_example =
    allocate_contiguous_blocks-Search 16 true 8 pool pool-IsPool

allocate_partial-Partial_example : Partial 16 pool 12 0 (allocate_partial true 12 pool)
allocate_partial-Partial_example = allocate_partial-Partial 16 true 12 pool pool-IsPool

allocate_from_group-Taken_example :
    (block : ℕ) × (bgs' : Groups) × (allocate_from_group true pool 5 1 ≡ done (block, bgs'))
    × Taken 16 pool 5 1 block bgs'
allocate_from_group-Taken_example =
    allocate_from_group-Taken 16 true pool 5 1 pool-IsPool refl (omega arith)

-- A group that its header fills.
abbrev group_full : BlockGroupInfo
group_full = record group_a {
  block_bitmap = 0xFF ∷ 0xFF ∷ 0 ∷ 0 ∷ [];
  first_free_block = 16;
  free_blocks = 0;
}

group_full-bits : (k : ℕ) → k < 16 → bit_at group_full.block_bitmap k ≡ not (leb 16 k && ltb k 16)
unfolding all_below bit_at is_set
group_full-bits k h = same_sound _ _ (
    all_below_sound 16 (λ k. same (bit_at group_full.block_bitmap k) (not (leb 16 k && ltb k 16))) k
      refl h)

group_full-Stuck : Stuck 0 (group_full ∷ [])
group_full-Stuck = record {
  here = group_full;
  at = refl;
  idle = refl;
  empty = refl;
  before = λ j bg lt. absurd (omega arith);
}

group_full-IsPool : IsPool 16 (group_full ∷ [])
group_full-IsPool = (
  (
    record {
      bytes = omega arith;
      covered = omega arith;
      room = omega arith;
      small = omega arith;
      bits = group_full-bits;
    },
    omega arith,
  ),
  tt,
)

multiple_loop-hangs_example : multiple_loop true 100 1 [] (group_full ∷ []) ≡ out_of_fuel
multiple_loop-hangs_example =
    multiple_loop-hangs 16 true 0 100 1 [] (group_full ∷ []) group_full-Stuck (omega arith)
      group_full-IsPool

reserve_blocks-IsGroup_example :
    (bitmap : List ℕ) × (reserve_blocks false group_a 7 9 ≡ done (ok, reserved group_a 7 9 bitmap))
    × IsGroup 16 (reserved group_a 7 9 bitmap)
    × Marks group_a.block_bitmap bitmap 7 9
reserve_blocks-IsGroup_example = reserve_blocks-IsGroup 16 false group_a-IsGroup 9 (omega arith)

group_b-Fits : Fits true 4 0 9 group_b.block_bitmap
group_b-Fits = record {
  bytes = omega arith;
  upto = omega arith;
  inside = omega arith;
  small = omega arith;
  num_small = omega arith;
}

group_b-Free : Free group_b.block_bitmap 9 4
group_b-Free k lo hi = ground (arith, group_b-bits k)

-- four blocks of group 1 that are not its first free ones
reserve_blocks-Free_example :
    (bitmap : List ℕ) × Marks group_b.block_bitmap bitmap 9 4
    × (reserve_blocks true group_b 9 4 ≡ done (ok, reserved group_b 9 4 bitmap))
reserve_blocks-Free_example =
    reserve_blocks-Free true group_b 9 4 group_b-Fits (omega arith) group_b-Free

group_b-Fits_past : Fits true 4 0 11 group_b.block_bitmap
group_b-Fits_past = record {
  bytes = omega arith;
  upto = omega arith;
  inside = omega arith;
  small = omega arith;
  num_small = omega arith;
}

-- the last two of these four are past the end of the group
reserve_blocks-taken_example :
    (bitmap : List ℕ) × (reserve_blocks true group_b 11 4
      ≡ (error true >> done (failed, record group_b { block_bitmap = bitmap })))
reserve_blocks-taken_example =
    reserve_blocks-taken true group_b 11 4 14 group_b-Fits_past (omega arith) (omega arith)
      (omega arith) (group_b-bits 14 (omega arith))

free_blocks-IsGroup_example :
    (bitmap : List ℕ) × (free_blocks group_a 3 ≡ done (released group_a 3 bitmap))
    × IsGroup 16 (released group_a 3 bitmap)
free_blocks-IsGroup_example = free_blocks-IsGroup 16 group_a-IsGroup 3 (omega arith)

free_blocks-reserve_blocks_example :
    (taken : BlockGroupInfo) × (back : BlockGroupInfo) × (reserve_blocks true group_a 7 9
      ≡ done (ok, taken))
    × (free_blocks taken 9 ≡ done back)
    × (back.free_blocks ≡ 9)
    × (back.first_free_block ≡ 7)
    × ((k : ℕ) → k < 16 → bit_at back.block_bitmap k ≡ bit_at group_a.block_bitmap k)
free_blocks-reserve_blocks_example =
    free_blocks-reserve_blocks 16 true group_a-IsGroup 9 (omega arith)

-- Group 2, which the filesystem ends inside of; groups 0 and 1, which hold a superblock.
group_2-InRange : InRange info aux 2 false
group_2-InRange = record {
  covered = omega arith;
  small = omega arith;
  header = omega arith;
  begins = omega arith;
  ends = omega arith;
  len_small = omega arith;
}

super-InRange : (i : ℕ) → i < 2 → InRange info aux i true
super-InRange i h = record {
  covered = omega arith;
  small = omega arith;
  header = omega arith;
  begins = omega arith;
  ends = omega arith;
  len_small = omega arith;
}

super_2 : bg_has_super_block info 2 ≡ done false
unfolding bg_has_super_block is_power_of is_power_loop
super_2 = refl

super_0 : bg_has_super_block info 0 ≡ done true
unfolding bg_has_super_block
super_0 = refl

super_1 : bg_has_super_block info 1 ≡ done true
unfolding bg_has_super_block
super_1 = refl

init_bg-IsGroup_example :
    (bg : BlockGroupInfo) × (block : ℕ) × (init_bg true info aux 2 ≡ done (bg, block))
    × IsGroup 16 bg
    × (bg.free_blocks ≡ 4)
    × Kept (fresh_bg info aux 2 false) bg
init_bg-IsGroup_example = init_bg-IsGroup true info aux 2 false group_2-InRange super_2

all_ready :
    (j : ℕ)
    → 0 ≤ j
    → j < 0 + 3
    → (b : Bool) × (bg_has_super_block info j ≡ done b) × InRange info aux j b
all_ready zero lo hi = (true, super_0, super-InRange 0 (omega arith))
all_ready (suc zero) lo hi = (true, super_1, super-InRange 1 (omega arith))
all_ready (suc (suc zero)) lo hi = (false, super_2, group_2-InRange)
all_ready (suc (suc (suc j))) lo hi = absurd (omega arith)

block_allocator_init-IsPool_example :
    (bgs : Groups) × (block_allocator_init true info aux ≡ done bgs)
    × (length bgs ≡ 3)
    × IsPool 16 bgs
    × AreInodes 8 bgs
block_allocator_init-IsPool_example =
    block_allocator_init-IsPool true info aux (omega arith) (omega arith) all_ready

inode_bits : (k : ℕ) → k < 8 → bit_at (3 ∷ 0 ∷ 0 ∷ 0 ∷ []) k ≡ ltb (k + 1) 3
unfolding all_below bit_at is_set
inode_bits k h =
    same_sound _ _
      (all_below_sound 8 (λ k. same (bit_at (3 ∷ 0 ∷ 0 ∷ 0 ∷ []) k) (ltb (k + 1) 3)) k refl h)

group_a-IsInodes : IsInodes 8 group_a
group_a-IsInodes = record {
  bytes = omega arith;
  covered = omega arith;
  from_one = omega arith;
  count = refl;
  small = omega arith;
  bits = inode_bits;
}

pub one-AreInodes : AreInodes 8 (group_a ∷ [])
one-AreInodes zero g at = rw (some_injective at) at group_a-IsInodes
  where
    some_injective : some group_a ≡ some g → group_a ≡ g
    some_injective e = cc
one-AreInodes (suc i) g at = cc

reserve_inodes-IsInodes_example :
    (bitmap : List ℕ) × (reserve_inodes pool 0 4 ≡ done (3, set pool 0 (numbered group_a 4 bitmap)))
    × Marks group_a.inode_bitmap bitmap 2 4
    × IsInodes 8 (numbered group_a 4 bitmap)
reserve_inodes-IsInodes_example =
    reserve_inodes-IsInodes 8 pool 0 4 refl group_a-IsInodes (omega arith)

allocate_inode-Numbered_example : Numbered 8 (group_a ∷ []) 0 (allocate_inode info (group_a ∷ []))
allocate_inode-Numbered_example =
    allocate_inode-Numbered info (group_a ∷ []) one-AreInodes (omega arith)

-- Inode 19 is the third one of group 2.
inode_place_lem_example : inode_place info 19 ≡ done (2, 8)
inode_place_lem_example =
    inode_place_lem info 2 3 (omega arith) (omega arith) (omega arith) (omega arith)

-- A queue that holds blocks 2 and 9, the last one added first.
abbrev pub queue : Queue
queue = record {
  heap =
      record { block = 9; len = 4; source = memory 100; next = none }
      ∷ record { block = 2; len = 8; source = file (97 ∷ []) 0; next = some 0 }
      ∷ [];
  data_blocks = some 1;
  last_used = some 0;
}

abbrev pub queued : List Entry
queued = (2, 8, file (97 ∷ []) 0) ∷ (9, 4, memory 100) ∷ []

pub queue-Holds : Holds queue queued
queue-Holds = record {
  addresses = 1 ∷ 0 ∷ [];
  valid = record {
    chain = (refl, _, refl, ((λ e. omega arith), tt), (refl, _, refl, tt, refl));
    sorted = ((omega arith, tt), (tt, tt));
    last = inr (0, refl, inr (inl refl));
  };
  view = refl;
}

queue_data-Holds_example :
    (q' : Queue) × (queue_data 2 queue (memory 7) 4 5 ≡ done q')
    × Holds q' (insert_entry (5, 4, memory 7) queued)
queue_data-Holds_example = queue_data-Holds 2 queue (memory 7) 4 5 queued queue-Holds (omega arith)

abbrev power : ℕ
power = 125

is_power_of-Decides_example : Decides (is_power_of power 5) ((power < 2 ^ 31) × IsPower power 5)
is_power_of-Decides_example = is_power_of-Decides power 5 (omega arith) (omega arith)

-- 3 to the power 20 is negative as an `int`.
is_power_of-negative : is_power_of (3 ^ 20) 3 ≡ done false
unfolding is_power_of
is_power_of-negative = refl

-- 1 is a power of 3, of exponent 0, and is not taken for one.
is_power_of-one : is_power_of 1 3 ≡ done false
unfolding is_power_of is_power_loop
is_power_of-one = refl

is_sparse : info.feat_ro_compat ≢ 0
is_sparse e = omega arith

abbrev group_49 : ℕ
group_49 = 49

bg_has_super_block-Decides_example : Decides (bg_has_super_block info 49) (
    (group_49 ≡ 0)
    ⊎ ((group_49 ≡ 1) ⊎ ((group_49 < 2 ^ 31) × (IsPower 49 3 ⊎ (IsPower 49 5 ⊎ IsPower 49 7)))))
bg_has_super_block-Decides_example = bg_has_super_block-Decides info 49 is_sparse

-- blocks of 4096 bytes, in groups of 32768
abbrev info_4096 : FsInfo
info_4096 = record info {
  len = 100000 * 4096;
  block_size = 4096;
  blocks_per_group = 32768;
  inodes_per_group = 8192;
  inode_size = 256;
}

create_fs_aux_info-HasRoom_example :
    (has_super : Bool) × (a : FsAuxInfo) × (bg_has_super_block info_4096
        (u32 ((first_aux_info info_4096).groups + 2 ^ 32 - 1))
      ≡ done has_super)
    × (create_fs_aux_info info_4096 ≡ done a)
    × HasRoom info_4096 has_super a
create_fs_aux_info-HasRoom_example =
    create_fs_aux_info-HasRoom info_4096 (omega arith) (omega arith) (omega arith) is_sparse

-- blocks of 1024 bytes, one more of them than two groups hold
abbrev info_1024 : FsInfo
info_1024 = record info {
  len = 16385 * 1024;
  block_size = 1024;
  blocks_per_group = 8192;
  inodes_per_group = 2048;
  inode_size = 256;
}

large_headers : (has_super : Bool) → 2 ≤ last_header_size (first_aux_info info_1024) has_super
unfolding first_aux_info
large_headers true = omega arith
large_headers false = omega arith

small_blocks_lose_group_example :
    (a : FsAuxInfo) × (create_fs_aux_info info_1024 ≡ done a)
    × (a.groups ≡ 1)
    × (a.len_blocks ≡ 2 * 8192)
small_blocks_lose_group_example =
    small_blocks_lose_group info_1024 1 is_sparse (omega arith) (omega arith) (omega arith) refl
      (omega arith) large_headers

for_each_data_block-Checked_example :
    Checked false 4 0 queued (for_each_data_block false info 2 queue)
for_each_data_block-Checked_example =
    for_each_data_block-Checked false info 2 queue queued (omega arith) (omega arith) queue-Holds
      (omega arith)
      ((omega arith, omega arith, omega arith), ((omega arith, omega arith, omega arith), tt))

-- A queue with blocks 2 and 3, and something else for block `b`.
abbrev shared_block : ℕ → Queue
shared_block b = record {
  heap =
      record { block = 2; len = 8; source = memory 100; next = some 1 }
      ∷ record { block = b; len = 4; source = memory 200; next = none }
      ∷ [];
  data_blocks = some 0;
  last_used = some 1;
}

-- Two entries that share one block are not reported; two of which one holds the other are.
one_shared_block :
    for_each_data_block false info 2 (shared_block 3)
    ≡ done (call 8 (memory 100) 8 ∷ call 12 (memory 200) 4 ∷ [])
unfolding for_each_data_block
one_shared_block = refl

two_at_block_2 : for_each_data_block false info 2 (shared_block 2) ≡ exited
unfolding for_each_data_block
two_at_block_2 = refl

allocate_block-eq-contiguous_example :
    allocate_block true pool ≡ (allocate_contiguous_blocks true 1 pool >>= as_block)
allocate_block-eq-contiguous_example = allocate_block-eq-contiguous true pool

abbrev descs : List GroupDesc
descs =
    record { free_blocks_count = 0; free_inodes_count = 0; used_dirs_count = 0 }
    ∷ record { free_blocks_count = 0; free_inodes_count = 0; used_dirs_count = 5 }
    ∷ []

abbrev no_totals : Totals
no_totals = record { free_blocks = 0; free_inodes = 0 }

pool-total : 0 + total_free pool < 2 ^ 32
unfolding total_free
pool-total = omega arith

update_free_lem_example :
    (new : List GroupDesc) × (update_free no_totals descs pool
      ≡ done (record { free_blocks = 0 + total_free pool; free_inodes = 12 }, new))
    × AreDescribed descs pool new
update_free_lem_example = update_free_lem no_totals descs pool refl pool-total (omega arith)
