-- ===== src/Extents.antt =====
-- Extents of inodes, img-db/ext4_utils/extent.c: the regions of an allocation are written into the
-- inode, or into a block of their own, and what they are to hold is put into the queue.
pub mod Cover
use android_tools.Common.{
  ℕ, zero, suc, ◌+◌, ◌-◌, ◌*◌, ◌/◌, ◌%◌, ◌^◌, Bool, true, false, List, [], ◌∷◌, Option, none, some,
  ◌==◌, ltb, leb, min, if◌then◌else◌, bit_or, Run, done, fault, out_of_fuel, ◌>>=◌, ◌>>◌, error,
}
use android_tools.Fs.{FsInfo, u32, u64, div_round_up}
use android_tools.Group.{Status}
use android_tools.Alloc.{Groups}
use android_tools.Queue.{Queue, queue_data_block, queue_data_file}
use android_tools.Regions.{
  Heap, Allocation, allocate_blocks, block_allocation_num_regions, reduce_allocation,
  reserve_oob_blocks, get_oob_block, get_region, get_next_region, last_region, rewind_alloc,
}

-- `struct ext4_extent` and `struct ext4_extent_header`
pub record Extent : Type 0 where
  pub ee_block : ℕ
  pub ee_len : ℕ
  pub ee_start_hi : ℕ
  pub ee_start_lo : ℕ

pub record ExtentHeader : Type 0 where
  pub eh_magic : ℕ
  pub eh_entries : ℕ
  pub eh_max : ℕ
  pub eh_depth : ℕ
  pub eh_generation : ℕ

-- EXT4_EXT_MAGIC and EXT4_EXTENTS_FL; the sizes of the two structures
abbrev pub ext_magic : ℕ
ext_magic = 0xf30a

abbrev pub extents_flag : ℕ
extents_flag = 0x00080000

abbrev pub extent_size : ℕ
extent_size = 12

-- What is written into `i_block`, and into the block of extents, if there is one: the headers, the
-- block that the one index points at, and the extents.
pub record ExtentTree : Type 0 where
  pub root : ExtentHeader
  pub leaf : Option (ℕ × ExtentHeader)
  pub extents : List Extent

-- The fields of `struct ext4_inode` that are set.
pub record InodeData : Type 0 where
  pub i_flags : ℕ
  pub i_size_lo : ℕ
  pub i_size_high : ℕ
  pub i_blocks_lo : ℕ
  pub l_i_blocks_high : ℕ
  pub i_block : ExtentTree

-- What the functions change: the nodes of regions, the block groups and the queue.
pub record State : Type 0 where
  pub heap : Heap
  pub bgs : Groups
  pub queue : Queue

-- The loop over the regions; `room` is how many extents fit the place that they are written to.
unfoldable pub write_extents : ℕ → ℕ → Heap → Allocation → ℕ → Run (List Extent × Allocation)
unfolding last_region get_region get_next_region
write_extents zero room h alloc file_block = out_of_fuel
write_extents (suc fuel) room h alloc file_block = elim (last_region alloc) [
  | true ↦ done ([], alloc)
  | false ↦ get_region h alloc >>= λ region. elim (room == 0) [
    | true ↦ fault
    | false ↦ get_next_region h alloc >>= λ next.
        write_extents fuel (room - 1) h next (u32 (file_block + region.1)) >>= λ rest. done (
          record {
            ee_block = file_block;
            ee_len = region.1 % 2 ^ 16;
            ee_start_hi = 0;
            ee_start_lo = region.0;
          }
              ∷ rest.0,
          rest.1,
        )
  ]
]

module _ (force : Bool) (info : FsInfo) (fuel : ℕ) where
  -- `extent_create_backing`, with `ptr` the address of the buffer and fuel for its loop
  unfoldable pub extent_create_backing : ℕ → Heap → Allocation → Queue → ℕ → ℕ → Run Queue
  unfolding get_region get_next_region
  extent_create_backing zero h alloc q ptr backing_len = out_of_fuel
  extent_create_backing (suc rounds) h alloc q ptr backing_len = elim (backing_len == 0) [
    | true ↦ done q
    | false ↦ get_region h alloc >>= λ region.
        let len = u32 (min (u32 (region.1 * info.block_size)) backing_len) in
        queue_data_block fuel q ptr len region.0 >>= λ q. get_next_region h alloc >>= λ next.
        extent_create_backing rounds h next q (ptr + len) (backing_len - len)
  ]

  unfoldable pub extent_create_backing_file :
      ℕ → Heap → Allocation → Queue → List ℕ → ℕ → ℕ → Run Queue
  unfolding get_region get_next_region
  extent_create_backing_file zero h alloc q filename offset backing_len = out_of_fuel
  extent_create_backing_file (suc rounds) h alloc q filename offset backing_len =
      elim (backing_len == 0) [
        | true ↦ done q
        | false ↦ get_region h alloc >>= λ region.
            let len = u32 (min (u32 (region.1 * info.block_size)) backing_len) in
            queue_data_file fuel q filename offset len region.0 >>= λ q.
            get_next_region h alloc >>= λ next.
            extent_create_backing_file rounds h next q filename (offset + len) (backing_len - len)
      ]

  -- where the extents go: their place, the first block of a block for them or 0, and what is left to do
  pub record Place : Type 0 where
    pub state : State
    pub alloc : Allocation
    pub extent_block : ℕ

  -- Up to three regions stand in the inode, and the block that was allocated too many is given back;
  -- for more, it is the block of the extents. The result of `reserve_oob_blocks` is not looked at.
  unfoldable pub place_extents : State → Allocation → ℕ → Run Place
  place_extents st alloc allocation_len =
      if leb allocation_len 3
      then (reduce_allocation st.heap alloc st.bgs 1 >>= λ r.
          done
            (record { state = record st { heap = r.0; bgs = r.2 }; alloc = r.1; extent_block = 0 }))
      else (reserve_oob_blocks fuel st.heap alloc 1 >>= λ r.
          get_oob_block fuel r.1 r.2 0 >>= λ block.
          done (record { state = record st { heap = r.1 }; alloc = r.2; extent_block = block }))

  abbrev pub header : ℕ → ℕ → ℕ → ExtentHeader
  header entries most depth = record {
    eh_magic = ext_magic;
    eh_entries = entries % 2 ^ 16;
    eh_max = most % 2 ^ 16;
    eh_depth = depth;
    eh_generation = 0;
  }

  -- the fields of the inode, at the end of `do_inode_allocate_extents`
  abbrev pub inode_fields : ℕ → ℕ → ℕ → ExtentTree → InodeData
  inode_fields i_flags len block_len tree =
      let blocks = u64 (block_len * info.block_size) / 512 in
      record {
        i_flags = bit_or i_flags extents_flag;
        i_size_lo = u32 len;
        i_size_high = u32 (len / 2 ^ 32);
        i_blocks_lo = u32 blocks;
        l_i_blocks_high = blocks / 2 ^ 32 % 2 ^ 16;
        i_block = tree;
      }

  -- the extents in the inode itself
  unfoldable pub extents_in_inode :
      ℕ → ℕ → ℕ → ℕ → Place → Run (Option (Allocation × InodeData) × State)
  unfolding write_extents
  extents_in_inode i_flags len block_len allocation_len p =
      write_extents fuel 4 p.state.heap p.alloc 0 >>= λ es.
      let tree : ExtentTree = record {
        root = header allocation_len 3 0;
        leaf = none;
        extents = es.0;
      } in
      done (some (rewind_alloc es.1, inode_fields i_flags len block_len tree), p.state)

  -- The extents in a block of their own, which is queued; `buffer` is its address.
  unfoldable pub extents_in_block :
      ℕ → ℕ → ℕ → ℕ → ℕ → Place → Run (Option (Allocation × InodeData) × State)
  unfolding write_extents
  extents_in_block i_flags len block_len allocation_len buffer p =
      queue_data_block fuel p.state.queue buffer info.block_size p.extent_block >>= λ q.
      let st = record p.state { queue = q } in
      if ltb (info.block_size - 1) allocation_len
      then error force >> done (none, st)
      else (write_extents fuel ((info.block_size - extent_size) / extent_size) st.heap p.alloc 0
          >>= λ es.
              let tree : ExtentTree = record {
                root = header 1 3 1;
                leaf = some (
                  p.extent_block,
                  header allocation_len ((info.block_size - extent_size) / extent_size) 0,
                );
                extents = es.0;
              } in
              done
                (some (rewind_alloc es.1, inode_fields i_flags len (u32 (block_len + 1)) tree), st))

  -- `do_inode_allocate_extents`; `none` is NULL.
  unfoldable pub do_inode_allocate_extents :
      State → ℕ → ℕ → ℕ → Run (Option (Allocation × InodeData) × State)
  unfolding place_extents extents_in_inode extents_in_block
  do_inode_allocate_extents st i_flags len buffer =
      if info.block_size == 0
      then fault
      else let block_len = u32 (div_round_up 64 len info.block_size) in
        (allocate_blocks force fuel st.heap (u32 (block_len + 1)) st.bgs >>= λ r. elim r.0 [
          | none ↦ error force >> done (none, record st { heap = r.1; bgs = r.2 })
          | some alloc ↦ block_allocation_num_regions fuel r.1 alloc >>= λ allocation_len.
              place_extents (record st { heap = r.1; bgs = r.2 }) alloc allocation_len >>= λ p.
              elim (p.extent_block == 0) [
                | true ↦ extents_in_inode i_flags len block_len allocation_len p
                | false ↦ extents_in_block i_flags len block_len allocation_len buffer p
              ]
        ])

  -- what the three functions have in common: an error once more, or the queueing of the contents
  abbrev pub allocated_extents :
      (Allocation → State → Run State)
      → Option (Allocation × InodeData) × State
      → Run (Option InodeData × State)
  allocated_extents queued (none, st) = error force >> done (none, st)
  allocated_extents queued (some r, st) = queued r.0 st >>= λ st. done (some r.1, st)

  -- `buffer` and `contents` are the addresses of the memory that `calloc` gives.
  unfoldable pub inode_allocate_data_extents :
      State → ℕ → ℕ → ℕ → ℕ → ℕ → Run (Option InodeData × State)
  unfolding do_inode_allocate_extents extent_create_backing
  inode_allocate_data_extents st i_flags len backing_len buffer contents =
      do_inode_allocate_extents st i_flags len buffer
      >>= allocated_extents λ alloc st.
        if backing_len == 0
        then done st
        else (extent_create_backing fuel st.heap alloc st.queue contents backing_len >>= λ q.
            done (record st { queue = q }))

  unfoldable pub inode_allocate_file_extents :
      State → ℕ → ℕ → List ℕ → ℕ → Run (Option InodeData × State)
  unfolding do_inode_allocate_extents extent_create_backing_file
  inode_allocate_file_extents st i_flags len filename buffer =
      do_inode_allocate_extents st i_flags len buffer
      >>= allocated_extents λ alloc st.
        extent_create_backing_file fuel st.heap alloc st.queue filename 0 len >>= λ q.
        done (record st { queue = q })

  unfoldable pub inode_allocate_extents : State → ℕ → ℕ → ℕ → Run (Option InodeData × State)
  unfolding do_inode_allocate_extents
  inode_allocate_extents st i_flags len buffer =
      do_inode_allocate_extents st i_flags len buffer >>= allocated_extents λ alloc st. done st
