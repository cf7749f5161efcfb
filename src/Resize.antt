-- ===== src/Resize.antt =====
-- The inode for resizing: `ext4_create_resize_inode` of img-db/ext4_utils/ext4_utils.c and
-- `inode_attach_resize` of indirect.c, which map the blocks that are reserved for descriptors.
pub mod Tables
pub mod Blocks
pub mod Reserved
pub mod Rows
pub mod Built
pub mod Created
use android_tools.Common.{
  ℕ, zero, suc, ◌+◌, ◌-◌, ◌*◌, ◌/◌, ◌%◌, ◌^◌, Bool, true, false, not, List, Option, none, some,
  ◌==◌, ltb, if◌then◌else◌, set, length, replicate, Run, done, exited, fault, ◌>>=◌,
}
use android_tools.Fs.{FsInfo, FsAuxInfo, u32, u64, bg_has_super_block}
use android_tools.Inode.{get_inode}
use android_tools.Queue.{Queue, queue_data_block}
use android_tools.Regions.{
  Heap, Allocation, create_allocation, append_region, block_allocation_len, append_oob_allocation,
  get_block, get_oob_block,
}
use android_tools.Extents.{State}
use android_tools.Superblock.{group_start}

-- What is written: the two buffers as words of 32 bits, the block of the first, and the fields of
-- the inode.
pub record ResizeData : Type 0 where
  pub dind_block : ℕ
  pub dind_block_data : List ℕ
  pub ind_block_data : List ℕ
  pub i_flags : ℕ
  pub i_blocks_lo : ℕ
  pub l_i_blocks_high : ℕ
  pub i_size_lo : ℕ
  pub i_size_high : ℕ

-- The inode, with the group it is in and its offset in the table of the group.
pub record ResizeInode : Type 0 where
  pub place : ℕ × ℕ
  pub i_mode : ℕ
  pub i_links_count : ℕ
  pub content : ResizeData

-- EXT4_RESIZE_INO, and S_IFREG | S_IRUSR | S_IWUSR
abbrev pub resize_ino : ℕ
resize_ino = 7

abbrev pub user_file : ℕ
user_file = 0x8180

-- `words[i] = v`
abbrev pub write : List ℕ → ℕ → ℕ → Run (List ℕ)
write words i v = if ltb i (length words) then done (set words i v) else fault

-- `(i - aux_info.bg_desc_blocks) % aux_info.bg_desc_reserve_blocks`, without a sign
abbrev pub row : FsAuxInfo → ℕ → ℕ
row aux i = u32 (i + 2 ^ 32 - aux.bg_desc_blocks) % aux.bg_desc_reserve_blocks

-- The two loops of `inode_attach_resize`; `block` is `get_block` of the allocation.
module _ (block : ℕ → Run ℕ) (aux : FsAuxInfo) where
  -- from `j` on, with `left` superblocks to go
  unfoldable pub ind_loop : ℕ → ℕ → ℕ → List ℕ → Run (List ℕ)
  ind_loop r zero j ind = done ind
  ind_loop r (suc left) j ind = block (u32 (u32 (j * aux.bg_desc_reserve_blocks) + r)) >>= λ b.
      write ind (u32 (r * aux.blocks_per_ind + j + 2 ^ 32 - 1)) b >>= ind_loop r left (j + 1)

  -- from `i` on, with `left` reserved blocks to go
  unfoldable pub dind_loop : ℕ → ℕ → ℕ → List ℕ → List ℕ → Run (List ℕ × List ℕ)
  dind_loop superblocks zero i dind ind = done (dind, ind)
  dind_loop superblocks (suc left) i dind ind = block (row aux i) >>= λ b.
      write dind i b >>= λ dind.
      ind_loop (row aux i) (superblocks - 1) 1 ind >>= dind_loop superblocks left (i + 1) dind

-- the loop of `ext4_create_resize_inode`, from group `i` on with `left` groups to go
unfoldable pub reserved_regions :
    FsInfo → FsAuxInfo → ℕ → ℕ → Heap → Allocation → Run (Heap × Allocation)
reserved_regions info aux i zero h alloc = done (h, alloc)
reserved_regions info aux i (suc left) h alloc = bg_has_super_block info i >>= λ has_super.
    (if has_super
      then append_region h alloc (u32 (group_start info aux i + 1 + aux.bg_desc_blocks))
          aux.bg_desc_reserve_blocks i
      else done (h, alloc))
    >>= λ (h, alloc). reserved_regions info aux (i + 1) left h alloc

module _ (force : Bool) (info : FsInfo) (aux : FsAuxInfo) (fuel : ℕ) where
  -- the fields of the inode, at the end of `inode_attach_resize`
  abbrev pub resize_data : ℕ → ℕ → ℕ → List ℕ × List ℕ → ResizeData
  resize_data block_len superblocks dind_block tables =
      let last_block = u32 (
        12
        + aux.blocks_per_ind
        + u32 (aux.blocks_per_ind * u32 (aux.bg_desc_reserve_blocks + 2 ^ 32 - 1))
        + superblocks
        + 2 ^ 32
        - 2) in
      let blocks = u64 ((block_len + 1) * info.block_size) / 512 in
      let size = u64 (last_block * info.block_size) in
      record {
        dind_block = dind_block;
        dind_block_data = tables.0;
        ind_block_data = tables.1;
        i_flags = 0;
        i_blocks_lo = u32 blocks;
        l_i_blocks_high = blocks / 2 ^ 32 % 2 ^ 16;
        i_size_lo = u32 size;
        i_size_high = size / 2 ^ 32;
      }

  -- The part of `inode_attach_resize` behind its check; `dind` and `ind` are the addresses of the
  -- buffers. The result of `append_oob_allocation` is not looked at.
  unfoldable pub attach_tables : State → Allocation → ℕ → ℕ → ℕ → Run (ResizeData × State)
  attach_tables st alloc block_len dind ind =
      append_oob_allocation force fuel st.heap alloc 1 st.bgs >>= λ (_, h, alloc, bgs).
      get_oob_block fuel h alloc 0 >>= λ dind_block.
      queue_data_block fuel st.queue dind info.block_size dind_block >>= λ q.
      get_block fuel h alloc 0 >>= λ first.
      queue_data_block fuel q ind (u32 (info.block_size * aux.bg_desc_reserve_blocks)) first
      >>= λ q.
          let superblocks = block_len / aux.bg_desc_reserve_blocks in
          dind_loop (get_block fuel h alloc) aux superblocks aux.bg_desc_reserve_blocks 0
            (replicate (info.block_size / 4) 0)
            (replicate (info.block_size * aux.bg_desc_reserve_blocks / 4) 0)
          >>= λ tables. done (
            resize_data block_len superblocks dind_block tables,
            record { heap = h; bgs = bgs; queue = q },
          )

  unfoldable pub inode_attach_resize : State → Allocation → ℕ → ℕ → Run (ResizeData × State)
  inode_attach_resize st alloc dind ind = block_allocation_len fuel st.heap alloc >>= λ block_len.
      if aux.bg_desc_reserve_blocks == 0
      then fault
      else if not (block_len % aux.bg_desc_reserve_blocks == 0)
      then exited
      else attach_tables st alloc block_len dind ind

  -- the queueing of a new inode table, at address `table`, in `get_inode`
  abbrev pub queue_table : ℕ → Option (ℕ × ℕ) → Queue → Run Queue
  queue_table table none q = done q
  queue_table table (some (block, len)) q = queue_data_block fuel q table len block

  -- `ext4_create_resize_inode`; `table` is the address of the inode table, if that is new.
  unfoldable pub create_resize_inode : State → ℕ → ℕ → ℕ → Run (ResizeInode × State)
  create_resize_inode st table dind ind =
      get_inode info aux resize_ino st.bgs >>= λ (place, bgs, queued).
      queue_table table queued st.queue >>= λ q.
      reserved_regions info aux 0 aux.groups st.heap create_allocation >>= λ (h, alloc).
      inode_attach_resize (record { heap = h; bgs = bgs; queue = q }) alloc dind ind >>= λ r.
      done (record { place = place; i_mode = user_file; i_links_count = 1; content = r.0 }, r.1)
