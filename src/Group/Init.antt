-- ===== src/Group/Init.antt =====
-- `init_bg` and `block_allocator_init` of img-db/ext4_utils/allocate.c.
pub mod Room
pub mod Place
use android_tools.Common.{
  ℕ, zero, suc, ◌+◌, ◌-◌, ◌*◌, ◌%◌, ◌^◌, Bool, true, false, List, [], ◌∷◌, none, ltb, if◌then◌else◌,
  replicate, Run, done, ◌>>=◌, ◌>>◌, error,
}
use android_tools.Fs.{FsInfo, FsAuxInfo, u32, bg_has_super_block}
use android_tools.Group.{BlockGroupInfo, Status, ok, failed, reserve_blocks}

-- the blocks before the inode table of a group: 2 bitmaps, and the superblock's part
abbrev pub super_blocks : FsAuxInfo → Bool → ℕ
super_blocks aux has_super =
    if has_super then 1 + aux.bg_desc_blocks + aux.bg_desc_reserve_blocks else 0

abbrev pub header_blocks : FsAuxInfo → Bool → ℕ
header_blocks aux has_super = u32 (2 + aux.inode_table_blocks + super_blocks aux has_super)

-- The group as `init_bg` fills it in, before anything is reserved; the bitmaps are from `calloc`.
abbrev pub fresh_bg : FsInfo → FsAuxInfo → ℕ → Bool → BlockGroupInfo
fresh_bg info aux i has_super = record {
  first_block = u32 (aux.first_data_block + u32 (i * info.blocks_per_group));
  header_blocks = header_blocks aux has_super;
  data_blocks_used = 0;
  has_superblock = has_super;
  block_bitmap = replicate info.block_size 0;
  inode_bitmap = replicate info.block_size 0;
  inode_table = none;
  free_blocks = info.blocks_per_group;
  first_free_block = 0;
  free_inodes = info.inodes_per_group;
  first_free_inode = 1;
  used_dirs = 0;
}

-- The blocks of the group that lie past the end, as a `u32`; the difference is taken in 64 bits.
abbrev pub overrun : FsInfo → FsAuxInfo → BlockGroupInfo → ℕ
overrun info aux bg =
    u32 ((u32 (bg.first_block + info.blocks_per_group) + 2 ^ 64 - aux.len_blocks) % 2 ^ 64)

abbrev pub reserve_overrun : Bool → FsInfo → FsAuxInfo → BlockGroupInfo → Run BlockGroupInfo
reserve_overrun force info aux bg =
    let over = overrun info aux bg in
    if ltb 0 over
    then (reserve_blocks force bg (u32 (info.blocks_per_group + 2 ^ 32 - over)) over >>= λ r.
        done r.1)
    else done bg

-- `error(…)` where the status is -1
abbrev pub check : Bool → Status → Run (Unit {0})
check force ok = done tt
check force failed = error force

-- `init_bg`: the group, and the block that its bitmaps are queued for.
unfoldable pub init_bg : Bool → FsInfo → FsAuxInfo → ℕ → Run (BlockGroupInfo × ℕ)
init_bg force info aux i = bg_has_super_block info i >>= λ has_super.
    let bg = fresh_bg info aux i has_super in
    let block = u32 (bg.first_block + super_blocks aux has_super) in
    reserve_blocks force bg bg.first_free_block bg.header_blocks >>= λ r.
    check force r.0 >> (reserve_overrun force info aux r.1 >>= λ bg'. done (bg', block))

-- The loop of `block_allocator_init`, from group `i` on with `left` groups to go.
unfoldable pub init_from : Bool → FsInfo → FsAuxInfo → ℕ → ℕ → Run (List BlockGroupInfo)
unfolding init_bg
init_from force info aux i zero = done []
init_from force info aux i (suc left) = init_bg force info aux i >>= λ r.
    init_from force info aux (i + 1) left >>= λ bgs. done (r.0 ∷ bgs)

unfoldable pub block_allocator_init : Bool → FsInfo → FsAuxInfo → Run (List BlockGroupInfo)
unfolding init_from
block_allocator_init force info aux = init_from force info aux 0 aux.groups
