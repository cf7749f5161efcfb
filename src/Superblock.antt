-- ===== src/Superblock.antt =====
-- The superblock and the group descriptors, as `ext4_fill_in_sb` of img-db/ext4_utils/ext4_utils.c
-- fills them in.
pub mod Located
pub mod Filled
use android_tools.Common.{
  ℕ, zero, suc, ◌+◌, ◌-◌, ◌*◌, ◌/◌, ◌%◌, ◌^◌, Bool, true, false, ◌&&◌, not, List, [], ◌∷◌, ◌++◌,
  ◌==◌, ltb, if◌then◌else◌, take, replicate, bit_and, Run, done, fault, out_of_fuel, ◌>>=◌,
}
use android_tools.Fs.{FsInfo, FsAuxInfo, u32, bg_has_super_block, has_journal}
use android_tools.Queue.{Queue, queue_data_block}
use android_tools.Totals.{GroupDesc}

-- The fields of `struct ext4_super_block` that are not set to 0; its memory is from `calloc`.
pub record SuperBlock : Type 0 where
  pub s_inodes_count : ℕ
  pub s_blocks_count_lo : ℕ
  pub s_first_data_block : ℕ
  pub s_log_block_size : ℕ
  pub s_obso_log_frag_size : ℕ
  pub s_blocks_per_group : ℕ
  pub s_obso_frags_per_group : ℕ
  pub s_inodes_per_group : ℕ
  pub s_max_mnt_count : ℕ
  pub s_magic : ℕ
  pub s_state : ℕ
  pub s_errors : ℕ
  pub s_rev_level : ℕ
  pub s_first_ino : ℕ
  pub s_inode_size : ℕ
  pub s_feature_compat : ℕ
  pub s_feature_incompat : ℕ
  pub s_feature_ro_compat : ℕ
  pub s_uuid : List ℕ
  pub s_volume_name : List ℕ
  pub s_reserved_gdt_blocks : ℕ
  pub s_journal_inum : ℕ
  pub s_def_hash_version : ℕ
  pub s_reserved_char_pad : ℕ
  pub s_desc_size : ℕ
  pub s_blocks_count_hi : ℕ
  pub s_min_extra_isize : ℕ
  pub s_want_extra_isize : ℕ

-- `struct ext2_group_desc`
pub record Descriptor : Type 0 where
  pub bg_block_bitmap : ℕ
  pub bg_inode_bitmap : ℕ
  pub bg_inode_table : ℕ
  pub counts : GroupDesc

-- The loop of `log_2`: how often `j` is halved until it is 0.
unfoldable pub log_loop : ℕ → ℕ → ℕ → Run ℕ
log_loop zero j i = out_of_fuel
log_loop (suc fuel) j i = elim (ltb 0 j) [ true ↦ log_loop fuel (j / 2) (i + 1) | false ↦ done i ]

unfoldable pub log_2 : ℕ → Run ℕ
unfolding log_loop
log_2 j = log_loop (suc j) j 0 >>= λ i. done (u32 (i + 2 ^ 32 - 1))

-- EXT4_SUPER_MAGIC, EXT4_JOURNAL_INO, EXT4_GOOD_OLD_FIRST_INO, and the sizes of `struct
-- ext2_group_desc` and of what `struct ext4_inode` has behind EXT4_GOOD_OLD_INODE_SIZE
abbrev pub super_magic : ℕ
super_magic = 0xEF53

abbrev pub journal_ino : ℕ
journal_ino = 8

abbrev pub first_ino : ℕ
first_ino = 11

abbrev pub desc_size : ℕ
desc_size = 32

abbrev pub extra_isize : ℕ
extra_isize = 28

-- `strncpy` of the label into the 16 bytes of `s_volume_name`
abbrev pub volume_name : List ℕ → List ℕ
volume_name label = take 16 (label ++ replicate 16 0)

-- The assignments to the superblock. `uuid` is what `generate_uuid` makes of the label.
abbrev pub super_block : FsInfo → FsAuxInfo → List ℕ → List ℕ → ℕ → SuperBlock
super_block info aux uuid label log = record {
  s_inodes_count = u32 (info.inodes_per_group * aux.groups);
  s_blocks_count_lo = u32 aux.len_blocks;
  s_first_data_block = aux.first_data_block;
  s_log_block_size = log;
  s_obso_log_frag_size = log;
  s_blocks_per_group = info.blocks_per_group;
  s_obso_frags_per_group = info.blocks_per_group;
  s_inodes_per_group = info.inodes_per_group;
  s_max_mnt_count = 0xFFFF;
  s_magic = super_magic;
  s_state = 1;
  s_errors = 2;
  s_rev_level = 1;
  s_first_ino = first_ino;
  s_inode_size = info.inode_size % 2 ^ 16;
  s_feature_compat = info.feat_compat;
  s_feature_incompat = info.feat_incompat;
  s_feature_ro_compat = info.feat_ro_compat;
  s_uuid = uuid;
  s_volume_name = volume_name label;
  s_reserved_gdt_blocks = aux.bg_desc_reserve_blocks % 2 ^ 16;
  s_journal_inum = if bit_and info.feat_compat has_journal == 0 then 0 else journal_ino;
  s_def_hash_version = 2;
  s_reserved_char_pad = 1;
  s_desc_size = desc_size;
  s_blocks_count_hi = u32 (aux.len_blocks / 2 ^ 32);
  s_min_extra_isize = extra_isize;
  s_want_extra_isize = extra_isize;
}

unfoldable pub fill_in_sb : FsInfo → FsAuxInfo → List ℕ → List ℕ → Run SuperBlock
fill_in_sb info aux uuid label =
    log_2 (info.block_size / 1024) >>= λ log. done (super_block info aux uuid label log)

-- where a group starts
abbrev pub group_start : FsInfo → FsAuxInfo → ℕ → ℕ
group_start info aux i = u32 (aux.first_data_block + u32 (i * info.blocks_per_group))

-- what stands before the bitmaps of a group
abbrev pub header_size : FsAuxInfo → Bool → ℕ
header_size aux has_super =
    if has_super then u32 (1 + aux.bg_desc_blocks + aux.bg_desc_reserve_blocks) else 0

-- the descriptor of a group
abbrev pub descriptor : FsInfo → FsAuxInfo → ℕ → Bool → Descriptor
descriptor info aux i has_super =
    let start = group_start info aux i + header_size aux has_super in
    record {
      bg_block_bitmap = u32 start;
      bg_inode_bitmap = u32 (start + 1);
      bg_inode_table = u32 (start + 2);
      counts = record {
        free_blocks_count = info.blocks_per_group % 2 ^ 16;
        free_inodes_count = info.inodes_per_group % 2 ^ 16;
        used_dirs_count = 0;
      };
    }

-- The loop of `ext4_fill_in_sb`, from group `i` on with `left` groups to go; `sb` and `bg_desc` are
-- the addresses of the buffers. Groups with a superblock, but for the first, get copies of both.
module _ (info : FsInfo) (aux : FsAuxInfo) (fuel sb bg_desc : ℕ) where
  unfoldable pub queue_copies : ℕ → Bool → Queue → Run Queue
  queue_copies i has_super q =
      if has_super && not (i == 0)
      then (queue_data_block fuel q sb info.block_size (group_start info aux i) >>= λ q.
          queue_data_block fuel q bg_desc (u32 (aux.bg_desc_blocks * info.block_size))
            (u32 (group_start info aux i + 1)))
      else done q

  unfoldable pub fill_descriptors : ℕ → ℕ → Queue → Run (List Descriptor × Queue)
  unfolding queue_copies
  fill_descriptors i zero q = done ([], q)
  fill_descriptors i (suc left) q = bg_has_super_block info i >>= λ has_super.
      queue_copies i has_super q >>= λ q. fill_descriptors (i + 1) left q >>= λ rest.
      done (descriptor info aux i has_super ∷ rest.0, rest.1)

-- `ext4_fill_in_sb`
unfoldable pub ext4_fill_in_sb :
    FsInfo
    → FsAuxInfo
    → List ℕ
    → List ℕ
    → ℕ
    → ℕ
    → ℕ
    → Queue
    → Run (SuperBlock × List Descriptor × Queue)
ext4_fill_in_sb info aux uuid label fuel sb bg_desc q = fill_in_sb info aux uuid label >>= λ s.
    fill_descriptors info aux fuel sb bg_desc 0 aux.groups q >>= λ r. done (s, r.0, r.1)
