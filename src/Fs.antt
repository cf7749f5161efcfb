-- ===== src/Fs.antt =====
-- The parameters of a filesystem, of img-db/ext4_utils/ext4_utils.h, and how
-- img-db/ext4_utils/make_ext4fs.c and ext4_utils.c choose them.
pub mod Super
pub mod Geometry
use android_tools.Common.{
  ℕ, zero, suc, ◌+◌, ◌-◌, ◌*◌, ◌/◌, ◌%◌, ◌^◌, Bool, true, false, not, ◌&&◌, ◌||◌, ◌==◌, ltb, leb,
  List, if◌then◌else◌, bit_and, bit_or, Option, none, some, Run, done, exited, out_of_fuel, ◌>>=◌,
  min,
}

-- `struct fs_info`. The label is only passed on, and has no field here.
pub record FsInfo : Type 0 where
  pub len : ℕ
  pub block_size : ℕ
  pub blocks_per_group : ℕ
  pub inodes_per_group : ℕ
  pub inode_size : ℕ
  pub inodes : ℕ
  pub journal_blocks : ℕ
  pub feat_ro_compat : ℕ
  pub feat_compat : ℕ
  pub feat_incompat : ℕ
  pub no_journal : ℕ

-- The numbers of `struct fs_aux_info`.
pub record FsAuxInfo : Type 0 where
  pub first_data_block : ℕ
  pub len_blocks : ℕ
  pub inode_table_blocks : ℕ
  pub groups : ℕ
  pub bg_desc_blocks : ℕ
  pub bg_desc_reserve_blocks : ℕ
  pub default_i_flags : ℕ
  pub blocks_per_ind : ℕ
  pub blocks_per_dind : ℕ
  pub blocks_per_tind : ℕ

-- The macro DIV_ROUND_UP(x, y) in unsigned arithmetic modulo `2 ^ w`.
abbrev pub div_round_up : ℕ → ℕ → ℕ → ℕ
div_round_up w x y = ((x + y) % 2 ^ w + 2 ^ w - 1) % 2 ^ w / y

-- `is_power_of`, each turn of its `while` with one unit of fuel.
unfoldable pub is_power_loop : ℕ → ℕ → ℕ → Run Bool
is_power_loop zero a b = out_of_fuel
is_power_loop (suc fuel) a b =
    let rest = is_power_loop fuel (a / b) b in
    if ltb b a then (if a % b == 0 then rest else done false) else done (a == b)

-- The `int` with the same 32 bits as `a` is negative from `2 ^ 31` on: then the loop does not begin,
-- for a `b` that is not.
unfoldable pub is_power_of : ℕ → ℕ → Run Bool
unfolding is_power_loop
is_power_of a b = if ltb a (2 ^ 31) then is_power_loop (suc a) a b else done (a == b)

-- EXT4_FEATURE_RO_COMPAT_SPARSE_SUPER
abbrev pub sparse_super : ℕ
sparse_super = 0x0001

-- `a || b`, the second only where the first is false
abbrev pub or_else : Run Bool → Run Bool → Run Bool
or_else a b = a >>= λ r. elim r [ true ↦ done true | false ↦ b ]

-- `ext4_bg_has_super_block`, of a group number as the 32 bits of an `int`
unfoldable pub bg_has_super_block : FsInfo → ℕ → Run Bool
bg_has_super_block info bg =
    if bit_and info.feat_ro_compat sparse_super == 0
    then done true
    else if bg == 0 || bg == 1
    then done true
    else or_else (is_power_of bg 3) (or_else (is_power_of bg 5) (is_power_of bg 7))

abbrev pub u32 : ℕ → ℕ
u32 x = x % 2 ^ 32

abbrev pub u64 : ℕ → ℕ
u64 x = x % 2 ^ 64

-- `compute_block_size` to `compute_inodes_per_group` of make_ext4fs.c
unfoldable pub compute_block_size : ℕ
compute_block_size = 4096

unfoldable pub compute_journal_blocks : FsInfo → ℕ
compute_journal_blocks info =
    let journal_blocks = u32 (div_round_up 64 info.len info.block_size / 64) in
    let at_least = if ltb journal_blocks 1024 then 1024 else journal_blocks in
    if ltb 32768 at_least then 32768 else at_least

unfoldable pub compute_blocks_per_group : FsInfo → ℕ
compute_blocks_per_group info = u32 (info.block_size * 8)

unfoldable pub compute_inodes : FsInfo → ℕ
compute_inodes info = u32 (div_round_up 64 info.len info.block_size / 4)

unfoldable pub compute_inodes_per_group : FsInfo → ℕ
compute_inodes_per_group info =
    let blocks = u32 (div_round_up 64 info.len info.block_size) in
    let block_groups = div_round_up 32 blocks info.blocks_per_group in
    div_round_up 32 info.inodes block_groups

-- EXT4_FEATURE_COMPAT_HAS_JOURNAL, …_RESIZE_INODE, …_RO_COMPAT_LARGE_FILE, …_INCOMPAT_EXTENTS and
-- …_FILETYPE
abbrev pub has_journal : ℕ
has_journal = 0x0004

abbrev pub resize_inode : ℕ
resize_inode = 0x0010

abbrev pub large_file : ℕ
large_file = 0x0002

abbrev pub incompat_extents : ℕ
incompat_extents = 0x0040

abbrev pub incompat_filetype : ℕ
incompat_filetype = 0x0002

-- One field of `info`, set only where it is still zero.
abbrev pub default_to : ℕ → ℕ → ℕ
default_to given value = if given == 0 then value else given

-- How `make_ext4fs` completes the parameters, up to the first line that it prints; `file_size` is
-- what `get_file_size` returns for the image's file. `none` is EXIT_FAILURE.
unfoldable pub choose_parameters : ℕ → FsInfo → Option FsInfo
unfolding compute_block_size compute_journal_blocks compute_blocks_per_group compute_inodes
    compute_inodes_per_group
choose_parameters file_size info =
    let sized = record info { len = default_to info.len file_size } in
    if sized.len == 0
    then none
    else let blocked = record sized {
      block_size = default_to info.block_size compute_block_size;
    } in
      let journal = record blocked {
        journal_blocks = default_to info.journal_blocks (compute_journal_blocks blocked);
      } in
      let featured =
        if info.no_journal == 0
        then record journal { feat_compat = has_journal }
        else record journal { journal_blocks = 0 } in
      let grouped = record featured {
        blocks_per_group = default_to info.blocks_per_group (compute_blocks_per_group featured);
      } in
      let counted = record grouped { inodes = default_to info.inodes (compute_inodes grouped) } in
      let inoded = record counted { inode_size = default_to info.inode_size 256 } in
      let spread = record inoded { inodes_per_group = compute_inodes_per_group inoded } in
      some (record spread {
        feat_compat = bit_or spread.feat_compat resize_inode;
        feat_ro_compat = bit_or spread.feat_ro_compat (bit_or sparse_super large_file);
        feat_incompat = bit_or spread.feat_incompat (bit_or incompat_extents incompat_filetype);
      })

-- `sizeof(struct ext2_group_desc)` and EXT4_NOATIME_FL
abbrev pub group_desc_size : ℕ
group_desc_size = 32

abbrev pub noatime_flag : ℕ
noatime_flag = 0x00000080

-- The blocks that the last group needs for itself, as `ext4_create_fs_aux_info` counts them.
abbrev pub last_header_size : FsAuxInfo → Bool → ℕ
last_header_size aux has_super =
    let header = u32 (2 + aux.inode_table_blocks) in
    if has_super
    then u32 (header + u32 (1 + aux.bg_desc_blocks + aux.bg_desc_reserve_blocks))
    else header

-- the assignments of `ext4_create_fs_aux_info` up to `default_i_flags`; `size_t` has 64 bits
unfoldable pub first_aux_info : FsInfo → FsAuxInfo
first_aux_info info =
    let first_data_block = if ltb 1024 info.block_size then 0 else 1 in
    let len_blocks = info.len / info.block_size in
    let groups =
      u32 (div_round_up 64 (u64 (len_blocks + 2 ^ 64 - first_data_block)) info.blocks_per_group) in
    let per_ind = u32 (info.block_size / 4) in
    let per_dind = u32 (per_ind * per_ind) in
    let desc = u32 (div_round_up 64 (groups * group_desc_size) info.block_size) in
    let reserve = u32 (
      div_round_up 64 (u64 (u32 (groups * 1024) * group_desc_size)) info.block_size
      + 2 ^ 64
      - desc) in
    record {
      first_data_block = first_data_block;
      len_blocks = len_blocks;
      inode_table_blocks =
          div_round_up 32 (u32 (info.inodes_per_group * info.inode_size)) info.block_size;
      groups = groups;
      bg_desc_blocks = desc;
      bg_desc_reserve_blocks = if ltb per_ind reserve then per_ind else reserve;
      default_i_flags = noatime_flag;
      blocks_per_ind = per_ind;
      blocks_per_dind = per_dind;
      blocks_per_tind = u32 (per_dind * per_dind);
    }

-- the end of `ext4_create_fs_aux_info`: a last group with no room for its header is left out
abbrev pub drop_last_group : FsInfo → FsAuxInfo → Bool → FsAuxInfo
drop_last_group info aux has_super =
    let last_group_size = u32 (aux.len_blocks % info.blocks_per_group) in
    if ltb 0 last_group_size && ltb last_group_size (last_header_size aux has_super)
    then record aux {
      groups = u32 (aux.groups + 2 ^ 32 - 1);
      len_blocks = aux.len_blocks - last_group_size;
    }
    else aux

-- `ext4_create_fs_aux_info`, but for the two buffers that it allocates.
unfoldable pub create_fs_aux_info : FsInfo → Run FsAuxInfo
unfolding first_aux_info
create_fs_aux_info info =
    let aux = first_aux_info info in
    bg_has_super_block info (u32 (aux.groups + 2 ^ 32 - 1)) >>= λ has_super.
    done (drop_last_group info aux has_super)
