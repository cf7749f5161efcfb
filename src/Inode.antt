-- ===== src/Inode.antt =====
-- Inode numbers: `reserve_inodes`, `allocate_inode`, `get_inode` and the counts of directories of
-- img-db/ext4_utils/allocate.c.
pub mod Reserve
pub mod Fresh
use android_tools.Common.{
  ℕ, zero, suc, ◌+◌, ◌-◌, ◌*◌, ◌/◌, ◌%◌, ◌^◌, Bool, true, false, List, [], Option, none, some, ◌==◌,
  ltb, if◌then◌else◌, get_elem?, set, length, bit_or, replicate, Run, done, fault, ◌>>=◌,
}
use android_tools.Fs.{FsInfo, FsAuxInfo, u32}
use android_tools.Group.{BlockGroupInfo, allocate_failed}
use android_tools.Group.Init.{super_blocks}
use android_tools.Alloc.{Groups, group_at}

-- `bitmap[inode / 8] |= 1 << (inode % 8)`
unfoldable pub set_inode : List ℕ → ℕ → Run (List ℕ)
set_inode bitmap inode = elim (get_elem? bitmap (inode / 8)) [
  | none ↦ fault
  | some b ↦ done (set bitmap (inode / 8) (bit_or b (2 ^ (inode % 8)) % 2 ^ 8))
]

-- The loop of `reserve_inodes` from `i` on, with `left` inodes to go.
unfoldable pub set_inodes : ℕ → ℕ → ℕ → List ℕ → Run (List ℕ)
unfolding set_inode
set_inodes first zero i bitmap = done bitmap
set_inodes first (suc left) i bitmap =
    set_inode bitmap (u32 (first + i + 2 ^ 32 - 1)) >>= set_inodes first left (i + 1)

-- `get_free_inodes`
abbrev pub get_free_inodes : Groups → ℕ → Run ℕ
get_free_inodes bgs bg = group_at bgs bg λ g. done g.free_inodes

-- `reserve_inodes`: the number in the group, and the groups.
unfoldable pub reserve_inodes : Groups → ℕ → ℕ → Run (ℕ × Groups)
unfolding set_inodes
reserve_inodes bgs bg num = group_at bgs bg λ g.
    if ltb g.free_inodes num
    then done (allocate_failed, bgs)
    else (set_inodes g.first_free_inode num 0 g.inode_bitmap >>= λ bitmap. done (
      g.first_free_inode,
      set bgs bg (record g {
        inode_bitmap = bitmap;
        first_free_inode = u32 (g.first_free_inode + num);
        free_inodes = g.free_inodes - num;
      }),
    ))

-- The loop of `allocate_inode`, at group `bg` with `left` groups to go.
unfoldable pub inode_from : FsInfo → ℕ → ℕ → Groups → Run (ℕ × Groups)
unfolding reserve_inodes
inode_from info zero bg bgs = done (allocate_failed, bgs)
inode_from info (suc left) bg bgs = reserve_inodes bgs bg 1 >>= λ r. elim (r.0 == allocate_failed) [
  | true ↦ inode_from info left (bg + 1) r.1
  | false ↦ done (u32 (u32 (bg * info.inodes_per_group) + r.0), r.1)
]

-- `allocate_inode`, with `aux_info.groups` the number of groups
unfoldable pub allocate_inode : FsInfo → Groups → Run (ℕ × Groups)
unfolding inode_from
allocate_inode info bgs = inode_from info (length bgs) 0 bgs

-- `add_directory`; a division by zero is a fault, and the count is a `u16`.
unfoldable pub add_directory : FsInfo → ℕ → Groups → Run Groups
add_directory info inode bgs =
    let bg = u32 (inode + 2 ^ 32 - 1) / info.inodes_per_group in
    if info.inodes_per_group == 0
    then fault
    else group_at bgs bg
        λ g. done (set bgs bg (record g { used_dirs = (g.used_dirs + 1) % 2 ^ 16 }))

-- `get_directories`
unfoldable pub get_directories : Groups → ℕ → Run ℕ
get_directories bgs bg = group_at bgs bg λ g. done g.used_dirs

-- `allocate_bg_inode_table`: the group, and the blocks that a new table is queued for, first and
-- length in bytes.
unfoldable pub allocate_bg_inode_table :
    FsInfo → FsAuxInfo → BlockGroupInfo → BlockGroupInfo × Option (ℕ × ℕ)
allocate_bg_inode_table info aux g = elim g.inode_table [
  | some table ↦ (g, none)
  | none ↦ (
    record g { inode_table = some (replicate (aux.inode_table_blocks * info.block_size) 0) },
    some (
      u32 (g.first_block + 2 + super_blocks aux g.has_superblock),
      u32 (aux.inode_table_blocks * info.block_size),
    ),
  )
]

-- The inode that `get_inode` returns: the group it is in, and its offset in the group's table.
unfoldable pub inode_place : FsInfo → ℕ → Run (ℕ × ℕ)
inode_place info inode =
    let inode = u32 (inode + 2 ^ 32 - 1) in
    if info.inodes_per_group == 0
    then fault
    else done (inode / info.inodes_per_group, u32 (inode % info.inodes_per_group * info.inode_size))

-- `get_inode`: where the inode stands, the groups, and what was queued.
unfoldable pub get_inode : FsInfo → FsAuxInfo → ℕ → Groups → Run ((ℕ × ℕ) × Groups × Option (ℕ × ℕ))
unfolding inode_place allocate_bg_inode_table
get_inode info aux inode bgs = inode_place info inode >>= λ place. group_at bgs place.0 λ g.
    let (g', queued) = allocate_bg_inode_table info aux g in
    done (place, set bgs place.0 g', queued)
