-- ===== src/Totals.antt =====
-- `ext4_update_free` of img-db/ext4_utils/ext4_utils.c: the counts of the superblock and of the group
-- descriptors.
use android_tools.Common.{
  ℕ, zero, suc, ◌+◌, ◌%◌, ◌^◌, ◌<◌, ◌≡◌, refl, ap₂, arith, List, [], ◌∷◌, some, get_elem?, length,
  Run, done, fault, ◌>>=◌,
}
use android_tools.Fs.{u32}
use android_tools.Group.{BlockGroupInfo}
use android_tools.Alloc.{Groups}
use android_tools.Alloc.Pool.{total_free}

-- The counts of `struct ext2_group_desc`, of 16 bits each.
pub record GroupDesc : Type 0 where
  pub free_blocks_count : ℕ
  pub free_inodes_count : ℕ
  pub used_dirs_count : ℕ

-- `s_free_blocks_count_lo` and `s_free_inodes_count` of the superblock
pub record Totals : Type 0 where
  pub free_blocks : ℕ
  pub free_inodes : ℕ

-- One turn of the loop: the descriptor, and the counts of the superblock.
abbrev pub described : GroupDesc → BlockGroupInfo → GroupDesc
described d g = record {
  free_blocks_count = g.free_blocks % 2 ^ 16;
  free_inodes_count = g.free_inodes % 2 ^ 16;
  used_dirs_count = (d.used_dirs_count + g.used_dirs) % 2 ^ 16;
}

abbrev pub counted : Totals → BlockGroupInfo → Totals
counted t g = record {
  free_blocks = u32 (t.free_blocks + g.free_blocks);
  free_inodes = u32 (t.free_inodes + g.free_inodes);
}

-- `ext4_update_free`, along the groups and their descriptors.
unfoldable pub update_free : Totals → List GroupDesc → Groups → Run (Totals × List GroupDesc)
update_free t descs [] = done (t, descs)
update_free t [] (g ∷ bgs) = fault
update_free t (d ∷ descs) (g ∷ bgs) =
    update_free (counted t g) descs bgs >>= λ r. done (r.0, described d g ∷ r.1)

-- the inodes that are free in all groups together
abbrev pub total_inodes : Groups → ℕ
total_inodes [] = 0
total_inodes (g ∷ bgs) = g.free_inodes + total_inodes bgs

-- Each descriptor has the free blocks and the free inodes of its group, modulo `2 ^ 16`, and the
-- group's directories added to those that it had.
abbrev pub AreDescribed : List GroupDesc → Groups → List GroupDesc → Type 0
AreDescribed descs bgs new =
    (i : ℕ) (d : GroupDesc) (g : BlockGroupInfo)
    → get_elem? descs i ≡ some d
    → get_elem? bgs i ≡ some g
    → get_elem? new i
      ≡ some (record {
        free_blocks_count = g.free_blocks % 2 ^ 16;
        free_inodes_count = g.free_inodes % 2 ^ 16;
        used_dirs_count = (d.used_dirs_count + g.used_dirs) % 2 ^ 16;
      })

-- With a descriptor for each group, and totals that fit 32 bits, `ext4_update_free` returns: it
-- adds the free blocks and the free inodes of all groups to the counts of the superblock, and each
-- descriptor has the free blocks and inodes of its own group in 16 bits and its directories added.
pub update_free_lem :
    (t : Totals) (descs : List GroupDesc) (bgs : Groups)
    → length descs ≡ length bgs
    → t.free_blocks + total_free bgs < 2 ^ 32
    → t.free_inodes + total_inodes bgs < 2 ^ 32
    → (new : List GroupDesc) × (update_free t descs bgs
        ≡ done (
          record {
            free_blocks = t.free_blocks + total_free bgs;
            free_inodes = t.free_inodes + total_inodes bgs;
          },
          new,
        ))
      × AreDescribed descs bgs new
unfolding update_free total_free
update_free_lem t [] [] same blocks inodes =
    let b : t.free_blocks ≡ t.free_blocks + 0 = omega arith in
    let i : t.free_inodes ≡ t.free_inodes + 0 = omega arith in
    (
      [],
      ap₂ (λ (b i : ℕ). done (record { free_blocks = b; free_inodes = i }, [])) b i,
      λ i d g at at'. cc,
    )
update_free_lem t (d ∷ descs) [] same blocks inodes = absurd (omega arith)
update_free_lem t [] (g ∷ bgs) same blocks inodes = absurd (omega arith)
update_free_lem t (d ∷ descs) (g ∷ bgs) same blocks inodes =
    let b : u32 (t.free_blocks + g.free_blocks) ≡ t.free_blocks + g.free_blocks = omega arith in
    let i : u32 (t.free_inodes + g.free_inodes) ≡ t.free_inodes + g.free_inodes = omega arith in
    let (new, run, each) =
      update_free_lem (counted t g) descs bgs (omega arith) (omega arith) (omega arith) in
    let b' : u32 (t.free_blocks + g.free_blocks) + total_free bgs
        ≡ t.free_blocks + (g.free_blocks + total_free bgs) =
      omega arith in
    let i' : u32 (t.free_inodes + g.free_inodes) + total_inodes bgs
        ≡ t.free_inodes + (g.free_inodes + total_inodes bgs) =
      omega arith in
    (described d g ∷ new, rw (run, ◌>>=◌) (rw (b', i') refl), rest new each)
  where
    rest :
        (new : List GroupDesc)
        → AreDescribed descs bgs new
        → AreDescribed (d ∷ descs) (g ∷ bgs) (described d g ∷ new)
    rest new each zero d' g' at at' = cc
    rest new each (suc i) d' g' at at' = each i d' g' at at'
