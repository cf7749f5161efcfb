-- ===== src/Start.antt =====
-- `block_allocator_init` of img-db/ext4_utils/allocate.c, against what the allocators of blocks and
-- of inodes ask for.
use android_tools.Common.{
  ℕ, zero, suc, ◌+◌, ◌-◌, ◌*◌, ◌^◌, ◌≤◌, ◌<◌, ◌≡◌, refl, sym, arith, Bool, false, [], ◌∷◌, length,
  replicate, length-replicate, IsBytes-replicate, Run, done, ◌>>=◌,
}
use mathlib.Core.Option.{some-injective}
use android_tools.Bitmap.{bit_at}
use android_tools.Fs.{FsInfo, FsAuxInfo, bg_has_super_block}
use android_tools.Group.{BlockGroupInfo}
use android_tools.Group.Init.{fresh_bg, init_bg, init_from, block_allocator_init}
use android_tools.Group.Init.Room.{InRange, Kept, init_bg-IsGroup, bit_at-replicate}
use android_tools.Alloc.{Groups}
use android_tools.Alloc.Pool.{IsPool}
use android_tools.Inode.Reserve.{IsInodes}
use android_tools.Inode.Fresh.{AreInodes}

module _ (force : Bool) (info : FsInfo) (aux : FsAuxInfo)
    (inodes : info.inodes_per_group ≤ 8 * info.block_size)
    (few : info.inodes_per_group < 2 ^ 32 - 2) where
  -- The inodes of a new group: all are free.
  IsInodes-fresh :
      (i : ℕ) (has_super : Bool) {bg : BlockGroupInfo}
      → Kept (fresh_bg info aux i has_super) bg
      → IsInodes info.inodes_per_group bg
  IsInodes-fresh i has_super k =
      let cover : length {A = ℕ} (replicate info.block_size 0) ≡ info.block_size =
        length-replicate info.block_size 0 in
      let none_used : (k : ℕ) → bit_at (replicate info.block_size 0) k ≡ false =
        bit_at-replicate info.block_size in
      record {
        bytes = rw k.inode_bitmap (IsBytes-replicate info.block_size 0 (omega arith));
        covered = rw (k.inode_bitmap, cover) inodes;
        from_one = rw k.first_free_inode (omega arith);
        count = rw (k.first_free_inode, k.free_inodes) (omega arith);
        small = few;
        bits = λ j below. rw (k.inode_bitmap, k.first_free_inode, none_used j) (ground arith);
      }

  AreInodes-cons :
      {n : ℕ} (bg : BlockGroupInfo) (bgs : Groups)
      → IsInodes n bg
      → AreInodes n bgs
      → AreInodes n (bg ∷ bgs)
  AreInodes-cons bg bgs v vs zero g at = rw (sym (some-injective _ _ at)) v
  AreInodes-cons bg bgs v vs (suc i) g at = vs i g at

  -- What each group must meet, from `i` on.
  abbrev pub Ready : ℕ → ℕ → Type 0
  Ready i left =
      (j : ℕ)
      → i ≤ j
      → j < i + left
      → (b : Bool) × (bg_has_super_block info j ≡ done b) × InRange info aux j b

  abbrev pub Started : Run Groups → ℕ → Type 0
  Started r left =
      (bgs : Groups) × (r ≡ done bgs)
      × (length bgs ≡ left)
      × IsPool info.blocks_per_group bgs
      × AreInodes info.inodes_per_group bgs

  init_from_step :
      (i left : ℕ) {bg : BlockGroupInfo} {block : ℕ} {bgs : Groups}
      → init_bg force info aux i ≡ done (bg, block)
      → init_from force info aux (i + 1) left ≡ done bgs
      → init_from force info aux i (suc left) ≡ done (bg ∷ bgs)
  unfolding init_from
  init_from_step i left first rest = rw (first, ◌>>=◌) (rw rest refl)

  init_from-Started : (i left : ℕ) → Ready i left → Started (init_from force info aux i left) left
  init_from-Started i zero ready = ([], (unfold init_from in refl), refl, tt, λ j g at. cc)
  init_from-Started i (suc left) ready =
      let (b, super, v) = ready i (omega arith) (omega arith) in
      let (bg, block, first, g, count, k) = init_bg-IsGroup force info aux i b v super in
      let (bgs, rest, len, p, is) =
        init_from-Started (i + 1) left (λ j lo hi. ready j (omega arith) (omega arith)) in
      let place : bg.first_block + info.blocks_per_group < 2 ^ 32 - 1 =
        omega (arith, k.first_block, v.ends) in
      (
        bg ∷ bgs,
        init_from_step i left first rest,
        omega arith,
        ((g, place), p),
        AreInodes-cons bg bgs (IsInodes-fresh i b k) is,
      )

  -- Where every group has a place for its header before the end of the filesystem, its block
  -- numbers fit and the bitmaps cover its blocks and inodes, `block_allocator_init` returns with
  -- `aux_info.groups` groups, each of which is well formed in its blocks and in its inodes.
  pub block_allocator_init-IsPool :
      Ready 0 aux.groups → Started (block_allocator_init force info aux) aux.groups
  unfolding block_allocator_init
  block_allocator_init-IsPool ready = init_from-Started 0 aux.groups ready
