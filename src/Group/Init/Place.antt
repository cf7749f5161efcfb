-- ===== src/Group/Init/Place.antt =====
-- The block that `init_bg` of img-db/ext4_utils/allocate.c queues the bitmaps of a group for.
use android_tools.Common.{
  ℕ, ◌+◌, ◌*◌, ◌≡◌, Bool, true, false, done, ◌>>=◌, ◌>>◌, Run, exited, fault, out_of_fuel,
}
use android_tools.Fs.{FsInfo, FsAuxInfo, u32, bg_has_super_block}
use android_tools.Group.{BlockGroupInfo, Status, ok, failed}
use android_tools.Group.Init.{super_blocks, reserve_overrun, check, init_bg}

abbrev with_block : ℕ → BlockGroupInfo → Run (BlockGroupInfo × ℕ)
with_block k b = done (b, k)

-- The block that `init_bg` returns is the one for the bitmaps, whatever was reserved.
module _ {bg : BlockGroupInfo} {block : ℕ} where
  overrun_at :
      (k : ℕ) (m : Run BlockGroupInfo) → (m >>= with_block k) ≡ done (bg, block) → block ≡ k
  overrun_at k (done b) e = cc
  overrun_at k exited e = cc
  overrun_at k fault e = cc
  overrun_at k out_of_fuel e = cc

  check_at :
      (force : Bool) (status : Status) (k : ℕ) (m : Run BlockGroupInfo)
      → (check force status >> (m >>= with_block k)) ≡ done (bg, block)
      → block ≡ k
  check_at force ok k m e = overrun_at k m e
  check_at true failed k m e = overrun_at k m e
  check_at false failed k m e = cc

  queued_at :
      (force : Bool) (info : FsInfo) (aux : FsAuxInfo) (k : ℕ) (m : Run (Status × BlockGroupInfo))
      → (m >>= λ r. check force r.0 >> (reserve_overrun force info aux r.1 >>= with_block k))
        ≡ done (bg, block)
      → block ≡ k
  queued_at force info aux k (done (status, b)) e =
      check_at force status k (reserve_overrun force info aux b) e
  queued_at force info aux k exited e = cc
  queued_at force info aux k fault e = cc
  queued_at force info aux k out_of_fuel e = cc

module _ (force : Bool) (info : FsInfo) (aux : FsAuxInfo) (i : ℕ) (has_super : Bool) where
  -- the block that the bitmaps are queued for
  pub init_bg-block :
      {bg : BlockGroupInfo} {block : ℕ}
      → bg_has_super_block info i ≡ done has_super
      → init_bg force info aux i ≡ done (bg, block)
      → block
        ≡ u32 (
            u32 (aux.first_data_block + u32 (i * info.blocks_per_group))
            + super_blocks aux has_super)
  unfolding init_bg
  init_bg-block super run = queued_at force info aux _ _ (rw (super, ◌>>=◌) at run)
