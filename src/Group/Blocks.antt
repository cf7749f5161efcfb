-- ===== src/Group/Blocks.antt =====
-- `reserve_blocks` of img-db/ext4_utils/allocate.c as a whole, and the invariant of a group.
use android_tools.Common.{
  ℕ, ◌+◌, ◌-◌, ◌*◌, ◌%◌, ◌^◌, ◌≤◌, ◌<◌, ◌≡◌, refl, arith, Bool, true, false, not, ◌&&◌, List, ◌==◌,
  ltb, leb, if◌then◌else◌, length, IsBytes, Run, done, ◌>>=◌, ◌>>◌, error,
}
use android_tools.Bitmap.{bit_at}
use android_tools.Bitmap.Marks.{Free, Marks}
use android_tools.Group.{
  BlockGroupInfo, ok, failed, Progress, taken, reserve_loops, reserve_end, reserve_blocks,
}
use android_tools.Group.Walk.{Walk, walked, clash, Fits}
use android_tools.Group.Reserve.{reserve_loops-Walk}

-- The group `bg` with `num` blocks taken from `start` on, `bitmap` its new bitmap.
abbrev pub reserved : BlockGroupInfo → ℕ → ℕ → List ℕ → BlockGroupInfo
reserved bg start num bitmap = record bg {
  block_bitmap = bitmap;
  free_blocks = bg.free_blocks - num;
  first_free_block =
      if start == bg.first_free_block then (start + num) % 2 ^ 32 else bg.first_free_block;
}

enough_blocks :
    (force : Bool) (bg : BlockGroupInfo) (start num : ℕ)
    → num ≤ bg.free_blocks
    → reserve_blocks force bg start num
      ≡ (reserve_loops force num start bg.block_bitmap >>= reserve_end bg start num)
unfolding reserve_blocks
enough_blocks force bg start num h =
    let test : ltb bg.free_blocks num ≡ false = ground arith in rw test

-- A request for more blocks than the group has free fails and changes nothing.
pub too_few_blocks :
    (force : Bool) (bg : BlockGroupInfo) (start num : ℕ)
    → bg.free_blocks < num
    → reserve_blocks force bg start num ≡ done (failed, bg)
unfolding reserve_blocks
too_few_blocks force bg start num h =
    let test : ltb bg.free_blocks num ≡ true = ground arith in rw test

-- Where the blocks [start, start + num) lie inside of the bitmap, are all free, and the group
-- counts at least as many free blocks, `reserve_blocks` returns 0, sets exactly their bits, takes
-- `num` from the free blocks, and moves the first free block only if it starts there.
pub reserve_blocks-Free :
    (force : Bool) (bg : BlockGroupInfo) (start num : ℕ)
    → Fits force num 0 start bg.block_bitmap
    → num ≤ bg.free_blocks
    → Free bg.block_bitmap start num
    → (bitmap : List ℕ) × Marks bg.block_bitmap bitmap start num
      × (reserve_blocks force bg start num ≡ done (ok, reserved bg start num bitmap))
reserve_blocks-Free force bg start num f h free =
    rw (enough_blocks force bg start num h)
      (go (reserve_loops-Walk force num start bg.block_bitmap f))
  where
    go :
        {r : Run Progress}
        → Walk (λ i block. i ≡ num) force num 0 start bg.block_bitmap r
        → (bitmap : List ℕ) × Marks bg.block_bitmap bitmap start num
          × ((r >>= reserve_end bg start num) ≡ done (ok, reserved bg start num bitmap))
    go (walked j new le fr m stop e) = let all : j ≡ num = omega arith in (new, rw all at m, rw e)
    go (clash k new lo hi bit len e) = absurd (cc (free k lo (omega arith)))

-- Where the range lies inside of the bitmap, the group counts enough free blocks and one block of
-- the range is in use, `reserve_blocks` exits without `force`; with `force` it returns -1 and
-- leaves the counts as they were.
pub reserve_blocks-taken :
    (force : Bool) (bg : BlockGroupInfo) (start num k : ℕ)
    → Fits force num 0 start bg.block_bitmap
    → num ≤ bg.free_blocks
    → start ≤ k
    → k < start + num
    → bit_at bg.block_bitmap k ≡ true
    → (bitmap : List ℕ) × (reserve_blocks force bg start num
        ≡ (error force >> done (failed, record bg { block_bitmap = bitmap })))
reserve_blocks-taken force bg start num k f h lo hi bit =
    rw (enough_blocks force bg start num h)
      (go (reserve_loops-Walk force num start bg.block_bitmap f))
  where
    ends :
        (b : Bool) (new : List ℕ)
        → ((error b >> done (taken new)) >>= reserve_end bg start num)
          ≡ (error b >> done (failed, record bg { block_bitmap = new }))
    ends true new = refl
    ends false new = refl

    go :
        {r : Run Progress}
        → Walk (λ i block. i ≡ num) force num 0 start bg.block_bitmap r
        → (bitmap : List ℕ) × ((r >>= reserve_end bg start num)
            ≡ (error force >> done (failed, record bg { block_bitmap = bitmap })))
    go (walked j new le fr m stop e) = absurd (cc (fr k lo (omega arith)))
    go (clash k new lo hi bit len e) = (new, rw e (ends force new))

-- The blocks of a group that are free are those from `first_free_block` on, as many as
-- `free_blocks` says; the bitmap covers the group's `n` blocks.
pub record IsGroup (n : ℕ) (bg : BlockGroupInfo) : Type 0 where
  pub bytes : IsBytes bg.block_bitmap
  pub covered : n ≤ 8 * length bg.block_bitmap
  pub room : bg.first_free_block + bg.free_blocks ≤ n
  pub small : n < 2 ^ 32 - 8
  pub bits :
      (k : ℕ)
      → k < n
      → bit_at bg.block_bitmap k
        ≡ not (leb bg.first_free_block k && ltb k (bg.first_free_block + bg.free_blocks))

module _ (n : ℕ) (force : Bool) {bg : BlockGroupInfo} (g : IsGroup n bg) (num : ℕ) where
  -- Blocks taken from the front of a well-formed group, no more than it has free: `reserve_blocks`
  -- returns 0 with `force` or without, sets exactly their bits, counts them as used, and leaves the
  -- group well formed.
  pub reserve_blocks-IsGroup :
      num ≤ bg.free_blocks
      → (bitmap : List ℕ) × (reserve_blocks force bg bg.first_free_block num
          ≡ done (ok, reserved bg bg.first_free_block num bitmap))
        × IsGroup n (reserved bg bg.first_free_block num bitmap)
        × Marks bg.block_bitmap bitmap bg.first_free_block num
  reserve_blocks-IsGroup h =
      let (bitmap, m, e) =
        reserve_blocks-Free force bg bg.first_free_block num fits h
          (λ k lo hi. ground (arith, g.bits k)) in
      (
        bitmap,
        e,
        record {
          bytes = m.bytes;
          covered = ground (arith, g.covered, m.same_length);
          room = ground (arith, g.room, g.small);
          small = g.small;
          bits = λ k below. ground (arith, g.bits k, m.bits k, g.room, g.small);
        },
        m,
      )
    where
      fits : Fits force num 0 bg.first_free_block bg.block_bitmap
      fits = record {
        bytes = g.bytes;
        upto = omega arith;
        inside = omega (arith, g.room, g.covered);
        small = omega (arith, g.room, g.small);
        num_small = omega (arith, g.room, g.small);
      }
