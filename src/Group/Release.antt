-- ===== src/Group/Release.antt =====
-- `free_blocks` of img-db/ext4_utils/allocate.c, and its loop.
use android_tools.Common.{
  ℕ, zero, suc, ◌+◌, ◌-◌, ◌*◌, ◌%◌, ◌^◌, ◌≤◌, ◌<◌, ◌≡◌, refl, arith, Bool, List, length, IsBytes,
  done, ◌∙◌,
}
use android_tools.Bitmap.{bit_at}
use android_tools.Bitmap.Marks.{
  Clears, Clears-none, Clears-trans, without_bit, clear_bit_lem, without_bit-Clears,
}
use android_tools.Group.{BlockGroupInfo, ok, reserve_blocks, clear_blocks, free_blocks}
use android_tools.Group.Blocks.{IsGroup, reserved, reserve_blocks-IsGroup}

clear_blocks-suc :
    (left s : ℕ) (bitmap : List ℕ)
    → s + suc left ≤ 8 * length bitmap
    → s + suc left < 2 ^ 32
    → clear_blocks (suc left) ((s + suc left + 2 ^ 32 - 1) % 2 ^ 32) bitmap
      ≡ clear_blocks left ((s + left + 2 ^ 32 - 1) % 2 ^ 32) (without_bit bitmap (s + left))
unfolding clear_blocks
clear_blocks-suc left s bitmap fits small =
    let place : (s + suc left + 2 ^ 32 - 1) % 2 ^ 32 ≡ s + left = omega arith in
    rw (place, clear_bit_lem bitmap (s + left) (omega arith))

-- The loop clears the `left` bits below `s + left`.
clear_blocks-Clears :
    (left s : ℕ) (bitmap : List ℕ)
    → IsBytes bitmap
    → s + left ≤ 8 * length bitmap
    → s + left < 2 ^ 32
    → (new : List ℕ) × (clear_blocks left ((s + left + 2 ^ 32 - 1) % 2 ^ 32) bitmap ≡ done new)
      × Clears bitmap new s left
clear_blocks-Clears zero s bitmap b fits small =
    (bitmap, unfold clear_blocks in refl, Clears-none bitmap s b)
clear_blocks-Clears (suc left) s bitmap b fits small =
    let first = without_bit-Clears bitmap (s + left) b (omega arith) in
    let (new, e, rest) =
      clear_blocks-Clears left s (without_bit bitmap (s + left)) first.bytes
        (omega (arith, first.same_length)) (omega arith) in
    let count : left + 1 ≡ suc left = omega arith in
    (new, clear_blocks-suc left s bitmap fits small ∙ e, rw count at (Clears-trans first rest))

-- The group `bg` with its last `num` blocks given back.
abbrev pub released : BlockGroupInfo → ℕ → List ℕ → BlockGroupInfo
released bg num bitmap = record bg {
  block_bitmap = bitmap;
  free_blocks = bg.free_blocks + num;
  first_free_block = bg.first_free_block - num;
}

-- In a well-formed group, `free_blocks` of no more blocks than lie below the first free one stays
-- inside of the bitmap, adds them to the free blocks of the group, and keeps the group well formed.
pub free_blocks-IsGroup :
    (n : ℕ) {bg : BlockGroupInfo}
    → IsGroup n bg
    → (num : ℕ) → num ≤ bg.first_free_block
    → (bitmap : List ℕ) × (free_blocks bg num ≡ done (released bg num bitmap))
      × IsGroup n (released bg num bitmap)
unfolding free_blocks
free_blocks-IsGroup n {bg} g num h =
    let low = bg.first_free_block - num in
    let top : low + num ≡ bg.first_free_block = omega arith in
    let (bitmap, e, c) =
      clear_blocks-Clears num low bg.block_bitmap g.bytes (omega (arith, g.room, g.covered))
        (omega (arith, g.room, g.small)) in
    let e' : clear_blocks num ((bg.first_free_block + 2 ^ 32 - 1) % 2 ^ 32) bg.block_bitmap
        ≡ done bitmap =
      rw top at e in
    let count : (bg.free_blocks + num) % 2 ^ 32 ≡ bg.free_blocks + num =
      omega (arith, g.room, g.small) in
    let first : (bg.first_free_block + 2 ^ 32 - num) % 2 ^ 32 ≡ low =
      omega (arith, g.room, g.small) in
    (
      bitmap,
      rw (e', count, first),
      record {
        bytes = c.bytes;
        covered = ground (arith, g.covered, c.same_length);
        room = omega (arith, g.room);
        small = g.small;
        bits = λ k below. ground (arith, g.bits k, c.bits k, g.room);
      },
    )

-- Blocks that are taken from the front of a well-formed group, no more than it has free, and then
-- given back by `free_blocks`: both calls succeed, and the counts and every bit of the group's
-- blocks are as before.
pub free_blocks-reserve_blocks :
    (n : ℕ) (force : Bool) {bg : BlockGroupInfo}
    → IsGroup n bg
    → (num : ℕ) → num ≤ bg.free_blocks
    → (taken : BlockGroupInfo) × (back : BlockGroupInfo) × (reserve_blocks force bg
          bg.first_free_block num
        ≡ done (ok, taken))
      × (free_blocks taken num ≡ done back)
      × (back.free_blocks ≡ bg.free_blocks)
      × (back.first_free_block ≡ bg.first_free_block)
      × ((k : ℕ) → k < n → bit_at back.block_bitmap k ≡ bit_at bg.block_bitmap k)
free_blocks-reserve_blocks n force {bg} g num h =
    let (bitmap, e, g', m) = reserve_blocks-IsGroup n force g num h in
    let first : (reserved bg bg.first_free_block num bitmap).first_free_block
        ≡ bg.first_free_block + num =
      ground (arith, g.room, g.small) in
    let (bitmap', e', g'') = free_blocks-IsGroup n g' num (omega (arith, first)) in
    let count : bg.free_blocks - num + num ≡ bg.free_blocks = omega arith in
    let place : (reserved bg bg.first_free_block num bitmap).first_free_block - num
        ≡ bg.first_free_block =
      omega (arith, first) in
    (_, _, e, e', count, place, λ k below. ground (arith, g.bits k, g''.bits k, count, place))
