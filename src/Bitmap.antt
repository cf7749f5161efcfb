-- ===== src/Bitmap.antt =====
-- The bitmap operations of img-db/ext4_utils/allocate.c. A bitmap is its list of bytes.
pub mod Bits
pub mod Marks
use android_tools.Common.{
  ℕ, ◌-◌, ◌/◌, ◌%◌, ◌^◌, bit_and, bit_or, Bool, not, List, none, some, ◌==◌, if◌then◌else◌,
  get_elem?, get_or, set, Run, done, fault,
}

-- `x & 1 << k`, as a test
unfoldable pub is_set : ℕ → ℕ → Bool
is_set x k = not (bit_and x (2 ^ k) == 0)

-- `bitmap_set_bit`: what it returns, and the bitmap it leaves.
unfoldable pub bitmap_set_bit : List ℕ → ℕ → Run (ℕ × List ℕ)
bitmap_set_bit bitmap bit = elim (get_elem? bitmap (bit / 8)) [
  | none ↦ fault
  | some b ↦
      if is_set b (bit % 8)
      then done (1, bitmap)
      else done (0, set bitmap (bit / 8) (bit_or b (2 ^ (bit % 8)) % 2 ^ 8))
]

-- `bitmap_set_8_bits`
unfoldable pub bitmap_set_8_bits : List ℕ → ℕ → Run (ℕ × List ℕ)
bitmap_set_8_bits bitmap bit = elim (get_elem? bitmap (bit / 8)) [
  | none ↦ fault
  | some ret ↦ done (ret, set bitmap (bit / 8) 0xFF)
]

-- bit `k` of a bitmap
unfoldable pub bit_at : List ℕ → ℕ → Bool
bit_at bitmap k = is_set (get_or bitmap (k / 8) 0) (k % 8)

-- `bitmap[bit / 8] &= ~(1 << (bit % 8))`: of the mask only the low byte meets the byte.
unfoldable pub bitmap_clear_bit : List ℕ → ℕ → Run (List ℕ)
bitmap_clear_bit bitmap bit = elim (get_elem? bitmap (bit / 8)) [
  | none ↦ fault
  | some b ↦ done (set bitmap (bit / 8) (bit_and b (0xFF - 2 ^ (bit % 8))))
]
