-- ===== src/Crc/Bounds.antt =====
-- The CRC of img-db/ext4_utils/sparse_crc32.c stays within 32 bits.
use android_tools.Common.{
  ℕ, ◌/◌, ◌^◌, ◌<◌, ◌≡◌, refl, arith, bit_xor, bit_and, List, [], ◌∷◌, get_or, ltb, all_below,
  all_below_sound, true,
}
use android_tools.Common.Bits.{bit_and_byte, bit_xor-lt}
use android_tools.Crc.{crc32_tab, all_ones, crc_step, crc_loop, sparse_crc32}

tab-lt : (x : ℕ) → x < 256 → get_or crc32_tab x 0 < 2 ^ 32
unfolding crc32_tab all_below
tab-lt x h =
    let small : ltb (get_or crc32_tab x 0) (2 ^ 32) ≡ true =
      all_below_sound 256 (λ k. ltb (get_or crc32_tab k 0) (2 ^ 32)) x refl h in
    ground arith

crc_step-lt : (crc p : ℕ) → crc < 2 ^ 32 → crc_step crc p < 2 ^ 32
unfolding crc_step
crc_step-lt crc p small =
    bit_xor-lt 32 (get_or crc32_tab (bit_and (bit_xor crc p) 0xFF) 0) (crc / 2 ^ 8)
      (tab-lt (bit_and (bit_xor crc p) 0xFF) (omega (arith, bit_and_byte (bit_xor crc p))))
      (omega arith)

crc_loop-lt : (crc : ℕ) (buf : List ℕ) → crc < 2 ^ 32 → crc_loop crc buf < 2 ^ 32
unfolding crc_loop
crc_loop-lt crc [] small = small
crc_loop-lt crc (p ∷ buf) small = crc_loop-lt (crc_step crc p) buf (crc_step-lt crc p small)

-- Started from a value of 32 bits, `sparse_crc32` gives a value of 32 bits, whatever numbers stand
-- in the buffer.
pub sparse_crc32-lt : (crc : ℕ) (buf : List ℕ) → crc < 2 ^ 32 → sparse_crc32 crc buf < 2 ^ 32
unfolding sparse_crc32
sparse_crc32-lt crc buf small =
    bit_xor-lt 32 (crc_loop (bit_xor crc all_ones) buf) all_ones
      (crc_loop-lt (bit_xor crc all_ones) buf (bit_xor-lt 32 crc all_ones small (omega arith)))
      (omega arith)
