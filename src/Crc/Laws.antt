-- ===== src/Crc/Laws.antt =====
-- The CRC of img-db/ext4_utils/sparse_crc32.c against the division by its polynomial, bit by bit.
use android_tools.Common.{
  ℕ, zero, suc, ◌+◌, ◌*◌, ◌/◌, ◌%◌, ◌^◌, ◌<◌, ◌≡◌, refl, ap, ap₂, sym, ◌∙◌, arith, IsBytes, bit_xor,
  List, [], ◌∷◌, ◌++◌, get_or, ◌==◌, ==_iff, if◌then◌else◌, all_below, all_below_sound,
}
use android_tools.Common.Bits.{
  bit_xor_comm, bit_xor_assoc, bit_xor_cancel, half-bit_xor, parity-bit_xor, bit_and_byte,
  bit_xor-lt, mul-two_pow, bit_xor_fields,
}
use android_tools.Crc.{crc32_tab, all_ones, crc_step, crc_loop, sparse_crc32}

-- The polynomial $edb88320 that the source's comment names.
abbrev pub polynomial : ℕ
polynomial = 0xedb88320

-- The shift register takes one step: the lowest bit is shifted out, and feeds back if it is set.
unfoldable pub shift_bit : ℕ → ℕ
shift_bit x = if x % 2 == 1 then bit_xor (x / 2) polynomial else x / 2

unfoldable pub shift_bits : ℕ → ℕ → ℕ
unfolding shift_bit
shift_bits zero x = x
shift_bits (suc n) x = shift_bits n (shift_bit x)

-- One byte after the other, with no table.
unfoldable pub crc_bits : ℕ → List ℕ → ℕ
unfolding shift_bits
crc_bits crc [] = crc
crc_bits crc (p ∷ buf) = crc_bits (shift_bits 8 (bit_xor crc p)) buf

tab-shift_bits : (x : ℕ) → x < 256 → get_or crc32_tab x 0 ≡ shift_bits 8 x
unfolding crc32_tab shift_bits all_below
tab-shift_bits x h =
    (==_iff _ _).0 (all_below_sound 256 (λ k. get_or crc32_tab k 0 == shift_bits 8 k) x refl h)

swap_inner : (a b m : ℕ) → bit_xor (bit_xor a m) b ≡ bit_xor (bit_xor a b) m
swap_inner a b m =
    bit_xor_assoc a m b ∙ (ap (bit_xor a) (bit_xor_comm m b) ∙ sym (bit_xor_assoc a b m))

-- The register is linear over exclusive or.
shift_bit-bit_xor : (a b : ℕ) → shift_bit (bit_xor a b) ≡ bit_xor (shift_bit a) (shift_bit b)
unfolding shift_bit
shift_bit-bit_xor a b = ground (
  arith,
  half-bit_xor a b,
  parity-bit_xor a b,
  swap_inner (a / 2) (b / 2) polynomial,
  bit_xor_assoc (a / 2) (b / 2) polynomial,
  bit_xor_assoc (bit_xor (a / 2) polynomial) (b / 2) polynomial,
  bit_xor_cancel (bit_xor (a / 2) (b / 2)) polynomial,
)

shift_bits-bit_xor :
    (n a b : ℕ) → shift_bits n (bit_xor a b) ≡ bit_xor (shift_bits n a) (shift_bits n b)
unfolding shift_bits
shift_bits-bit_xor zero a b = refl
shift_bits-bit_xor (suc n) a b =
    ap (shift_bits n) (shift_bit-bit_xor a b) ∙ shift_bits-bit_xor n (shift_bit a) (shift_bit b)

shift_bit-double : (a : ℕ) → shift_bit (2 * a) ≡ a
unfolding shift_bit
shift_bit-double a = ground arith

-- Zero bits shift out and leave no trace.
shift_bits-mul : (n a : ℕ) → shift_bits n (a * 2 ^ n) ≡ a
unfolding shift_bits
shift_bits-mul zero a = omega arith
shift_bits-mul (suc n) a =
    ap (shift_bits n) (ap shift_bit (mul-two_pow a n) ∙ shift_bit-double (a * 2 ^ n))
    ∙ shift_bits-mul n a

-- A byte shifts through the register by one entry of the table.
shift_bits-split : (x : ℕ) → shift_bits 8 x ≡ bit_xor (get_or crc32_tab (x % 256) 0) (x / 256)
shift_bits-split x =
    let split : bit_xor (x / 256 * 2 ^ 8) (x % 256) ≡ x =
      omega (arith, bit_xor_fields 8 (x / 256) (x % 256) (omega arith)) in
    ap (shift_bits 8) (sym split)
    ∙ (shift_bits-bit_xor 8 (x / 256 * 2 ^ 8) (x % 256)
        ∙ (ap₂ bit_xor (shift_bits-mul 8 (x / 256)) (sym (tab-shift_bits (x % 256) (omega arith)))
            ∙ bit_xor_comm (x / 256) (get_or crc32_tab (x % 256) 0)))

high-bit_xor : (a p : ℕ) → p < 256 → bit_xor a p / 256 ≡ a / 256
high-bit_xor a p h =
    let q = a / 256 in
    let r = a % 256 in
    omega (
      arith,
      ap (λ (t : ℕ). bit_xor t p) (bit_xor_fields 8 q r (omega arith)),
      bit_xor_assoc (q * 256) r p,
      bit_xor_fields 8 q (bit_xor r p) (bit_xor-lt 8 r p (omega arith) h),
      bit_xor-lt 8 r p (omega arith) h,
      ap (λ (t : ℕ). bit_xor t p) {x = q * 256 + r} {y = a} (omega arith),
    )

crc_step-eq-bits : (crc p : ℕ) → p < 256 → crc_step crc p ≡ shift_bits 8 (bit_xor crc p)
unfolding crc_step
crc_step-eq-bits crc p h =
    ap₂ bit_xor (ap (λ k. get_or crc32_tab k 0) (bit_and_byte (bit_xor crc p)))
      (sym (high-bit_xor crc p h))
    ∙ sym (shift_bits-split (bit_xor crc p))

crc_loop-eq-bits : (crc : ℕ) (buf : List ℕ) → IsBytes buf → crc_loop crc buf ≡ crc_bits crc buf
unfolding crc_loop crc_bits
crc_loop-eq-bits crc [] h = refl
crc_loop-eq-bits crc (p ∷ buf) h =
    crc_loop-eq-bits (crc_step crc p) buf h.1
    ∙ ap (λ c. crc_bits c buf) (crc_step-eq-bits crc p h.0)

-- On bytes, the table-driven `sparse_crc32` is the bitwise CRC-32 of the reflected polynomial
-- 0xedb88320, with the register inverted before and after.
pub sparse_crc32-eq-bits :
    (crc_in : ℕ) (buf : List ℕ)
    → IsBytes buf
    → sparse_crc32 crc_in buf ≡ bit_xor (crc_bits (bit_xor crc_in all_ones) buf) all_ones
unfolding sparse_crc32
sparse_crc32-eq-bits crc_in buf h =
    ap (λ c. bit_xor c all_ones) (crc_loop-eq-bits (bit_xor crc_in all_ones) buf h)

pub crc_loop-append :
    (crc : ℕ) (xs ys : List ℕ) → crc_loop crc (xs ++ ys) ≡ crc_loop (crc_loop crc xs) ys
unfolding crc_loop
crc_loop-append crc [] ys = refl
crc_loop-append crc (x ∷ xs) ys = crc_loop-append (crc_step crc x) xs ys

-- The checksum of two chunks, the second started from the result of the first, is the checksum of
-- their concatenation, wherever the data is cut.
pub sparse_crc32-append :
    (crc : ℕ) (xs ys : List ℕ) → sparse_crc32 (sparse_crc32 crc xs) ys ≡ sparse_crc32 crc (xs ++ ys)
unfolding sparse_crc32
sparse_crc32-append crc xs ys =
    let start = bit_xor crc all_ones in
    ap (λ c. bit_xor (crc_loop c ys) all_ones) (bit_xor_cancel (crc_loop start xs) all_ones)
    ∙ ap (λ c. bit_xor c all_ones) (sym (crc_loop-append start xs ys))
