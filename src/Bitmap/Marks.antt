-- ===== src/Bitmap/Marks.antt =====
-- What the bitmap operations do to the bits of the whole bitmap.
use android_tools.Common.{
  ℕ, ◌+◌, ◌-◌, ◌/◌, ◌%◌, ◌^◌, ◌≤◌, ◌<◌, ◌≡◌, refl, arith, bit_or, bit_and, true, false, ◌&&◌, List,
  ◌==◌, if◌then◌else◌, ltb, leb, length, get_or, set, IsBytes, IsBytes-set, IsBytes-get_or,
  length-set, get_or-set_self, get_or-set_ne, get_elem?-eq-get_or, done, ◌∙◌,
}
use native.Mathlib.Decide.{ℕ_discrete}
use android_tools.Bitmap.{bitmap_set_bit, bitmap_set_8_bits, bitmap_clear_bit, bit_at}
use android_tools.Bitmap.Bits.{
  is_set-or, is_set-and, bit_and-byte, is_set_ones, is_set_of_ne_zero, is_set_zero,
}

-- The bits [s, s + n) are clear.
abbrev pub Free : List ℕ → ℕ → ℕ → Type 0
Free bitmap s n = (k : ℕ) → s ≤ k → k < s + n → bit_at bitmap k ≡ false

-- `new` is `old` with the bits [s, s + n) set.
pub record Marks (old new : List ℕ) (s n : ℕ) : Type 0 where
  pub same_length : length new ≡ length old
  pub bytes : IsBytes new
  pub bits : (k : ℕ) → bit_at new k ≡ (if leb s k && ltb k (s + n) then true else bit_at old k)

pub Marks-none : (bitmap : List ℕ) (s : ℕ) → IsBytes bitmap → Marks bitmap bitmap s 0
Marks-none bitmap s h = record { same_length = refl; bytes = h; bits = λ k. ground arith }

-- Adjacent ranges, one after the other.
pub Marks-trans :
    {a b c : List ℕ} {s n m : ℕ} → Marks a b s n → Marks b c (s + n) m → Marks a c s (n + m)
Marks-trans p q = record {
  same_length = q.same_length ∙ p.same_length;
  bytes = q.bytes;
  bits = λ k. ground (arith, p.bits k, q.bits k);
}

pub set_bit_taken :
    (bitmap : List ℕ) (bit : ℕ)
    → bit / 8 < length bitmap
    → bit_at bitmap bit ≡ true
    → bitmap_set_bit bitmap bit ≡ done (1, bitmap)
unfolding bitmap_set_bit bit_at
set_bit_taken bitmap bit h e = ground (arith, get_elem?-eq-get_or bitmap (bit / 8) 0)

abbrev pub with_bit : List ℕ → ℕ → List ℕ
with_bit bitmap bit =
    set bitmap (bit / 8) (bit_or (get_or bitmap (bit / 8) 0) (2 ^ (bit % 8)) % 2 ^ 8)

pub set_bit_free :
    (bitmap : List ℕ) (bit : ℕ)
    → bit / 8 < length bitmap
    → bit_at bitmap bit ≡ false
    → bitmap_set_bit bitmap bit ≡ done (0, with_bit bitmap bit)
unfolding bitmap_set_bit bit_at
set_bit_free bitmap bit h e = ground (arith, get_elem?-eq-get_or bitmap (bit / 8) 0)

bit_at-with_bit :
    (bitmap : List ℕ) (bit k : ℕ)
    → IsBytes bitmap
    → bit / 8 < length bitmap
    → bit_at (with_bit bitmap bit) k
      ≡ (if leb bit k && ltb k (bit + 1) then true else bit_at bitmap k)
unfolding bit_at
bit_at-with_bit bitmap bit k b h = elim (ℕ_discrete (bit / 8) (k / 8)) [
  | yes e ↦ ground (
    arith,
    get_or-set_self bitmap (bit / 8) byte 0 h,
    is_set-or (get_or bitmap (bit / 8) 0) (bit % 8) (k % 8) (IsBytes-get_or bitmap (bit / 8) b),
  )
  | no ne ↦ ground (arith, get_or-set_ne bitmap (bit / 8) (k / 8) byte 0 ne)
]
  where
    byte : ℕ
    byte = bit_or (get_or bitmap (bit / 8) 0) (2 ^ (bit % 8)) % 2 ^ 8

-- Setting one bit marks a range of one.
pub with_bit-Marks :
    (bitmap : List ℕ) (bit : ℕ)
    → IsBytes bitmap
    → bit / 8 < length bitmap
    → Marks bitmap (with_bit bitmap bit) bit 1
with_bit-Marks bitmap bit b h = record {
  same_length = length-set bitmap (bit / 8) _;
  bytes = IsBytes-set bitmap (bit / 8) _ b (omega arith);
  bits = λ k. bit_at-with_bit bitmap bit k b h;
}

abbrev pub with_byte : List ℕ → ℕ → List ℕ
with_byte bitmap bit = set bitmap (bit / 8) 0xFF

pub set_8_bits_lem :
    (bitmap : List ℕ) (bit : ℕ)
    → bit / 8 < length bitmap
    → bitmap_set_8_bits bitmap bit ≡ done (get_or bitmap (bit / 8) 0, with_byte bitmap bit)
unfolding bitmap_set_8_bits
set_8_bits_lem bitmap bit h = ground (arith, get_elem?-eq-get_or bitmap (bit / 8) 0)

-- At a multiple of eight, setting the byte marks a range of eight.
pub with_byte-Marks :
    (bitmap : List ℕ) (bit : ℕ)
    → IsBytes bitmap
    → bit / 8 < length bitmap
    → bit % 8 ≡ 0
    → Marks bitmap (with_byte bitmap bit) bit 8
unfolding bit_at
with_byte-Marks bitmap bit b h aligned = record {
  same_length = length-set bitmap (bit / 8) 0xFF;
  bytes = IsBytes-set bitmap (bit / 8) 0xFF b (omega arith);
  bits = λ k. elim (ℕ_discrete (bit / 8) (k / 8)) [
    | yes e ↦
        ground (arith, get_or-set_self bitmap (bit / 8) 0xFF 0 h, is_set_ones (k % 8) (omega arith))
    | no ne ↦ ground (arith, get_or-set_ne bitmap (bit / 8) (k / 8) 0xFF 0 ne)
  ];
}

-- The byte at a multiple of eight is zero exactly where its eight bits are clear.
pub byte_zero-Free :
    (bitmap : List ℕ) (bit : ℕ) → bit % 8 ≡ 0 → get_or bitmap (bit / 8) 0 ≡ 0 → Free bitmap bit 8
unfolding bit_at
byte_zero-Free bitmap bit aligned e k lo hi =
    let same : k / 8 ≡ bit / 8 = omega arith in rw (same, e) (is_set_zero (k % 8) (omega arith))

pub byte_ne_zero-bit :
    (bitmap : List ℕ) (bit : ℕ)
    → IsBytes bitmap
    → bit % 8 ≡ 0
    → (get_or bitmap (bit / 8) 0 == 0) ≡ false
    → (k : ℕ) × (bit ≤ k) × (k < bit + 8) × (bit_at bitmap k ≡ true)
unfolding bit_at
byte_ne_zero-bit bitmap bit b aligned e =
    let (j, small, found) = is_set_of_ne_zero _ (IsBytes-get_or bitmap (bit / 8) b) e in
    let here : (bit + j) / 8 ≡ bit / 8 = omega arith in
    let place : (bit + j) % 8 ≡ j = omega arith in
    (bit + j, omega arith, omega arith, rw (here, place) found)

-- `new` is `old` with the bits [s, s + n) cleared.
pub record Clears (old new : List ℕ) (s n : ℕ) : Type 0 where
  pub same_length : length new ≡ length old
  pub bytes : IsBytes new
  pub bits : (k : ℕ) → bit_at new k ≡ (if leb s k && ltb k (s + n) then false else bit_at old k)

pub Clears-none : (bitmap : List ℕ) (s : ℕ) → IsBytes bitmap → Clears bitmap bitmap s 0
Clears-none bitmap s h = record { same_length = refl; bytes = h; bits = λ k. ground arith }

-- Downwards: the upper range first.
pub Clears-trans :
    {a b c : List ℕ} {s n m : ℕ} → Clears a b (s + n) m → Clears b c s n → Clears a c s (n + m)
Clears-trans p q = record {
  same_length = q.same_length ∙ p.same_length;
  bytes = q.bytes;
  bits = λ k. ground (arith, p.bits k, q.bits k);
}

abbrev pub without_bit : List ℕ → ℕ → List ℕ
without_bit bitmap bit =
    set bitmap (bit / 8) (bit_and (get_or bitmap (bit / 8) 0) (0xFF - 2 ^ (bit % 8)))

pub clear_bit_lem :
    (bitmap : List ℕ) (bit : ℕ)
    → bit / 8 < length bitmap
    → bitmap_clear_bit bitmap bit ≡ done (without_bit bitmap bit)
unfolding bitmap_clear_bit
clear_bit_lem bitmap bit h = ground (arith, get_elem?-eq-get_or bitmap (bit / 8) 0)

bit_at-without_bit :
    (bitmap : List ℕ) (bit k : ℕ)
    → IsBytes bitmap
    → bit / 8 < length bitmap
    → bit_at (without_bit bitmap bit) k
      ≡ (if leb bit k && ltb k (bit + 1) then false else bit_at bitmap k)
unfolding bit_at
bit_at-without_bit bitmap bit k b h = elim (ℕ_discrete (bit / 8) (k / 8)) [
  | yes e ↦ ground (
    arith,
    get_or-set_self bitmap (bit / 8) byte 0 h,
    is_set-and (get_or bitmap (bit / 8) 0) (bit % 8) (k % 8) (IsBytes-get_or bitmap (bit / 8) b),
  )
  | no ne ↦ ground (arith, get_or-set_ne bitmap (bit / 8) (k / 8) byte 0 ne)
]
  where
    byte : ℕ
    byte = bit_and (get_or bitmap (bit / 8) 0) (0xFF - 2 ^ (bit % 8))

pub without_bit-Clears :
    (bitmap : List ℕ) (bit : ℕ)
    → IsBytes bitmap
    → bit / 8 < length bitmap
    → Clears bitmap (without_bit bitmap bit) bit 1
without_bit-Clears bitmap bit b h = record {
  same_length = length-set bitmap (bit / 8) _;
  bytes =
      IsBytes-set bitmap (bit / 8) _ b
        (bit_and-byte _ (bit % 8) (IsBytes-get_or bitmap (bit / 8) b) (omega arith));
  bits = λ k. bit_at-without_bit bitmap bit k b h;
}
