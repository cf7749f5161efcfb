-- ===== src/Group/Reserve.antt =====
-- The three loops of `reserve_blocks` of img-db/ext4_utils/allocate.c.
use android_tools.Common.{
  ℕ, zero, suc, ◌+◌, ◌-◌, ◌*◌, ◌/◌, ◌%◌, ◌^◌, ◌≤◌, ◌<◌, ◌≡◌, refl, arith, Bool, true, false, not,
  ◌&&◌, List, ◌==◌, ltb, leb, length-set, done, ◌>>◌, error, ◌⊎◌, inl, inr, Bool-cases, get_or,
}
use native.Mathlib.Decide.{dec_lt}
use android_tools.Bitmap.{bit_at}
use android_tools.Bitmap.Marks.{
  set_bit_taken, with_bit, set_bit_free, with_bit-Marks, with_byte, set_8_bits_lem, with_byte-Marks,
  byte_zero-Free, byte_ne_zero-bit,
}
use android_tools.Group.{next, taken, after_set, reserve_bits, reserve_bytes, reserve_loops}
use android_tools.Group.Walk.{
  Walk, clash, Fits, Fits-Marks, Free-one, Walk-from, Walk-map, Walk-here, and_then-Walk,
}

module _ (force : Bool) (num : ℕ) where
  module _ (more : ℕ → Bool) where
    abbrev BitsDone : ℕ → ℕ → Type 0
    BitsDone i block = (ltb i num && more block) ≡ false

    reserve_bits_stop :
        (fuel i block : ℕ) (bitmap : List ℕ)
        → (ltb i num && more block) ≡ false
        → reserve_bits force num more (suc fuel) i block bitmap ≡ done (next i block bitmap)
    unfolding reserve_bits
    reserve_bits_stop fuel i block bitmap e = rw (e, reserve_bits)

    reserve_bits_free :
        (fuel i block : ℕ) (bitmap : List ℕ)
        → Fits force num i block bitmap
        → (ltb i num && more block) ≡ true
        → bit_at bitmap block ≡ false
        → reserve_bits force num more (suc fuel) i block bitmap
          ≡ reserve_bits force num more fuel (i + 1) (block + 1) (with_bit bitmap block)
    unfolding reserve_bits
    reserve_bits_free fuel i block bitmap f e bit =
        let below : i < num = ground arith in
        let there : (i + 1) % 2 ^ 32 ≡ i + 1 = omega arith in
        let place : (block + 1) % 2 ^ 32 ≡ block + 1 = omega arith in
        rw (e, reserve_bits, set_bit_free bitmap block (omega arith) bit, there, place)

    reserve_bits_taken :
        (fuel i block : ℕ) (bitmap : List ℕ)
        → Fits force num i block bitmap
        → (ltb i num && more block) ≡ true
        → bit_at bitmap block ≡ true
        → reserve_bits force num more (suc fuel) i block bitmap
          ≡ (error force >> done (taken bitmap))
    unfolding reserve_bits
    reserve_bits_taken fuel i block bitmap f e bit =
        let below : i < num = ground arith in
        rw (e, reserve_bits, set_bit_taken bitmap block (omega arith) bit)

    reserve_bits-Walk :
        (fuel i block : ℕ) (bitmap : List ℕ)
        → num - i < fuel
        → Fits force num i block bitmap
        → Walk BitsDone force num i block bitmap (reserve_bits force num more fuel i block bitmap)
    reserve_bits-Walk zero i block bitmap h f = absurd (omega arith)
    reserve_bits-Walk (suc fuel) i block bitmap h f = elim (Bool-cases (ltb i num && more block)) [
      | inr e ↦ Walk-here force num BitsDone f e (reserve_bits_stop fuel i block bitmap e)
      | inl e ↦
          let below : i < num = ground arith in
          elim (Bool-cases (bit_at bitmap block)) [
            | inl bit ↦
                clash block bitmap (omega arith) (omega arith) bit refl
                  (reserve_bits_taken fuel i block bitmap f e bit)
            | inr bit ↦ rw (reserve_bits_free fuel i block bitmap f e bit) (
                let m = with_bit-Marks bitmap block f.bytes (omega (arith, f.inside)) in
                Walk-from force num BitsDone {j = 1} (omega arith)
                  (Free-one force num bitmap block bit) m
                  (reserve_bits-Walk fuel (i + 1) (block + 1) (with_bit bitmap block) (omega arith)
                    (Fits-Marks force num f (omega arith) m)))
          ]
    ]

  abbrev BytesDone : ℕ → ℕ → Type 0
  BytesDone i block = num / 8 * 8 < i + 8

  reserve_bytes_stop :
      (fuel i block : ℕ) (bitmap : List ℕ)
      → Fits force num i block bitmap
      → num / 8 * 8 < i + 8
      → reserve_bytes force num (suc fuel) i block bitmap ≡ done (next i block bitmap)
  unfolding reserve_bytes
  reserve_bytes_stop fuel i block bitmap f h =
      let test : leb ((i + 8) % 2 ^ 32) (num / 8 * 8) ≡ false = ground arith in
      rw (test, reserve_bytes)

  reserve_bytes_free :
      (fuel i block : ℕ) (bitmap : List ℕ)
      → Fits force num i block bitmap
      → i + 8 ≤ num
      → i + 8 ≤ num / 8 * 8
      → get_or bitmap (block / 8) 0 ≡ 0
      → reserve_bytes force num (suc fuel) i block bitmap
        ≡ reserve_bytes force num fuel (i + 8) (block + 8) (with_byte bitmap block)
  unfolding reserve_bytes
  reserve_bytes_free fuel i block bitmap f le h e =
      let there : (i + 8) % 2 ^ 32 ≡ i + 8 = omega arith in
      let place : (block + 8) % 2 ^ 32 ≡ block + 8 = omega arith in
      let test : leb (i + 8) (num / 8 * 8) ≡ true = ground arith in
      rw (there, test, reserve_bytes, set_8_bits_lem bitmap block (omega arith), e, there, place)

  reserve_bytes_taken :
      (fuel i block : ℕ) (bitmap : List ℕ)
      → Fits force num i block bitmap
      → i + 8 ≤ num
      → i + 8 ≤ num / 8 * 8
      → (get_or bitmap (block / 8) 0 == 0) ≡ false
      → reserve_bytes force num (suc fuel) i block bitmap
        ≡ (error force >> done (taken (with_byte bitmap block)))
  unfolding reserve_bytes
  reserve_bytes_taken fuel i block bitmap f le h e =
      let there : (i + 8) % 2 ^ 32 ≡ i + 8 = omega arith in
      let test : leb (i + 8) (num / 8 * 8) ≡ true = ground arith in
      rw (there, test, reserve_bytes, set_8_bits_lem bitmap block (omega arith)) (rw (e, after_set))

  reserve_bytes-Walk :
      (fuel i block : ℕ) (bitmap : List ℕ)
      → num - i < fuel
      → Fits force num i block bitmap
      → (i ≡ num) ⊎ (block % 8 ≡ 0)
      → Walk BytesDone force num i block bitmap (reserve_bytes force num fuel i block bitmap)
  reserve_bytes-Walk zero i block bitmap h f al = absurd (omega arith)
  reserve_bytes-Walk (suc fuel) i block bitmap h f al = elim (dec_lt (num / 8 * 8) (i + 8)) [
    | yes e ↦ Walk-here force num BytesDone f e (reserve_bytes_stop fuel i block bitmap f e)
    | no more ↦
        let le : i + 8 ≤ num = omega arith in
        let le' : i + 8 ≤ num / 8 * 8 = omega arith in
        let aligned : block % 8 ≡ 0 = omega arith in
        elim (Bool-cases (get_or bitmap (block / 8) 0 == 0)) [
          | inr e ↦
              let (k, lo, hi, bit) = byte_ne_zero-bit bitmap block f.bytes aligned e in
              clash k (with_byte bitmap block) lo (omega arith) bit (length-set bitmap _ _)
                (reserve_bytes_taken fuel i block bitmap f le le' e)
          | inl e ↦
              let zero_byte : get_or bitmap (block / 8) 0 ≡ 0 = ground arith in
              let m = with_byte-Marks bitmap block f.bytes (omega (arith, f.inside)) aligned in
              rw (reserve_bytes_free fuel i block bitmap f le le' zero_byte) (
                Walk-from force num BytesDone {j = 8} le
                  (byte_zero-Free bitmap block aligned zero_byte) m
                  (reserve_bytes-Walk fuel (i + 8) (block + 8) (with_byte bitmap block)
                    (omega arith) (Fits-Marks force num f le m) (inr (omega arith))))
        ]
  ]

  pub reserve_loops-Walk :
      (start : ℕ) (bitmap : List ℕ)
      → Fits force num 0 start bitmap
      → Walk (λ i block. i ≡ num) force num 0 start bitmap (reserve_loops force num start bitmap)
  unfolding reserve_loops
  reserve_loops-Walk start bitmap f =
      and_then-Walk force num (BitsDone (λ block. not (block % 8 == 0))) (λ i block. i ≡ num) _ f
        (reserve_bits-Walk _ (suc num) 0 start bitmap (omega arith) f)
        λ i block new f stop.
          and_then-Walk force num BytesDone (λ i block. i ≡ num) _ f
            (reserve_bytes-Walk (suc num) i block new (omega arith) f
              (head_stop i block f.upto stop))
            λ i block new f stop. tail i block new f
    where
      head_stop :
          (i block : ℕ)
          → i ≤ num
          → (ltb i num && not (block % 8 == 0)) ≡ false
          → (i ≡ num) ⊎ (block % 8 ≡ 0)
      head_stop i block h e = ground arith

      tail :
          (i block : ℕ) (new : List ℕ)
          → Fits force num i block new
          → Walk
              (λ i block. i ≡ num)
              force
              num
              i
              block
              new
              (reserve_bits force num (λ _. true) (suc num) i block new)
      tail i block new f =
          Walk-map force num (BitsDone (λ _. true)) (λ i block. i ≡ num)
            (λ i block h e. ground arith)
            (reserve_bits-Walk (λ _. true) (suc num) i block new (omega arith) f)
