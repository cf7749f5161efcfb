-- ===== src/Bitmap/Bits.antt =====
-- One byte of a bitmap, by evaluation at each of its values.
use android_tools.Common.{
  ℕ, zero, suc, ◌%◌, ◌^◌, ◌<◌, ◌≡◌, refl, arith, bit_and, bit_or, Bool, true, false, not, ◌||◌,
  ◌==◌, if◌then◌else◌, all_below, all_below_sound, ltb, ltb→lt, ◌-◌,
}
use android_tools.Bitmap.{is_set}

-- Boolean equality
abbrev same : Bool → Bool → Bool
same true b = b
same false b = not b

same-eq : (a b : Bool) → same a b ≡ true → a ≡ b
same-eq a b h = ground arith

abbrev after_or : ℕ → ℕ → ℕ → Bool
after_or x k j = same (is_set (bit_or x (2 ^ k) % 2 ^ 8) j) (if j == k then true else is_set x j)

or_table : all_below 256 (λ x. all_below 8 (λ k. all_below 8 (after_or x k))) ≡ true
unfolding all_below is_set
or_table = refl

-- `b |= 1 << k` sets bit `k` of a byte, and changes no other.
pub is_set-or :
    (x k j : ℕ)
    → x < 256
    → k < 8
    → j < 8
    → is_set (bit_or x (2 ^ k) % 2 ^ 8) j ≡ (if j == k then true else is_set x j)
is_set-or x k j hx hk hj =
    let row =
      all_below_sound 256 (λ x. all_below 8 (λ k. all_below 8 (after_or x k))) x or_table hx in
    let cell = all_below_sound 8 (λ k. all_below 8 (after_or x k)) k row hk in
    same-eq _ _ (all_below_sound 8 (after_or x k) j cell hj)

-- All bits of the byte 0xFF are set.
pub is_set_ones : (j : ℕ) → j < 8 → is_set 0xFF j ≡ true
unfolding all_below is_set
is_set_ones j h = all_below_sound 8 (is_set 0xFF) j refl h

-- the highest bit below `n` that is set, if there is one
abbrev first_set : ℕ → ℕ → ℕ
first_set zero x = 0
first_set (suc n) x = if is_set x n then n else first_set n x

first_set-lt : (n x : ℕ) → 0 < n → first_set n x < n
first_set-lt zero x h = absurd (omega arith)
first_set-lt (suc zero) x h = ground arith
first_set-lt (suc (suc n)) x h = ground (arith, first_set-lt (suc n) x (omega arith))

set_table : all_below 256 (λ x. x == 0 || is_set x (first_set 8 x)) ≡ true
unfolding all_below is_set
set_table = refl

zero_table : all_below 8 (λ j. not (is_set 0 j)) ≡ true
unfolding all_below is_set
zero_table = refl

-- A byte that is not zero has a bit that is set.
pub is_set_of_ne_zero :
    (x : ℕ) → x < 256 → (x == 0) ≡ false → (j : ℕ) × (j < 8) × (is_set x j ≡ true)
is_set_of_ne_zero x h e = (
  first_set 8 x,
  first_set-lt 8 x (omega arith),
  ground (arith, all_below_sound 256 (λ x. x == 0 || is_set x (first_set 8 x)) x set_table h),
)

pub is_set_zero : (j : ℕ) → j < 8 → is_set 0 j ≡ false
is_set_zero j h = ground (arith, all_below_sound 8 (λ j. not (is_set 0 j)) j zero_table h)

abbrev after_and : ℕ → ℕ → ℕ → Bool
after_and x k j = same (is_set (bit_and x (0xFF - 2 ^ k)) j) (if j == k then false else is_set x j)

and_table : all_below 256 (λ x. all_below 8 (λ k. all_below 8 (after_and x k))) ≡ true
unfolding all_below is_set
and_table = refl

-- `b &= ~(1 << k)` clears bit `k` of a byte, and changes no other.
pub is_set-and :
    (x k j : ℕ)
    → x < 256
    → k < 8
    → j < 8
    → is_set (bit_and x (0xFF - 2 ^ k)) j ≡ (if j == k then false else is_set x j)
is_set-and x k j hx hk hj =
    let row =
      all_below_sound 256 (λ x. all_below 8 (λ k. all_below 8 (after_and x k))) x and_table hx in
    let cell = all_below_sound 8 (λ k. all_below 8 (after_and x k)) k row hk in
    same-eq _ _ (all_below_sound 8 (after_and x k) j cell hj)

byte_table : all_below 256 (λ x. all_below 8 (λ k. ltb (bit_and x (0xFF - 2 ^ k)) 256)) ≡ true
unfolding all_below
byte_table = refl

pub bit_and-byte : (x k : ℕ) → x < 256 → k < 8 → bit_and x (0xFF - 2 ^ k) < 256
bit_and-byte x k hx hk =
    let row =
      all_below_sound 256 (λ x. all_below 8 (λ k. ltb (bit_and x (0xFF - 2 ^ k)) 256)) x byte_table
        hx in
    ltb→lt _ _ (all_below_sound 8 (λ k. ltb (bit_and x (0xFF - 2 ^ k)) 256) k row hk)
