-- ===== src/Common/Bits.antt =====
-- Laws of `&`, `|` and `^` at variables, each from one equation for the lowest binary digit.
use Prim.Native.Nat.{
  ℕ, zero, suc, ◌+◌, ◌-◌, ◌*◌, ◌/◌, ◌%◌, ◌^◌, ◌≤◌, ◌<◌, min, max, bit_and, bit_or, bit_xor, digits,
  bitwise, differ, bit_and-bitwise, bit_or-bitwise, bit_xor-bitwise,
}
use mathlib.Core.Path.{◌≡◌, refl, ap, ◌∙◌}
use mathlib.Core.WellFounded
use native.Mathlib.Nat.{le_refl, pow-suc, div-div-eq-div-mul}
use native.Mathlib.Omega.{arith}
use android_tools.Common.Order.{lt_wf}

-- `digits` is the same with any two amounts of fuel that its first number does not exceed.
module _ (rest : ℕ → ℕ) (digit : ℕ → ℕ → ℕ) where
  fuel_irrelevant :
      (x y fuel more : ℕ)
      → x ≤ fuel
      → x ≤ more
      → digits rest digit fuel x y ≡ digits rest digit more x y
  fuel_irrelevant zero y zero zero under over = refl
  fuel_irrelevant zero y zero (suc more) under over = refl
  fuel_irrelevant zero y (suc fuel) zero under over = refl
  fuel_irrelevant zero y (suc fuel) (suc more) under over = refl
  fuel_irrelevant (suc x) y zero more under over = absurd (omega arith)
  fuel_irrelevant (suc x) y (suc fuel) zero under over = absurd (omega arith)
  fuel_irrelevant (suc x) y (suc fuel) (suc more) under over =
      let half : suc x / 2 ≤ x = omega arith in
      rw (fuel_irrelevant (suc x / 2) (y / 2) fuel more (omega arith) (omega arith))

  bitwise-suc :
      (x y : ℕ)
      → bitwise rest digit (suc x) y
        ≡ digit (suc x % 2) (y % 2) + 2 * bitwise rest digit (suc x / 2) (y / 2)
  bitwise-suc x y =
      let half : suc x / 2 ≤ x = omega arith in
      omega (arith, fuel_irrelevant (suc x / 2) (y / 2) x (suc x / 2) half (le_refl _))

pub bit_and_step : (x y : ℕ) → bit_and x y ≡ bit_and (x / 2) (y / 2) * 2 + min (x % 2) (y % 2)
bit_and_step zero y = simp bit_and-bitwise (omega arith)
bit_and_step (suc x) y = simp bit_and-bitwise (omega (arith, bitwise-suc (λ y. 0) min x y))

differ-parity : (x y : ℕ) → x < 2 → y < 2 → differ x y ≡ (x + y) % 2
differ-parity zero zero h k = refl
differ-parity zero (suc zero) h k = refl
differ-parity (suc zero) zero h k = refl
differ-parity (suc zero) (suc zero) h k = refl
differ-parity (suc (suc x)) y h k = absurd (omega arith)
differ-parity zero (suc (suc y)) h k = absurd (omega arith)
differ-parity (suc zero) (suc (suc y)) h k = absurd (omega arith)

pub bit_or_step : (x y : ℕ) → bit_or x y ≡ bit_or (x / 2) (y / 2) * 2 + max (x % 2) (y % 2)
bit_or_step zero y = simp bit_or-bitwise (omega arith)
bit_or_step (suc x) y = simp bit_or-bitwise (omega (arith, bitwise-suc (λ y. y) max x y))

pub bit_xor_step : (x y : ℕ) → bit_xor x y ≡ bit_xor (x / 2) (y / 2) * 2 + (x + y) % 2
bit_xor_step zero y = simp bit_xor-bitwise (omega arith)
bit_xor_step (suc x) y = simp bit_xor-bitwise (
    omega (
      arith,
      bitwise-suc (λ y. y) differ x y,
      differ-parity (suc x % 2) (y % 2) (omega arith) (omega arith),
    ))

pub zero-bit_xor : (y : ℕ) → bit_xor 0 y ≡ y
zero-bit_xor y = bit_xor-bitwise 0 y

pub bit_xor-zero : (x : ℕ) → bit_xor x 0 ≡ x
bit_xor-zero x = WellFounded.induction lt_wf {C = λ v. bit_xor v 0 ≡ v} x halved
  where
    halved : (v : ℕ) → ((w : ℕ) → w < v → bit_xor w 0 ≡ w) → bit_xor v 0 ≡ v
    halved zero lower = refl
    halved (suc v) lower = omega (arith, bit_xor_step (suc v) 0, lower (suc v / 2) (omega arith))

pub bit_xor_comm : (x y : ℕ) → bit_xor x y ≡ bit_xor y x
bit_xor_comm x = WellFounded.induction lt_wf {C = λ v. (y : ℕ) → bit_xor v y ≡ bit_xor y v} x halved
  where
    halved :
        (v : ℕ)
        → ((w : ℕ) → w < v → (y : ℕ) → bit_xor w y ≡ bit_xor y w)
        → (y : ℕ) → bit_xor v y ≡ bit_xor y v
    halved zero lower y = omega (arith, zero-bit_xor y, bit_xor-zero y)
    halved (suc v) lower y = omega (
      arith,
      bit_xor_step (suc v) y,
      bit_xor_step y (suc v),
      lower (suc v / 2) (omega arith) (y / 2),
    )

-- The halves and the lowest digit of an exclusive or.
pub half-bit_xor : (x y : ℕ) → bit_xor x y / 2 ≡ bit_xor (x / 2) (y / 2)
half-bit_xor x y = omega (arith, bit_xor_step x y)

pub parity-bit_xor : (x y : ℕ) → bit_xor x y % 2 ≡ (x + y) % 2
parity-bit_xor x y = omega (arith, bit_xor_step x y)

pub bit_xor_assoc : (x y c : ℕ) → bit_xor (bit_xor x y) c ≡ bit_xor x (bit_xor y c)
bit_xor_assoc x =
    WellFounded.induction lt_wf
      {C = λ v. (y c : ℕ) → bit_xor (bit_xor v y) c ≡ bit_xor v (bit_xor y c)} x halved
  where
    halved :
        (v : ℕ)
        → ((w : ℕ) → w < v → (y c : ℕ) → bit_xor (bit_xor w y) c ≡ bit_xor w (bit_xor y c))
        → (y c : ℕ) → bit_xor (bit_xor v y) c ≡ bit_xor v (bit_xor y c)
    halved zero lower y c = rw (zero-bit_xor y, zero-bit_xor (bit_xor y c))
    halved (suc v) lower y c = ground (
      arith,
      bit_xor_step (bit_xor (suc v) y) c,
      bit_xor_step (suc v) (bit_xor y c),
      half-bit_xor (suc v) y,
      parity-bit_xor (suc v) y,
      half-bit_xor y c,
      parity-bit_xor y c,
      lower (suc v / 2) (omega arith) (y / 2) (c / 2),
    )

pub bit_xor_self : (x : ℕ) → bit_xor x x ≡ 0
bit_xor_self x = WellFounded.induction lt_wf {C = λ v. bit_xor v v ≡ 0} x halved
  where
    halved : (v : ℕ) → ((w : ℕ) → w < v → bit_xor w w ≡ 0) → bit_xor v v ≡ 0
    halved zero lower = refl
    halved (suc v) lower =
        omega (arith, bit_xor_step (suc v) (suc v), lower (suc v / 2) (omega arith))

-- Applying a mask twice gives the value back.
pub bit_xor_cancel : (x w : ℕ) → bit_xor (bit_xor x w) w ≡ x
bit_xor_cancel x w = bit_xor_assoc x w w ∙ (ap (bit_xor x) (bit_xor_self w) ∙ bit_xor-zero x)

-- An exclusive or needs no more digits than its operands.
pub bit_xor-lt : (k x y : ℕ) → x < 2 ^ k → y < 2 ^ k → bit_xor x y < 2 ^ k
bit_xor-lt zero x y p hi = ground (arith, bit_xor_self 0)
bit_xor-lt (suc k) x y p hi = omega (
  arith,
  pow-suc 2 k,
  bit_xor_step x y,
  bit_xor-lt k (x / 2) (y / 2) (omega (arith, pow-suc 2 k)) (omega (arith, pow-suc 2 k)),
)

-- A mask of low ones keeps a remainder.
bit_and-zero : (x : ℕ) → bit_and x 0 ≡ 0
bit_and-zero x = WellFounded.induction lt_wf {C = λ v. bit_and v 0 ≡ 0} x halved
  where
    halved : (v : ℕ) → ((w : ℕ) → w < v → bit_and w 0 ≡ 0) → bit_and v 0 ≡ 0
    halved zero lower = refl
    halved (suc v) lower = omega (arith, bit_and_step (suc v) 0, lower (suc v / 2) (omega arith))

bit_and_fifteen : (x : ℕ) → bit_and x 15 ≡ x % 16
bit_and_fifteen x = omega (
  arith,
  bit_and_step x 15,
  bit_and_step (x / 2) 7,
  bit_and_step (x / 2 / 2) 3,
  bit_and_step (x / 2 / 2 / 2) 1,
  bit_and-zero (x / 2 / 2 / 2 / 2),
)

pub bit_and_byte : (x : ℕ) → bit_and x 255 ≡ x % 256
bit_and_byte x = omega (
  arith,
  bit_and_step x 255,
  bit_and_step (x / 2) 127,
  bit_and_step (x / 2 / 2) 63,
  bit_and_step (x / 2 / 2 / 2) 31,
  bit_and_fifteen (x / 2 / 2 / 2 / 2),
)

pub mul-two_pow : (hi k : ℕ) → hi * 2 ^ suc k ≡ 2 * (hi * 2 ^ k)
mul-two_pow hi k = omega (arith, ap (λ (t : ℕ). hi * t) (pow-suc 2 k))

-- `(q << k) ^ r` and `(q << k) | r` are sums when `r` fits `k` bits.
pub bit_xor_fields : (k hi lo : ℕ) → lo < 2 ^ k → bit_xor (hi * 2 ^ k) lo ≡ hi * 2 ^ k + lo
bit_xor_fields zero hi lo small = ground (arith, bit_xor-zero hi)
bit_xor_fields (suc k) hi lo small = ground (
  arith,
  bit_xor_step (hi * 2 ^ suc k) lo,
  mul-two_pow hi k,
  bit_xor_fields k hi (lo / 2) (omega (arith, pow-suc 2 k)),
)

pub two_pow-add : (j k : ℕ) → 2 ^ (j + k) ≡ 2 ^ j * 2 ^ k
two_pow-add zero k = omega (arith, ap (λ (t : ℕ). 2 ^ t) {x = 0 + k} {y = k} (omega arith))
two_pow-add (suc j) k =
    let sum : suc j + k ≡ suc (j + k) = omega arith in
    rw sum
      (omega (arith, pow-suc 2 (j + k), two_pow-add j k, ap (λ (t : ℕ). t * 2 ^ k) (pow-suc 2 j)))

pub two_pow_pos : (k : ℕ) → 0 < 2 ^ k
two_pow_pos zero = omega arith
two_pow_pos (suc k) = omega (arith, pow-suc 2 k, two_pow_pos k)

-- A mask of `j` low ones keeps a number of `j` bits.
pub bit_and_ones : (j x : ℕ) → x < 2 ^ j → bit_and x (2 ^ j - 1) ≡ x
bit_and_ones zero x small = ground (arith, bit_and-zero x)
bit_and_ones (suc j) x small =
    let half : (2 ^ suc j - 1) / 2 ≡ 2 ^ j - 1 = omega (arith, pow-suc 2 j, two_pow_pos j) in
    let odd : (2 ^ suc j - 1) % 2 ≡ 1 = omega (arith, pow-suc 2 j, two_pow_pos j) in
    let next = bit_and_ones j (x / 2) (omega (arith, pow-suc 2 j)) in
    bit_and_step x (2 ^ suc j - 1) ∙ rw (half, odd, next) (omega arith)

-- A mask that ends in `k` zeros clears `k` low bits.
pub bit_and_high : (k m x : ℕ) → bit_and x (m * 2 ^ k) ≡ bit_and (x / 2 ^ k) m * 2 ^ k
bit_and_high zero m x = omega (
  arith,
  ap (bit_and x) {x = m * 2 ^ 0} {y = m} (omega arith),
  ap (λ (t : ℕ). bit_and t m) {x = x / 2 ^ 0} {y = x} (omega arith),
)
bit_and_high (suc k) m x =
    let half : m * 2 ^ suc k / 2 ≡ m * 2 ^ k = omega (arith, mul-two_pow m k) in
    let even : m * 2 ^ suc k % 2 ≡ 0 = omega (arith, mul-two_pow m k) in
    let down : x / 2 / 2 ^ k ≡ x / 2 ^ suc k =
      div-div-eq-div-mul x 2 (2 ^ k)
      ∙ ap (λ (t : ℕ). x / t) {x = 2 * 2 ^ k} {y = 2 ^ suc k} (omega (arith, pow-suc 2 k)) in
    let next = bit_and_high k m (x / 2) in
    bit_and_step x (m * 2 ^ suc k)
    ∙ rw (half, even, next, down) (omega (arith, mul-two_pow (bit_and (x / 2 ^ suc k) m) k))
