-- ===== src/Group/Walk.antt =====
-- The loops of `reserve_blocks`, one round after the other.
use android_tools.Common.{
  ℕ, ◌+◌, ◌-◌, ◌*◌, ◌^◌, ◌≤◌, ◌<◌, ◌≡◌, refl, ap, arith, Bool, true, false, List, length, IsBytes,
  Run, done, ◌>>◌, error, ◌∙◌,
}
use native.Mathlib.Decide.{dec_lt}
use android_tools.Bitmap.{bit_at}
use android_tools.Bitmap.Marks.{Free, Marks, Marks-none, Marks-trans}
use android_tools.Group.{Progress, next, taken, and_then}

-- How a loop of `reserve_blocks` goes on from `i`, `block` and a bitmap: it takes `j` blocks, all
-- of them free, or it meets one of the blocks left to take that is not free.
pub data Walk (Stop : ℕ → ℕ → Type 0) (force : Bool) (num i block : ℕ) (bitmap : List ℕ)
    (r : Run Progress) : Type 0 where
  walked :
      (j : ℕ) (new : List ℕ)
      → i + j ≤ num
      → Free bitmap block j
      → Marks bitmap new block j
      → Stop (i + j) (block + j)
      → r ≡ done (next (i + j) (block + j) new)
      → Walk Stop force num i block bitmap r
  clash :
      (k : ℕ) (new : List ℕ)
      → block ≤ k
      → k < block + (num - i)
      → bit_at bitmap k ≡ true
      → length new ≡ length bitmap
      → r ≡ (error force >> done (taken new))
      → Walk Stop force num i block bitmap r

module _ (force : Bool) (num : ℕ) where
  -- the blocks that are left to take lie in the bitmap, and no number wraps
  pub record Fits (i block : ℕ) (bitmap : List ℕ) : Type 0 where
    pub bytes : IsBytes bitmap
    pub upto : i ≤ num
    pub inside : block + (num - i) ≤ 8 * length bitmap
    pub small : block + (num - i) < 2 ^ 32 - 8
    pub num_small : num < 2 ^ 32 - 8

  pub Fits-Marks :
      {i block j : ℕ} {old new : List ℕ}
      → Fits i block old
      → i + j ≤ num
      → Marks old new block j
      → Fits (i + j) (block + j) new
  Fits-Marks f h m = record {
    bytes = m.bytes;
    upto = h;
    inside = ground (arith, f.inside, m.same_length);
    small = omega arith;
    num_small = f.num_small;
  }

  pub Free-one : (bitmap : List ℕ) (block : ℕ) → bit_at bitmap block ≡ false → Free bitmap block 1
  Free-one bitmap block e k lo hi = let same : k ≡ block = omega arith in rw same e

  -- A walk after `j` blocks is a walk from the start.
  pub Walk-from :
      (Stop : ℕ → ℕ → Type 0) {i block j : ℕ} {old new : List ℕ} {r : Run Progress}
      → i + j ≤ num
      → Free old block j
      → Marks old new block j
      → Walk Stop force num (i + j) (block + j) new r
      → Walk Stop force num i block old r
  Walk-from Stop {i} {block} {j} h free m (walked k last le f ms stop e) =
      let there : i + j + k ≡ i + (j + k) = omega arith in
      let place : block + j + k ≡ block + (j + k) = omega arith in
      walked (j + k) last (omega arith)
        (λ x lo hi. elim (dec_lt x (block + j)) [
          | yes p ↦ free x lo p
          | no p ↦ ground (arith, f x, m.bits x)
        ])
        (Marks-trans m ms) (rw (← there, ← place) stop) (rw (← there, ← place) e)
  Walk-from Stop {i} {block} {j} h free m (clash k last lo hi bit len e) =
      clash k last (omega arith) (omega arith) (ground (arith, m.bits k)) (len ∙ m.same_length) e

  pub Walk-map :
      (Stop Last : ℕ → ℕ → Type 0) {i block : ℕ} {bitmap : List ℕ} {r : Run Progress}
      → ((i' block' : ℕ) → i' ≤ num → Stop i' block' → Last i' block')
      → Walk Stop force num i block bitmap r
      → Walk Last force num i block bitmap r
  Walk-map Stop Last g (walked j new h free m stop e) = walked j new h free m (g _ _ h stop) e
  Walk-map Stop Last g (clash k new lo hi bit len e) = clash k new lo hi bit len e

  -- A walk that has not begun.
  pub Walk-here :
      (Stop : ℕ → ℕ → Type 0) {i block : ℕ} {bitmap : List ℕ} {r : Run Progress}
      → Fits i block bitmap
      → Stop i block
      → r ≡ done (next i block bitmap)
      → Walk Stop force num i block bitmap r
  Walk-here Stop {i} {block} {bitmap} f stop e =
      let there : i ≡ i + 0 = omega arith in
      let place : block ≡ block + 0 = omega arith in
      walked 0 bitmap (omega (arith, f.upto)) (λ k lo hi. absurd (omega arith))
        (Marks-none bitmap block f.bytes) (rw (← there, ← place) stop) (rw (← there, ← place) e)

  and_then-taken :
      (bitmap : List ℕ) (k : ℕ → ℕ → List ℕ → Run Progress)
      → and_then (error force >> done (taken bitmap)) k ≡ (error force >> done (taken bitmap))
  and_then-taken bitmap k =
      elim force
        as (λ b. and_then (error b >> done (taken bitmap)) k ≡ (error b >> done (taken bitmap))) [
          | true ↦ refl
          | false ↦ refl
        ]

  -- One loop after the other.
  pub and_then-Walk :
      (Stop Last : ℕ → ℕ → Type 0) {i block : ℕ} {bitmap : List ℕ} {r : Run Progress}
      (k : ℕ → ℕ → List ℕ → Run Progress)
      → Fits i block bitmap
      → Walk Stop force num i block bitmap r
      → ((i' block' : ℕ) (new : List ℕ)
          → Fits i' block' new
          → Stop i' block'
          → Walk Last force num i' block' new (k i' block' new))
      → Walk Last force num i block bitmap (and_then r k)
  and_then-Walk Stop Last k f (walked j new h free m stop e) rest =
      rw e (Walk-from Last h free m (rest _ _ new (Fits-Marks f h m) stop))
  and_then-Walk Stop Last k f (clash x new lo hi bit len e) rest =
      clash x new lo hi bit len (ap (λ r. and_then r k) e ∙ and_then-taken new k)
