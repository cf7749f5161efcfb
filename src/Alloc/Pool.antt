-- ===== src/Alloc/Pool.antt =====
-- The groups that blocks are taken from: all well formed, and with block numbers that fit.
use android_tools.Common.{
  ℕ, zero, suc, ◌+◌, ◌-◌, ◌^◌, ◌<◌, ◌≡◌, refl, ap, arith, [], ◌∷◌, Option, none, some, get_elem?,
  set, length,
}
use mathlib.Core.Option.{some-injective}
use android_tools.Group.{BlockGroupInfo}
use android_tools.Group.Blocks.{IsGroup}
use android_tools.Alloc.{Groups}

-- A group whose block numbers stay below the mark of a failure.
abbrev pub IsSource : ℕ → BlockGroupInfo → Type 0
IsSource n bg = IsGroup n bg × (bg.first_block + n < 2 ^ 32 - 1)

abbrev pub IsPool : ℕ → Groups → Type 0
IsPool n [] = Unit {0}
IsPool n (bg ∷ bgs) = IsSource n bg × IsPool n bgs

pub IsPool-get_elem? :
    (n : ℕ) (bgs : Groups) (i : ℕ) {bg : BlockGroupInfo}
    → IsPool n bgs
    → get_elem? bgs i ≡ some bg
    → IsSource n bg
IsPool-get_elem? n [] i p e = cc
IsPool-get_elem? n (b ∷ bgs) zero p e = rw (some-injective _ _ e) at p.0
IsPool-get_elem? n (b ∷ bgs) (suc i) p e = IsPool-get_elem? n bgs i p.1 e

pub IsPool-set :
    (n : ℕ) (bgs : Groups) (i : ℕ) (bg : BlockGroupInfo)
    → IsPool n bgs
    → IsSource n bg
    → IsPool n (set bgs i bg)
IsPool-set n [] i bg p s = tt
IsPool-set n (b ∷ bgs) zero bg p s = (s, p.1)
IsPool-set n (b ∷ bgs) (suc i) bg p s = (p.0, IsPool-set n bgs i bg p.1 s)

-- the blocks that are free in all groups together
unfoldable pub total_free : Groups → ℕ
total_free [] = 0
total_free (bg ∷ bgs) = bg.free_blocks + total_free bgs

pub total_free-set :
    (bgs : Groups) (i : ℕ) {bg : BlockGroupInfo} (new : BlockGroupInfo)
    → get_elem? bgs i ≡ some bg
    → total_free (set bgs i new) + bg.free_blocks ≡ total_free bgs + new.free_blocks
unfolding total_free
total_free-set [] i new e = cc
total_free-set (b ∷ bgs) zero new e = omega (arith, ap free_of e)
  where
    free_of : Option BlockGroupInfo → ℕ
    free_of none = 0
    free_of (some g) = g.free_blocks
total_free-set (b ∷ bgs) (suc i) new e = omega (arith, total_free-set bgs i new e)

pub get_elem?-lt :
    (bgs : Groups) (i : ℕ) → i < length bgs → (bg : BlockGroupInfo) × (get_elem? bgs i ≡ some bg)
get_elem?-lt [] i h = absurd (omega arith)
get_elem?-lt (b ∷ bgs) zero h = (b, refl)
get_elem?-lt (b ∷ bgs) (suc i) h = get_elem?-lt bgs i (omega arith)
