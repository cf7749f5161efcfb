-- ===== src/Alloc/Single.antt =====
-- `allocate_block` against `ext4_allocate_contiguous_blocks`.
use android_tools.Common.{
  ℕ, zero, suc, ◌+◌, ◌≡◌, refl, Bool, true, false, Option, none, some, ◌==◌, length, Run, done,
  exited, fault, out_of_fuel, ◌>>=◌, Bool-cases, inl, inr,
}
use android_tools.Group.{allocate_failed}
use android_tools.Alloc.{
  Groups, Region, allocate_from_group, contiguous_from, allocate_contiguous_blocks, block_from,
  allocate_block,
}

-- the first block of a region, or the mark of a failure
abbrev pub first_block_of : Option Region → ℕ
first_block_of none = allocate_failed
first_block_of (some reg) = reg.block

abbrev pub as_block : Option Region × Groups → Run (ℕ × Groups)
as_block (reg, bgs) = done (first_block_of reg, bgs)

block_from-contiguous_from :
    (force : Bool) (left i : ℕ) (bgs : Groups)
    → block_from force left i bgs ≡ (contiguous_from force 1 left i bgs >>= as_block)
unfolding block_from contiguous_from
block_from-contiguous_from force zero i bgs = refl
block_from-contiguous_from force (suc left) i bgs =
    go (allocate_from_group force bgs 1 i) (block_from-contiguous_from force left (i + 1))
  where
    go :
        (r : Run (ℕ × Groups))
        → ((bgs : Groups)
            → block_from force left (i + 1) bgs
              ≡ (contiguous_from force 1 left (i + 1) bgs >>= as_block))
        → (r >>= λ r. elim (r.0 == allocate_failed) [
          | true ↦ block_from force left (i + 1) r.1
          | false ↦ done r
        ])
          ≡ (r
              >>= (λ r. elim (r.0 == allocate_failed) [
                | true ↦ contiguous_from force 1 left (i + 1) r.1
                | false ↦ done (some (record { block = r.0; len = 1; bg = i }), r.1)
              ])
              >>= as_block)
    go (done (block, bgs')) ih = elim (Bool-cases (block == allocate_failed)) [
      | inl lost ↦ rw (lost, ◌>>=◌) (ih bgs')
      | inr kept ↦ rw (kept, ◌>>=◌) refl
    ]
    go exited ih = refl
    go fault ih = refl
    go out_of_fuel ih = refl

-- `allocate_block` does what a request of `ext4_allocate_contiguous_blocks` for one block does, on
-- any groups and with `force` or without: it returns the first block of the region, or the mark of
-- a failure in place of NULL, leaves the same groups, and exits or faults where the other does.
pub allocate_block-eq-contiguous :
    (force : Bool) (bgs : Groups)
    → allocate_block force bgs ≡ (allocate_contiguous_blocks force 1 bgs >>= as_block)
unfolding allocate_block allocate_contiguous_blocks
allocate_block-eq-contiguous force bgs = block_from-contiguous_from force (length bgs) 0 bgs
