-- ===== src/Alloc/Hang.antt =====
-- The case that `ext4_allocate_multiple_contiguous_blocks` does not reckon with: the group that
-- `ext4_allocate_partial` comes to has no free block, and is handed out as a region of no blocks.
use android_tools.Common.{
  ℕ, zero, suc, ◌+◌, ◌-◌, ◌≤◌, ◌<◌, ◌≡◌, ◌≢◌, refl, ap, sym, ◌∙◌, arith, Bool, false, List, [], ◌∷◌,
  ◌++◌, some, ◌==◌, leb, get_elem?, length, done, out_of_fuel, ◌>>=◌, get_elem?-set_self,
  get_elem?-set_ne,
}
use mathlib.Core.Option.{some-injective}
use native.Mathlib.Decide.{ℕ_discrete}
use android_tools.Fs.{u32}
use android_tools.Group.{BlockGroupInfo, allocate_failed}
use android_tools.Alloc.{Groups, Region, partial_at, partial_from, allocate_partial, multiple_loop}
use android_tools.Alloc.Pool.{IsPool, get_elem?-lt}
use android_tools.Alloc.Take.{Taken-IsPool, allocate_from_group-Taken}
use android_tools.Alloc.Spread.{in_range, partial_from-hit, partial_from-miss}
use android_tools.Alloc.Total.{loop_part}

-- The first group with no data block is group `i`, and has no free block.
pub record Stuck (i : ℕ) (bgs : Groups) : Type 0 where
  pub here : BlockGroupInfo
  pub at : get_elem? bgs i ≡ some here
  pub idle : here.data_blocks_used ≡ 0
  pub empty : here.free_blocks ≡ 0
  pub before :
      (j : ℕ) (bg : BlockGroupInfo) → j < i → get_elem? bgs j ≡ some bg → bg.data_blocks_used ≢ 0

module _ (n : ℕ) (force : Bool) (len i : ℕ) where
  reach :
      (left k : ℕ) (bgs : Groups)
      → (s : Stuck i bgs) → k ≤ i
      → i < k + left
      → partial_from force len left k bgs ≡ partial_at force len i s.here bgs
  reach zero k bgs s lo hi = absurd (omega arith)
  reach (suc left) k bgs s lo hi = elim (ℕ_discrete k i) [
    | yes e ↦ rw e (partial_from-hit n force len left i bgs s.at s.idle)
    | no ne ↦
        let (bg, at) = get_elem?-lt bgs k (omega (arith, in_range bgs i s.at)) in
        partial_from-miss n force len left k bgs at (s.before k bg (omega arith) at)
        ∙ reach left (k + 1) bgs s (omega arith) (omega arith)
  ]

  -- The round of the loop: a region of no blocks, and the same situation again.
  round :
      (bgs : Groups)
      → (s : Stuck i bgs) → 0 < len
      → IsPool n bgs
      → (block : ℕ) × (bgs' : Groups) × (allocate_partial force len bgs
          ≡ done (some (record { block = block; len = 0; bg = i }), bgs'))
        × Stuck i bgs'
        × IsPool n bgs'
  unfolding allocate_partial partial_at
  round bgs s pos p =
      let (block, bgs', run, t) =
        allocate_from_group-Taken n force bgs s.here.free_blocks i p s.at (omega arith) in
      let ne : (block == allocate_failed) ≡ false = ground (arith, t.below) in
      let same : t.old ≡ s.here = some-injective _ _ (sym t.at ∙ s.at) in
      let test : leb len s.here.free_blocks ≡ false = ground (arith, s.empty) in
      let size : u32 (t.old.data_blocks_used + s.here.free_blocks) ≡ 0 =
        rw (same, s.idle, s.empty) refl in
      (
        block,
        bgs',
        reach (length bgs) 0 bgs s (omega arith) (omega (arith, in_range bgs i s.at))
            ∙ rw (test, run) (rw (ne, ◌>>=◌, s.empty) refl),
        record {
          here = t.new;
          at = rw t.result (get_elem?-set_self bgs i t.new (in_range bgs i s.at));
          idle = t.used ∙ size;
          empty = omega (arith, t.free, s.empty, ap (λ g. g.free_blocks) same);
          before = λ j bg lt e.
              s.before j bg lt
                (sym (get_elem?-set_ne bgs t.new (λ e. omega arith)) ∙ rw t.result at e);
        },
        Taken-IsPool p t,
      )

module _ (n : ℕ) (force : Bool) (i : ℕ) where
  -- In a pool of well-formed groups whose first group without a data block has no free block, a
  -- request for at least one block makes the loop of `ext4_allocate_multiple_contiguous_blocks` use
  -- up any amount of fuel.
  pub multiple_loop-hangs :
      (fuel len : ℕ) (regs : List Region) (bgs : Groups)
      → Stuck i bgs
      → 0 < len
      → IsPool n bgs
      → multiple_loop force fuel len regs bgs ≡ out_of_fuel
  multiple_loop-hangs zero len regs bgs s pos p = unfold multiple_loop in refl
  multiple_loop-hangs (suc fuel) len regs bgs s pos p =
      let (block, bgs', run, s', p') = round n force len i bgs s pos p in
      let reg : Region = record { block = block; len = 0; bg = i } in
      loop_part n force fuel len regs bgs reg bgs' pos run
      ∙ multiple_loop-hangs fuel (len - 0) (regs ++ (reg ∷ [])) bgs' s' (omega arith) p'
