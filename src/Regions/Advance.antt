-- ===== src/Regions/Advance.antt =====
-- The position in an allocation: `advance_blocks` within a region.
use android_tools.Common.{
  ℕ, zero, suc, ◌+◌, ◌^◌, ◌<◌, ◌≡◌, refl, ap, ◌∙◌, arith, true, some, ltb, get_elem?, done, ◌>>=◌,
}
use android_tools.Fs.{u32}
use android_tools.Group.{ok}
use android_tools.Regions.{
  Node, Heap, at_node, Allocation, RegionList, is_positive, advance_from, advance_blocks, block_in,
  get_block,
}

advance_from-inside :
    (fuel : ℕ) (h : Heap) (list : RegionList) (a : ℕ) (n : Node) (blocks : ℕ)
    → get_elem? h a ≡ some n
    → blocks < 2 ^ 31
    → list.partial_iter + blocks < n.len
    → n.len < 2 ^ 32
    → advance_from (suc fuel) h list (some a) blocks
      ≡ done (ok, record list { partial_iter = list.partial_iter + blocks })
unfolding advance_from
advance_from-inside fuel h list a n zero at small inside fits =
    ap (λ (t : ℕ). done (ok, record list { partial_iter = t })) {x = list.partial_iter}
      {y = list.partial_iter + 0} (omega arith)
advance_from-inside fuel h list a n (suc blocks) at small inside fits =
    let positive : is_positive (suc blocks) ≡ true = ground arith in
    let sum : u32 (list.partial_iter + suc blocks) ≡ list.partial_iter + suc blocks = omega arith in
    let within : ltb (list.partial_iter + suc blocks) n.len ≡ true = ground arith in
    rw (positive, advance_from) (rw (at, at_node) (rw (sum, within) (rw sum refl)))

-- Within the current region, whose length fits 32 bits, `advance_blocks` by `blocks`, which fits an
-- `int`, returns 0, and `get_block` of any block afterwards is `get_block` before of the block
-- `blocks` further on.
pub advance_blocks-get_block :
    (fuel : ℕ) (h : Heap) (alloc : Allocation) (a : ℕ) (n : Node) (blocks i : ℕ)
    → alloc.list.iter ≡ some a
    → get_elem? h a ≡ some n
    → blocks < 2 ^ 31
    → alloc.list.partial_iter + blocks < n.len
    → n.len < 2 ^ 32
    → (alloc' : Allocation) × (advance_blocks (suc fuel) h alloc blocks ≡ done (ok, alloc'))
      × (get_block (suc fuel) h alloc' i ≡ get_block (suc fuel) h alloc (i + blocks))
unfolding advance_blocks get_block
advance_blocks-get_block fuel h alloc a n blocks i e at small inside fits =
    let run =
      ap (λ p. advance_from (suc fuel) h alloc.list p blocks) e
      ∙ advance_from-inside fuel h alloc.list a n blocks at small inside fits in
    (
      record alloc { list = record alloc.list { partial_iter = alloc.list.partial_iter + blocks } },
      ap (λ m. m >>= λ r. done (r.0, record alloc { list = r.1 })) run,
      ap (λ (t : ℕ). block_in (suc fuel) h alloc.list.iter (u32 t))
          {x = i + (alloc.list.partial_iter + blocks)} {y = i + blocks + alloc.list.partial_iter}
          (omega arith),
    )
