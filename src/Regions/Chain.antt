-- ===== src/Regions/Chain.antt =====
-- The blocks of an allocation, as a sequence: the regions on the heap, one after another.
use android_tools.Common.{
  ℕ, zero, suc, ◌+◌, ◌-◌, ◌^◌, ◌≤◌, ◌<◌, ◌≡◌, refl, ap, sym, ◌∙◌, arith, Bool, true, false, List,
  [], ◌∷◌, ◌++◌, Option, none, some, ltb, get_elem?, get_or, length, length-append, map, length-map,
  done,
}
use native.Mathlib.Decide.{dec_lt}
use mathlib.Core.List.{append_assoc}
use android_tools.Fs.{u32}
use android_tools.Group.{allocate_failed}
use android_tools.Alloc.{Groups, Region, do_allocate}
use android_tools.Regions.{
  Node, Heap, at_node, Allocation, linked, allocate_blocks, create_allocation, block_in, get_block,
  count_blocks, block_allocation_len,
}

-- From `p` on, the list on the heap holds the regions, each as its first block and its length.
abbrev pub Chain : Heap → Option ℕ → List (ℕ × ℕ) → Type 0
Chain h p [] = p ≡ none
Chain h p (r ∷ rs) =
    (a : ℕ) × (n : Node) × (p ≡ some a)
    × (get_elem? h a ≡ some n)
    × (n.block ≡ r.0)
    × (n.len ≡ r.1)
    × Chain h n.next rs

abbrev pub range : ℕ → ℕ → List ℕ
range b zero = []
range b (suc len) = b ∷ range (b + 1) len

-- The numbers of all blocks, in order.
abbrev pub blocks_of : List (ℕ × ℕ) → List ℕ
blocks_of [] = []
blocks_of (r ∷ rs) = range r.0 r.1 ++ blocks_of rs

-- The numbers of all blocks fit 32 bits.
abbrev pub AreNumbers : List (ℕ × ℕ) → Type 0
AreNumbers [] = Unit {0}
AreNumbers (r ∷ rs) = (r.0 + r.1 ≤ 2 ^ 32) × AreNumbers rs

pub length-range : (b len : ℕ) → length (range b len) ≡ len
length-range b zero = refl
length-range b (suc len) = ap suc (length-range (b + 1) len)

pub get_or-range :
    (b len i : ℕ) (rest : List ℕ) (d : ℕ) → i < len → get_or (range b len ++ rest) i d ≡ b + i
get_or-range b zero i rest d h = absurd (omega arith)
get_or-range b (suc len) zero rest d h = omega arith
get_or-range b (suc len) (suc i) rest d h =
    get_or-range (b + 1) len i rest d (omega arith) ∙ omega arith

pub get_or-behind :
    (b len i : ℕ) (rest : List ℕ) (d : ℕ)
    → len ≤ i
    → get_or (range b len ++ rest) i d ≡ get_or rest (i - len) d
get_or-behind b zero i rest d h = ap (λ (t : ℕ). get_or rest t d) (omega arith)
get_or-behind b (suc len) zero rest d h = absurd (omega arith)
get_or-behind b (suc len) (suc i) rest d h =
    get_or-behind (b + 1) len i rest d (omega arith) ∙ ap (λ (t : ℕ). get_or rest t d) (omega arith)

pub block_in-Chain :
    (fuel : ℕ) (h : Heap) (p : Option ℕ) (rs : List (ℕ × ℕ)) (i : ℕ)
    → length rs ≤ fuel
    → Chain h p rs
    → AreNumbers rs
    → block_in fuel h p i ≡ done (get_or (blocks_of rs) i allocate_failed)
unfolding block_in
block_in-Chain fuel h p [] i few e v = rw e refl
block_in-Chain zero h p (r ∷ rs) i few c v = absurd (omega arith)
block_in-Chain (suc fuel) h p (r ∷ rs) i few (a, n, e, at, block, len, c) v = elim (dec_lt i r.1) [
  | yes lt ↦
      let inside : ltb i n.len ≡ true = ground (arith, len) in
      let number : u32 (n.block + i) ≡ r.0 + i = omega (arith, block, v.0) in
      let here = sym (get_or-range r.0 r.1 i (blocks_of rs) allocate_failed lt) in
      rw e (rw (at, at_node) (rw (inside, number) (ap done here)))
  | no ge ↦
      let behind : ltb i n.len ≡ false = ground (arith, len) in
      let rest : i - n.len ≡ i - r.1 = omega (arith, len) in
      let next =
        block_in-Chain fuel h n.next rs (i - r.1) (omega arith) c v.1
        ∙ ap done (sym (get_or-behind r.0 r.1 i (blocks_of rs) allocate_failed (omega arith))) in
      rw e (rw (at, at_node) (rw (behind, rest) next))
]

count_blocks-Chain :
    (fuel : ℕ) (h : Heap) (p : Option ℕ) (rs : List (ℕ × ℕ)) (i : ℕ)
    → length rs ≤ fuel
    → Chain h p rs
    → i + length (blocks_of rs) < 2 ^ 32
    → count_blocks fuel h p i ≡ done (i + length (blocks_of rs))
unfolding count_blocks
count_blocks-Chain fuel h p [] i few e fits = rw e (ap done (omega arith))
count_blocks-Chain zero h p (r ∷ rs) i few c fits = absurd (omega arith)
count_blocks-Chain (suc fuel) h p (r ∷ rs) i few (a, n, e, at, block, len, c) fits =
    let whole : length (blocks_of (r ∷ rs)) ≡ r.1 + length (blocks_of rs) =
      length-append (range r.0 r.1) (blocks_of rs) ∙ omega (arith, length-range r.0 r.1) in
    let sum : u32 (i + n.len) ≡ i + r.1 = omega (arith, len, whole, fits) in
    let next =
      count_blocks-Chain fuel h n.next rs (i + r.1) (omega arith) c (omega (arith, whole, fits))
      ∙ ap done (omega (arith, whole)) in
    rw e (rw (at, at_node) (rw sum next))

pub get_block-Chain :
    (fuel : ℕ) (h : Heap) (alloc : Allocation) (rs : List (ℕ × ℕ)) (i : ℕ)
    → length rs ≤ fuel
    → Chain h alloc.list.iter rs
    → AreNumbers rs
    → i + alloc.list.partial_iter < 2 ^ 32
    → get_block fuel h alloc i
      ≡ done (get_or (blocks_of rs) (i + alloc.list.partial_iter) allocate_failed)
unfolding get_block
get_block-Chain fuel h alloc rs i few c v fits =
    let sum : u32 (i + alloc.list.partial_iter) ≡ i + alloc.list.partial_iter = omega arith in
    rw sum (block_in-Chain fuel h alloc.list.iter rs (i + alloc.list.partial_iter) few c v)

-- On an allocation whose list holds regions with fewer than `2 ^ 32` blocks in all, and fuel for as
-- many regions, `block_allocation_len` is the length of the sequence of their blocks.
pub block_allocation_len-Chain :
    (fuel : ℕ) (h : Heap) (alloc : Allocation) (rs : List (ℕ × ℕ))
    → length rs ≤ fuel
    → Chain h alloc.list.first rs
    → length (blocks_of rs) < 2 ^ 32
    → block_allocation_len fuel h alloc ≡ done (length (blocks_of rs))
unfolding block_allocation_len
block_allocation_len-Chain fuel h alloc rs few c fits =
    count_blocks-Chain fuel h alloc.list.first rs 0 few c (omega arith) ∙ ap done (omega arith)

abbrev pub extent_of : Region → ℕ × ℕ
extent_of r = (r.block, r.len)

pub get_elem?-append : (xs ys : Heap) → get_elem? (xs ++ ys) (length xs) ≡ get_elem? ys 0
get_elem?-append [] ys = refl
get_elem?-append (x ∷ xs) ys = get_elem?-append xs ys

pub length-snoc : (h : Heap) (n : Node) → length (h ++ (n ∷ [])) ≡ length h + 1
length-snoc h n = length-append h (n ∷ [])

on_heap : {h h' : Heap} (p : Option ℕ) (rs : List (ℕ × ℕ)) → h ≡ h' → Chain h p rs → Chain h' p rs
on_heap p rs e c = rw e at c

-- The nodes of a chain that stands at the end of the heap, from address `start` on.
pub linked-Chain :
    (h : Heap) (start : ℕ) (prev : Option ℕ) (r : Region) (regs : List Region)
    → start ≡ length h
    → Chain (h ++ linked start prev (r ∷ regs)) (some start) (map extent_of (r ∷ regs))
linked-Chain h start prev r [] e =
    let n : Node = record { block = r.block; len = r.len; bg = r.bg; next = none; prev = prev } in
    (
      start,
      n,
      refl,
      ap (get_elem? (h ++ (n ∷ []))) e ∙ get_elem?-append h (n ∷ []),
      refl,
      refl,
      refl,
    )
linked-Chain h start prev r (s ∷ regs) e =
    let n : Node = record {
      block = r.block;
      len = r.len;
      bg = r.bg;
      next = some (start + 1);
      prev = prev;
    } in
    let rest = linked (start + 1) (some start) (s ∷ regs) in
    let next =
      linked-Chain (h ++ (n ∷ [])) (start + 1) (some start) s regs
        (omega (arith, e, length-snoc h n)) in
    (
      start,
      n,
      refl,
      ap (get_elem? (h ++ (n ∷ rest))) e ∙ get_elem?-append h (n ∷ rest),
      refl,
      refl,
      on_heap (some (start + 1)) (map extent_of (s ∷ regs)) (append_assoc h (n ∷ []) rest) next,
    )

-- Where `do_allocate` returns some regions, whose block numbers fit 32 bits, `allocate_blocks`
-- returns an allocation for which `get_block` gives block `i` of these regions, one region after
-- another, for every `i` of 32 bits, and the mark of a failure behind the last block.
pub allocate_blocks-get_block :
    (force : Bool) (fuel : ℕ) (h : Heap) (len : ℕ) (bgs bgs' : Groups) (r : Region)
    (regs : List Region) (i : ℕ)
    → do_allocate force fuel len bgs ≡ done (some (r ∷ regs), bgs')
    → AreNumbers (map extent_of (r ∷ regs))
    → i < 2 ^ 32
    → (alloc : Allocation) × (h' : Heap) × (allocate_blocks force fuel h len bgs
        ≡ done (some alloc, h', bgs'))
      × (get_block (1 + length regs) h' alloc i
          ≡ done (get_or (blocks_of (map extent_of (r ∷ regs))) i allocate_failed))
unfolding allocate_blocks
allocate_blocks-get_block force fuel h len bgs bgs' r regs i e v small =
    let at = some (length h) in
    let alloc : Allocation = record create_allocation {
      list = record { first = at; last = at; iter = at; partial_iter = 0 };
    } in
    let heap = h ++ linked (length h) none (r ∷ regs) in
    let c = linked-Chain h (length h) none r regs refl in
    let rs = map extent_of (r ∷ regs) in
    (
      alloc,
      heap,
      rw e refl,
      get_block-Chain (1 + length regs) heap alloc rs i (omega (arith, length-map regs extent_of)) c
            v (omega arith)
          ∙ ap (λ (t : ℕ). done (get_or (blocks_of rs) t allocate_failed)) {x = i + 0} {y = i}
              (omega arith),
    )
