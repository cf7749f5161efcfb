-- ===== src/Extents/Cover.antt =====
-- The extents of a file lead to the blocks of its allocation.
use android_tools.Common.{
  ℕ, zero, suc, ◌+◌, ◌-◌, ◌%◌, ◌^◌, ◌<◌, ◌≤◌, ◌≡◌, refl, ap, sym, ◌∙◌, arith, true, false, List, [],
  ◌∷◌, Option, none, ◌==◌, ltb, leb, if◌then◌else◌, get_or, length, done,
}
use native.Mathlib.Decide.{dec_lt}
use android_tools.Fs.{u32}
use android_tools.Group.{allocate_failed}
use android_tools.Regions.{Heap, Allocation, at_node, last_region, get_block}
use android_tools.Regions.Chain.{
  Chain, blocks_of, get_or-range, get_or-behind, AreNumbers, get_block-Chain,
}
use android_tools.Extents.{Extent, write_extents}

-- The extents for regions, from block `start` of the file on.
abbrev pub extents_of : ℕ → List (ℕ × ℕ) → List Extent
extents_of start [] = []
extents_of start (r ∷ rs) =
    record { ee_block = start; ee_len = r.1; ee_start_hi = 0; ee_start_lo = r.0 }
    ∷ extents_of (start + r.1) rs

-- EXT_INIT_MAX_LEN: a longer extent is one that has not been written to, of as many blocks less.
abbrev pub init_max_len : ℕ
init_max_len = 2 ^ 15

abbrev pub covered_by : Extent → ℕ
covered_by e = if leb e.ee_len init_max_len then e.ee_len else e.ee_len - init_max_len

-- The block of the image at which block `i` of the file stands, from reading the extents in order
-- without the high half of the start; the mark of a failure where there is no extent, or one that
-- has not been written to.
abbrev pub lookup : List Extent → ℕ → ℕ
lookup [] i = allocate_failed
lookup (e ∷ es) i =
    if ltb i (e.ee_block + covered_by e)
    then if leb e.ee_len init_max_len then e.ee_start_lo + (i - e.ee_block) else allocate_failed
    else lookup es i

-- No region is too long for an extent that has been written to, and the file's blocks fit 32 bits.
abbrev pub AreShort : ℕ → List (ℕ × ℕ) → Type 0
AreShort start [] = Unit {0}
AreShort start (r ∷ rs) = (r.1 ≤ init_max_len) × (start + r.1 < 2 ^ 32) × AreShort (start + r.1) rs

lookup-extents_of :
    (start : ℕ) (rs : List (ℕ × ℕ)) (i : ℕ)
    → AreShort start rs
    → lookup (extents_of start rs) (start + i) ≡ get_or (blocks_of rs) i allocate_failed
lookup-extents_of start [] i v = refl
lookup-extents_of start (r ∷ rs) i (short, small, v) =
    let written : leb r.1 init_max_len ≡ true = ground arith in
    elim (dec_lt i r.1) [
      | yes lt ↦
          let here : ltb (start + i) (start + r.1) ≡ true = ground arith in
          rw (written, here)
            (sym (get_or-range r.0 r.1 i (blocks_of rs) allocate_failed lt ∙ omega arith))
      | no ge ↦
          let behind : ltb (start + i) (start + r.1) ≡ false = ground arith in
          rw (written, behind)
            (ap (lookup (extents_of (start + r.1) rs)) {x = start + i} {y = start + r.1 + (i - r.1)}
                (omega arith)
              ∙ lookup-extents_of (start + r.1) rs (i - r.1) v
              ∙ sym (get_or-behind r.0 r.1 i (blocks_of rs) allocate_failed (omega arith)))
    ]

-- an allocation that stands at the start of a region, or behind the last
abbrev at : Allocation → Option ℕ → Allocation
at alloc p = record alloc { list = record alloc.list { iter = p; partial_iter = 0 } }

write_extents-Chain :
    (fuel room : ℕ) (h : Heap) (alloc : Allocation) (p : Option ℕ) (rs : List (ℕ × ℕ)) (start : ℕ)
    → length rs < fuel
    → length rs ≤ room
    → Chain h p rs
    → AreShort start rs
    → write_extents fuel room h (at alloc p) start ≡ done (extents_of start rs, at alloc none)
unfolding write_extents
write_extents-Chain zero room h alloc p rs start few fits c v = absurd (omega arith)
write_extents-Chain (suc fuel) room h alloc p [] start few fits e v =
    ap (λ p. write_extents (suc fuel) room h (at alloc p) start) e
write_extents-Chain (suc fuel) zero h alloc p (r ∷ rs) start few fits c v = absurd (omega arith)
write_extents-Chain (suc fuel) (suc room) h alloc p (r ∷ rs) start few fits
      (a, n, e, read, block, len, c) (short, small, v) =
    let some_room : (suc room == 0) ≡ false = ground arith in
    let whole : u32 (n.len + 2 ^ 32 - 0) ≡ r.1 = omega (arith, len) in
    let left : suc room - 1 ≡ room = omega arith in
    let field : r.1 % 2 ^ 16 ≡ r.1 = omega arith in
    let sum : u32 (start + r.1) ≡ start + r.1 = omega arith in
    let next =
      write_extents-Chain fuel room h alloc n.next rs (start + r.1) (omega arith) (omega arith) c
        v in
    ap (λ p. write_extents (suc fuel) (suc room) h (at alloc p) start) e
    ∙ rw (read, at_node)
        (rw (some_room, block, whole) (rw (read, at_node) (rw (left, sum, next) (rw field refl))))

-- On an allocation that stands at the start of its regions, which have at most `2 ^ 15` blocks
-- (EXT_INIT_MAX_LEN), have block numbers of 32 bits, fit the place for the extents and have fewer
-- than `2 ^ 32` blocks in all, with fuel for more regions than there are: the loop that writes the
-- extents returns, behind the last region, and reading the extents in order, where one above
-- EXT_INIT_MAX_LEN would count as not written to, leads from every number of 32 bits to the block
-- that `get_block` gave for it before, or to the mark of a failure where that was given.
pub write_extents-get_block :
    (fuel room : ℕ) (h : Heap) (alloc : Allocation) (rs : List (ℕ × ℕ)) (i : ℕ)
    → length rs < fuel
    → length rs ≤ room
    → Chain h alloc.list.iter rs
    → alloc.list.partial_iter ≡ 0
    → AreShort 0 rs
    → AreNumbers rs
    → i < 2 ^ 32
    → (es : List Extent) × (alloc' : Allocation) × (write_extents fuel room h alloc 0
        ≡ done (es, alloc'))
      × (last_region alloc' ≡ true)
      × (get_block fuel h alloc i ≡ done (lookup es i))
unfolding last_region
write_extents-get_block fuel room h alloc rs i few fits c start v numbers small =
    let begun : alloc ≡ at alloc alloc.list.iter =
      ap (λ (t : ℕ). record alloc { list = record alloc.list { partial_iter = t } }) start in
    let index : i + alloc.list.partial_iter ≡ i = omega arith in
    (
      extents_of 0 rs,
      at alloc none,
      ap (λ s. write_extents fuel room h s 0) begun
          ∙ write_extents-Chain fuel room h alloc alloc.list.iter rs 0 few fits c v,
      refl,
      get_block-Chain fuel h alloc rs i (omega arith) c numbers (omega arith)
          ∙ ap done (
              ap (λ (t : ℕ). get_or (blocks_of rs) t allocate_failed) index
              ∙ sym (lookup-extents_of 0 rs i v)
              ∙ ap (lookup (extents_of 0 rs)) {x = 0 + i} {y = i} (omega arith)),
    )
