-- ===== src/Regions.antt =====
-- Allocations as lists of regions, img-db/ext4_utils/allocate.c: doubly linked nodes on a heap, with
-- a pointer to the current position.
pub mod Chain
pub mod Advance
use android_tools.Common.{
  ℕ, zero, suc, ◌+◌, ◌-◌, ◌%◌, ◌^◌, Bool, true, false, ◌&&◌, List, [], ◌∷◌, ◌++◌, Option, none,
  some, ◌==◌, ltb, leb, if◌then◌else◌, get_elem?, set, length, Run, done, fault, out_of_fuel, ◌>>=◌,
  ◌>>◌, error,
}
use android_tools.Fs.{u32}
use android_tools.Group.{Status, ok, failed, allocate_failed, free_blocks}
use android_tools.Alloc.{Groups, Region, do_allocate}

-- `struct region`, with its links; `none` is NULL.
pub record Node : Type 0 where
  pub block : ℕ
  pub len : ℕ
  pub bg : ℕ
  pub next : Option ℕ
  pub prev : Option ℕ

abbrev pub Heap : Type 0
Heap = List Node

-- `struct region_list` and `struct block_allocation`
pub record RegionList : Type 0 where
  pub first : Option ℕ
  pub last : Option ℕ
  pub iter : Option ℕ
  pub partial_iter : ℕ

pub record Allocation : Type 0 where
  pub list : RegionList
  pub oob_list : RegionList

abbrev pub at_node {ℓ} : {A : Type ℓ} → Heap → ℕ → (Node → Run A) → Run A
at_node h a k = elim (get_elem? h a) [ none ↦ fault | some n ↦ k n ]

-- a write through a pointer
abbrev pub update : Heap → ℕ → (Node → Node) → Run Heap
update h a f = at_node h a λ n. done (set h a (f n))

abbrev pub update_at : Heap → Option ℕ → (Node → Node) → Run Heap
update_at h none f = done h
update_at h (some a) f = update h a f

-- whether two pointers are equal
abbrev pub same : Option ℕ → Option ℕ → Bool
same none none = true
same none (some b) = false
same (some a) none = false
same (some a) (some b) = a == b

abbrev pub empty_list : RegionList
empty_list = record { first = none; last = none; iter = none; partial_iter = 0 }

unfoldable pub create_allocation : Allocation
create_allocation = record { list = empty_list; oob_list = empty_list }

unfoldable pub region_list_remove : Heap → RegionList → ℕ → Run (Heap × RegionList)
region_list_remove h list reg = at_node h reg λ n.
    update_at h n.prev (λ p. record p { next = n.next }) >>= λ h. at_node h reg λ n.
      update_at h n.next (λ p. record p { prev = n.prev }) >>= λ h. at_node h reg λ n.
        let first = if same list.first (some reg) then n.next else list.first in
        let last = if same list.last (some reg) then n.prev else list.last in
        update h reg (λ n. record n { next = none; prev = none }) >>= λ h.
        done (h, record list { first = first; last = last })

unfoldable pub region_list_append : Heap → RegionList → ℕ → Run (Heap × RegionList)
region_list_append h list reg = elim list.first [
  | none ↦ update h reg (λ n. record n { prev = none; next = none }) >>= λ h.
      done (h, record { first = some reg; last = some reg; iter = some reg; partial_iter = 0 })
  | some f ↦ elim list.last [
    | none ↦ fault
    | some l ↦ update h l (λ n. record n { next = some reg }) >>= λ h.
        update h reg (λ n. record n { prev = some l; next = none }) >>= λ h.
        done (h, record list { last = some reg })
  ]
]

-- `append_region`: the node is made at the next address.
unfoldable pub append_region : Heap → Allocation → ℕ → ℕ → ℕ → Run (Heap × Allocation)
append_region h alloc block len bg_num =
    let node : Node = record { block = block; len = len; bg = bg_num; next = none; prev = none } in
    region_list_append (h ++ (node ∷ [])) alloc.list (length h) >>= λ r.
    done (r.0, record alloc { list = r.1 })

-- The chain of new regions that `do_allocate` returns, put on the heap from address `at` on.
abbrev pub linked : ℕ → Option ℕ → List Region → Heap
linked address prev [] = []
linked address prev (r ∷ []) =
    record { block = r.block; len = r.len; bg = r.bg; next = none; prev = prev } ∷ []
linked address prev (r ∷ s ∷ regs) =
    record { block = r.block; len = r.len; bg = r.bg; next = some (address + 1); prev = prev }
    ∷ linked (address + 1) (some address) (s ∷ regs)

-- the rest of `allocate_blocks`; no regions are NULL
abbrev pub allocated :
    Heap → Option (List Region) × Groups → Run (Option Allocation × Heap × Groups)
allocated h (none, bgs) = done (none, h, bgs)
allocated h (some [], bgs) = done (none, h, bgs)
allocated h (some (r ∷ regs), bgs) =
    let reg = some (length h) in
    done (
      some (record create_allocation {
        list = record { first = reg; last = reg; iter = reg; partial_iter = 0 };
      }),
      h ++ linked (length h) none (r ∷ regs),
      bgs,
    )

-- `allocate_blocks`, with fuel for the loop of `do_allocate`; `none` is NULL.
unfoldable pub allocate_blocks :
    Bool → ℕ → Heap → ℕ → Groups → Run (Option Allocation × Heap × Groups)
allocate_blocks force fuel h len bgs = do_allocate force fuel len bgs >>= allocated h

-- `block_allocation_num_regions` and `block_allocation_len`, from a node on
unfoldable pub count_regions : ℕ → Heap → Option ℕ → ℕ → Run ℕ
count_regions fuel h none i = done i
count_regions zero h (some a) i = out_of_fuel
count_regions (suc fuel) h (some a) i = at_node h a λ n. count_regions fuel h n.next (u32 (i + 1))

unfoldable pub block_allocation_num_regions : ℕ → Heap → Allocation → Run ℕ
block_allocation_num_regions fuel h alloc = count_regions fuel h alloc.list.first 0

unfoldable pub count_blocks : ℕ → Heap → Option ℕ → ℕ → Run ℕ
count_blocks fuel h none i = done i
count_blocks zero h (some a) i = out_of_fuel
count_blocks (suc fuel) h (some a) i = at_node h a λ n. count_blocks fuel h n.next (u32 (i + n.len))

unfoldable pub block_allocation_len : ℕ → Heap → Allocation → Run ℕ
block_allocation_len fuel h alloc = count_blocks fuel h alloc.list.first 0

-- The loop of `get_block` and `get_oob_block`.
unfoldable pub block_in : ℕ → Heap → Option ℕ → ℕ → Run ℕ
block_in fuel h none block = done allocate_failed
block_in zero h (some a) block = out_of_fuel
block_in (suc fuel) h (some a) block = at_node h a λ n. elim (ltb block n.len) [
  | true ↦ done (u32 (n.block + block))
  | false ↦ block_in fuel h n.next (block - n.len)
]

unfoldable pub get_block : ℕ → Heap → Allocation → ℕ → Run ℕ
get_block fuel h alloc block =
    block_in fuel h alloc.list.iter (u32 (block + alloc.list.partial_iter))

unfoldable pub get_oob_block : ℕ → Heap → Allocation → ℕ → Run ℕ
get_oob_block fuel h alloc block =
    block_in fuel h alloc.oob_list.iter (u32 (block + alloc.oob_list.partial_iter))

-- what `list.iter` points at
abbrev pub at_iter {ℓ} : {A : Type ℓ} → Heap → RegionList → (Node → Run A) → Run A
at_iter h list k = elim list.iter [ none ↦ fault | some a ↦ at_node h a k ]

-- `get_region`: the block and the length that it stores
unfoldable pub get_region : Heap → Allocation → Run (ℕ × ℕ)
get_region h alloc =
    at_iter h alloc.list λ n. done (n.block, u32 (n.len + 2 ^ 32 - alloc.list.partial_iter))

unfoldable pub get_next_region : Heap → Allocation → Run Allocation
get_next_region h alloc =
    at_iter h alloc.list
      λ n. done (record alloc { list = record alloc.list { iter = n.next; partial_iter = 0 } })

unfoldable pub last_region : Allocation → Bool
last_region alloc = same alloc.list.iter none

unfoldable pub rewind_alloc : Allocation → Allocation
rewind_alloc alloc = record alloc {
  list = record alloc.list { iter = alloc.list.first; partial_iter = 0 };
}

-- The loop of `do_split_allocation`, with the region that it comes to and what is left of `len`.
unfoldable pub split_at : ℕ → Heap → Option ℕ → ℕ → Run (Option ℕ × ℕ)
split_at fuel h none len = done (none, len)
split_at zero h (some a) len = out_of_fuel
split_at (suc fuel) h (some a) len = at_node h a λ n. elim (ltb len n.len) [
  | true ↦ done (some a, len)
  | false ↦ split_at fuel h n.next (len - n.len)
]

-- the rest of `do_split_allocation`; the new node is made at the next address
abbrev pub split_rest : Heap → Allocation → Option ℕ × ℕ → Run (Option ℕ × Heap × Allocation)
split_rest h alloc (reg, zero) = done (reg, h, alloc)
split_rest h alloc (none, suc len) = done (none, h, alloc)
split_rest h alloc (some a, suc len) = at_node h a λ n.
    let new = length h in
    let second : Node = record {
      block = u32 (n.block + suc len);
      len = u32 (n.len + 2 ^ 32 - suc len);
      bg = n.bg;
      next = n.next;
      prev = some a;
    } in
    done (
      alloc.list.iter,
      set (h ++ (second ∷ [])) a (record n { next = some new; len = suc len }),
      record alloc { list = record alloc.list { iter = some new } },
    )

unfoldable pub do_split_allocation : ℕ → Heap → Allocation → ℕ → Run (Option ℕ × Heap × Allocation)
unfolding split_at
do_split_allocation fuel h alloc len = split_at fuel h alloc.list.iter len >>= split_rest h alloc

unfoldable pub split_allocation : ℕ → Heap → Allocation → ℕ → Run (Option ℕ × Heap × Allocation)
unfolding do_split_allocation
split_allocation fuel h alloc len =
    do_split_allocation fuel h alloc alloc.list.partial_iter >>= λ r.
    do_split_allocation fuel r.1 r.2 len >>= λ s.
    done (s.0, s.1, record s.2 { list = record s.2.list { partial_iter = 0 } })

-- The loop of `reserve_oob_blocks`.
unfoldable pub move_regions : ℕ → Heap → Allocation → Option ℕ → Run (Heap × Allocation)
unfolding region_list_remove region_list_append
move_regions fuel h alloc none = done (h, alloc)
move_regions zero h alloc (some oob) = out_of_fuel
move_regions (suc fuel) h alloc (some oob) = elim (same (some oob) alloc.list.iter) [
  | true ↦ done (h, alloc)
  | false ↦ at_node h oob λ n. region_list_remove h alloc.list oob >>= λ r.
      region_list_append r.0 alloc.oob_list oob >>= λ s.
      move_regions fuel s.0 (record { list = r.1; oob_list = s.1 }) n.next
]

unfoldable pub reserve_oob_blocks : ℕ → Heap → Allocation → ℕ → Run (Status × Heap × Allocation)
unfolding split_allocation move_regions
reserve_oob_blocks fuel h alloc blocks = split_allocation fuel h alloc blocks >>= λ r. elim r.0 [
  | none ↦ done (failed, r.1, r.2)
  | some oob ↦ move_regions fuel r.1 r.2 (some oob) >>= λ s. done (ok, s.0, s.1)
]

-- an `int` above 0, as 32 bits
abbrev pub is_positive : ℕ → Bool
is_positive n = ltb 0 n && ltb n (2 ^ 31)

-- The loop of `advance_list_ptr`; `reg` is its local variable, and `list->iter` stays.
unfoldable pub advance_from : ℕ → Heap → RegionList → Option ℕ → ℕ → Run (Status × RegionList)
advance_from fuel h list none blocks = done (if is_positive blocks then failed else ok, list)
advance_from zero h list (some a) blocks = out_of_fuel
advance_from (suc fuel) h list (some a) blocks = elim (is_positive blocks) [
  | false ↦ done (ok, list)
  | true ↦ at_node h a λ n. elim (ltb (u32 (list.partial_iter + blocks)) n.len) [
    | true ↦ done (ok, record list { partial_iter = u32 (list.partial_iter + blocks) })
    | false ↦
        advance_from fuel h (record list { partial_iter = 0 }) n.next
          (u32 (blocks + 2 ^ 32 - u32 (n.len + 2 ^ 32 - list.partial_iter)))
  ]
]

unfoldable pub advance_list_ptr : ℕ → Heap → RegionList → ℕ → Run (Status × RegionList)
unfolding advance_from
advance_list_ptr fuel h list blocks = advance_from fuel h list list.iter blocks

unfoldable pub advance_blocks : ℕ → Heap → Allocation → ℕ → Run (Status × Allocation)
unfolding advance_list_ptr
advance_blocks fuel h alloc blocks =
    advance_list_ptr fuel h alloc.list blocks >>= λ r. done (r.0, record alloc { list = r.1 })

unfoldable pub advance_oob_blocks : ℕ → Heap → Allocation → ℕ → Run (Status × Allocation)
unfolding advance_list_ptr
advance_oob_blocks fuel h alloc blocks = advance_list_ptr fuel h alloc.oob_list blocks >>= λ r.
    done (r.0, record alloc { oob_list = r.1 })

-- The loop of `append_oob_allocation` over the new regions; it follows `next` after the append.
unfoldable pub append_each : ℕ → Heap → RegionList → Option ℕ → Run (Heap × RegionList)
append_each fuel h list none = done (h, list)
append_each zero h list (some reg) = out_of_fuel
append_each (suc fuel) h list (some reg) =
    region_list_append h list reg >>= λ r. at_node r.0 reg λ n. append_each fuel r.0 r.1 n.next

-- the rest of `append_oob_allocation`
abbrev pub appended :
    Bool
    → ℕ
    → Heap
    → Allocation
    → Option (List Region) × Groups
    → Run (Status × Heap × Allocation × Groups)
appended force fuel h alloc (none, bgs) = error force >> done (failed, h, alloc, bgs)
appended force fuel h alloc (some [], bgs) = error force >> done (failed, h, alloc, bgs)
appended force fuel h alloc (some (r ∷ regs), bgs) =
    append_each fuel (h ++ linked (length h) none (r ∷ regs)) alloc.oob_list (some (length h))
    >>= λ s. done (ok, s.0, record alloc { oob_list = s.1 }, bgs)

unfoldable pub append_oob_allocation :
    Bool → ℕ → Heap → Allocation → ℕ → Groups → Run (Status × Heap × Allocation × Groups)
append_oob_allocation force fuel h alloc len bgs =
    do_allocate force fuel len bgs >>= appended force fuel h alloc

-- a call of `free_blocks` for a region
abbrev pub free_from : Groups → ℕ → ℕ → Run Groups
free_from bgs i num = elim (get_elem? bgs i) [
  | none ↦ fault
  | some bg ↦ free_blocks bg num >>= λ bg. done (set bgs i bg)
]

-- `reduce_allocation`. A round that empties a region frees it; where regions come before it,
-- `list.last` still points at it, so that another round reads freed memory, and where none do, NULL.
unfoldable pub reduce_allocation : Heap → Allocation → Groups → ℕ → Run (Heap × Allocation × Groups)
unfolding free_blocks
reduce_allocation h alloc bgs len =
    if len == 0 then done (h, alloc, bgs) else elim alloc.list.last [
      | none ↦ fault
      | some a ↦ at_node h a λ n. elim (ltb len n.len) [
        | true ↦ free_from bgs n.bg len >>= λ bgs.
            done (set h a (record n { len = n.len - len }), alloc, bgs)
        | false ↦ free_from bgs n.bg n.len >>= λ bgs.
            update_at h n.prev (λ m. record m { next = none }) >>= λ h.
            if len == n.len
            then done
                (h, elim n.prev [ none ↦ record alloc { list = empty_list } | some p ↦ alloc ], bgs)
            else fault
      ]
    ]
