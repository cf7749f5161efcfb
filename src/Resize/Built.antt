-- ===== src/Resize/Built.antt =====
-- The allocation that the loop of `ext4_create_resize_inode` builds, region by region.
use android_tools.Common.{
  ℕ, zero, suc, ◌+◌, ◌≤◌, ◌<◌, ◌≡◌, refl, ap, ◌∙◌, arith, Bool, if◌then◌else◌, List, [], ◌∷◌, ◌++◌,
  Option, none, some, set, get_elem?, length, length-append, done, ◌>>=◌, >>=-done, Bool-cases, inl,
  inr,
}
use mathlib.Core.List.{append-nil, append_assoc}
use android_tools.Fs.{FsInfo, FsAuxInfo, u32, bg_has_super_block}
use android_tools.Alloc.{Region}
use android_tools.Regions.{
  Node, Heap, at_node, Allocation, empty_list, create_allocation, linked, append_region,
  region_list_append,
}
use android_tools.Superblock.{group_start}
use android_tools.Resize.{reserved_regions}
use android_tools.Resize.Blocks.{node_of, append_first}

get_elem?-behind : (h xs : Heap) (k : ℕ) → get_elem? (h ++ xs) (length h + k) ≡ get_elem? xs k
get_elem?-behind [] xs k = ap (get_elem? xs) {x = 0 + k} {y = k} (omega arith)
get_elem?-behind (x ∷ h) xs k =
    ap (get_elem? (x ∷ (h ++ xs))) {x = suc (length h) + k} {y = suc (length h + k)} (omega arith)
    ∙ get_elem?-behind h xs k

set-behind : (h xs : Heap) (k : ℕ) (v : Node) → set (h ++ xs) (length h + k) v ≡ h ++ set xs k v
set-behind [] xs k v = ap (λ (t : ℕ). set xs t v) {x = 0 + k} {y = k} (omega arith)
set-behind (x ∷ h) xs k v =
    ap (λ (t : ℕ). set (x ∷ (h ++ xs)) t v) {x = suc (length h) + k} {y = suc (length h + k)}
      (omega arith)
    ∙ ap (λ t. x ∷ t) (set-behind h xs k v)

-- The last node of linked regions gets a node behind it.
linked-snoc :
    (start : ℕ) (prev : Option ℕ) (r : Region) (rs : List Region) (reg : Region) (last new : ℕ)
    → last ≡ start + length rs
    → new ≡ start + length rs + 1
    → (n : Node) × (get_elem? (linked start prev (r ∷ rs) ++ (node_of reg ∷ [])) (length rs)
        ≡ some n)
      × (get_elem?
            (set
              (linked start prev (r ∷ rs) ++ (node_of reg ∷ []))
              (length rs)
              (record n { next = some new }))
            (suc (length rs))
          ≡ some (node_of reg))
      × (set
            (set
              (linked start prev (r ∷ rs) ++ (node_of reg ∷ []))
              (length rs)
              (record n { next = some new }))
            (suc (length rs))
            (record (node_of reg) { prev = some last; next = none })
          ≡ linked start prev (r ∷ (rs ++ (reg ∷ []))))
linked-snoc start prev r [] reg last new at_last at_new =
    let e₁ : last ≡ start = omega arith in
    let e₂ : new ≡ start + 1 = omega arith in
    (
      record { block = r.block; len = r.len; bg = r.bg; next = none; prev = prev },
      refl,
      refl,
      rw (e₁, e₂) refl,
    )
linked-snoc start prev r (s ∷ rs) reg last new at_last at_new =
    let (n, read, behind, e) =
      linked-snoc (start + 1) (some start) s rs reg last new (omega arith) (omega arith) in
    let head : Node = record {
      block = r.block;
      len = r.len;
      bg = r.bg;
      next = some (start + 1);
      prev = prev;
    } in
    (n, read, behind, ap (λ t. head ∷ t) e)

-- the allocation whose regions stand on the heap from address `start` on
abbrev pub built : ℕ → List Region → Allocation
built start [] = create_allocation
built start (r ∷ rs) = record create_allocation {
  list = record {
    first = some start;
    last = some (start + length rs);
    iter = some start;
    partial_iter = 0;
  };
}

length-linked :
    (start : ℕ) (prev : Option ℕ) (rs : List Region) → length (linked start prev rs) ≡ length rs
length-linked start prev [] = refl
length-linked start prev (r ∷ []) = refl
length-linked start prev (r ∷ s ∷ rs) = ap suc (length-linked (start + 1) (some start) (s ∷ rs))

-- `region_list_append` of the node at the end of the heap
append_list :
    (h : Heap) (r : Region) (rs : List Region) (reg : Region)
    → region_list_append
        ((h ++ linked (length h) none (r ∷ rs)) ++ (node_of reg ∷ []))
        (built (length h) (r ∷ rs)).list
        (length (h ++ linked (length h) none (r ∷ rs)))
      ≡ done (
        h ++ linked (length h) none (r ∷ (rs ++ (reg ∷ []))),
        record (built (length h) (r ∷ rs)).list {
          last = some (length (h ++ linked (length h) none (r ∷ rs)));
        },
      )
unfolding region_list_append
append_list h r rs reg =
    let start = length h in
    let xs = linked start none (r ∷ rs) in
    let new = length (h ++ xs) in
    let node = node_of reg in
    let count : new ≡ start + suc (length rs) =
      length-append h xs ∙ omega (arith, length-linked start none (r ∷ rs)) in
    let (n, read, behind, e) =
      linked-snoc start none r rs reg (start + length rs) new refl (omega (arith, count)) in
    let whole = append_assoc h xs (node ∷ []) in
    let n₁ = record n { next = some new } in
    let n₂ = record node { prev = some (start + length rs); next = none } in
    let ys = set (xs ++ (node ∷ [])) (length rs) n₁ in
    let read₁ : get_elem? ((h ++ xs) ++ (node ∷ [])) (start + length rs) ≡ some n =
      ap (λ (t : Heap). get_elem? t (start + length rs)) whole
      ∙ (get_elem?-behind h (xs ++ (node ∷ [])) (length rs) ∙ read) in
    let set₁ : set ((h ++ xs) ++ (node ∷ [])) (start + length rs) n₁ ≡ h ++ ys =
      ap (λ (t : Heap). set t (start + length rs) n₁) whole
      ∙ set-behind h (xs ++ (node ∷ [])) (length rs) n₁ in
    let read₂ : get_elem? (h ++ ys) new ≡ some node =
      ap (get_elem? (h ++ ys)) count ∙ (get_elem?-behind h ys (suc (length rs)) ∙ behind) in
    let set₂ : set (h ++ ys) new n₂ ≡ h ++ linked start none (r ∷ (rs ++ (reg ∷ []))) =
      ap (λ (t : ℕ). set (h ++ ys) t n₂) count
      ∙ (set-behind h ys (suc (length rs)) n₂ ∙ ap (λ (t : Heap). h ++ t) e) in
    rw (read₁, at_node) (rw set₁ (rw (read₂, at_node) (rw set₂ refl)))

append_region-built :
    (h : Heap) (rs : List Region) (reg : Region)
    → append_region (h ++ linked (length h) none rs) (built (length h) rs) reg.block reg.len reg.bg
      ≡ done (h ++ linked (length h) none (rs ++ (reg ∷ [])), built (length h) (rs ++ (reg ∷ [])))
unfolding append_region create_allocation
append_region-built h [] reg =
    let at_end : length h ≡ length h + 0 = omega arith in
    rw (append-nil h) (
      >>=-done (region_list_append (h ++ (node_of reg ∷ [])) empty_list (length h)) _
        (append_first h reg) (rw (← at_end) refl))
append_region-built h (r ∷ rs) reg =
    let start = length h in
    let xs = linked start none (r ∷ rs) in
    let last : length (h ++ xs) ≡ start + length (rs ++ (reg ∷ [])) =
      length-append h xs
      ∙ omega (arith, length-linked start none (r ∷ rs), length-append rs (reg ∷ [])) in
    rw (append_list h r rs reg, ◌>>=◌) (rw last refl)

module _ (info : FsInfo) (aux : FsAuxInfo) (supers : ℕ → Bool) where
  -- the reserved blocks of group `i`
  abbrev pub region_at : ℕ → Region
  region_at i = record {
    block = u32 (group_start info aux i + 1 + aux.bg_desc_blocks);
    len = aux.bg_desc_reserve_blocks;
    bg = i;
  }

  -- the same for the groups from `i` on that have a superblock
  abbrev pub regions_from : ℕ → ℕ → List Region
  regions_from i zero = []
  regions_from i (suc left) =
      if supers i then region_at i ∷ regions_from (i + 1) left else regions_from (i + 1) left

  pub reserved_regions-built :
      (h : Heap) (rs : List Region) (i left : ℕ)
      → ((j : ℕ) → i ≤ j → j < i + left → bg_has_super_block info j ≡ done (supers j))
      → reserved_regions info aux i left (h ++ linked (length h) none rs) (built (length h) rs)
        ≡ done (
          h ++ linked (length h) none (rs ++ regions_from i left),
          built (length h) (rs ++ regions_from i left),
        )
  unfolding reserved_regions
  reserved_regions-built h rs i zero known = rw (append-nil rs) refl
  reserved_regions-built h rs i (suc left) known =
      let super = known i (omega arith) (omega arith) in
      elim (Bool-cases (supers i)) [
        | inl one ↦
            let next =
              reserved_regions-built h (rs ++ (region_at i ∷ [])) (i + 1) left
                (λ j lo hi. known j (omega arith) (omega arith)) in
            rw (super, ◌>>=◌)
              (rw one (
                rw (append_region-built h rs (region_at i), ◌>>=◌)
                  (rw (append_assoc rs (region_at i ∷ []) (regions_from (i + 1) left)) at next)))
        | inr other ↦
            rw (super, ◌>>=◌)
              (rw other (
                reserved_regions-built h rs (i + 1) left
                  (λ j lo hi. known j (omega arith) (omega arith))))
      ]
