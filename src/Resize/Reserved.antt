-- ===== src/Resize/Reserved.antt =====
-- `inode_attach_resize` on the reserved blocks of the superblock groups.
use android_tools.Common.{
  ℕ, zero, suc, ◌+◌, ◌*◌, ◌/◌, ◌%◌, ◌^◌, ◌≤◌, ◌<◌, ◌≡◌, refl, ap, ◌∙◌, arith, Bool, true, false,
  ◌==◌, List, [], ◌∷◌, ◌++◌, some, get_or, length, length-map, length-replicate, replicate, Run,
  done, ◌>>=◌,
}
use native.Mathlib.Nat.{mul-div_left, mul-mod_left}
use android_tools.Fs.{FsInfo, FsAuxInfo, u32}
use android_tools.Group.{ok, allocate_failed}
use android_tools.Alloc.{Groups, Region, do_allocate}
use android_tools.Queue.{memory}
use android_tools.Queue.Chain.{Entry}
use android_tools.Queue.Order.{insert_entry, Holds, length-insert_entry}
use android_tools.Queue.Add.{queue_data-Holds}
use android_tools.Regions.{
  Heap, Allocation, empty_list, append_oob_allocation, block_allocation_len, get_block,
  get_oob_block,
}
use android_tools.Regions.Chain.{
  Chain, blocks_of, AreNumbers, get_or-range, get_elem?-append, get_block-Chain, block_in-Chain,
  block_allocation_len-Chain,
}
use android_tools.Extents.{State}
use android_tools.Resize.{ResizeData, dind_loop, resize_data, attach_tables, inode_attach_resize}
use android_tools.Resize.Tables.{RowIsRight, dind_loop-right}
use android_tools.Resize.Blocks.{
  regions_of, get_or-regions_of, length-regions_of, Chain-front, node_of, only, append_one,
}

in_range : (r c w h : ℕ) → r < h → c < w → r * w + c < h * w
in_range r c w h p q = grind arith

pub below_total : (n len : ℕ) → 0 < n → n * len < 2 ^ 32 → len < 2 ^ 32
below_total zero len pos total = absurd (omega arith)
below_total (suc n) len pos total = omega arith

-- The numbers of reserved blocks: they fit 32 bits, and for those of a group, and for the groups, a
-- block of numbers is enough.
pub record IsSized (info : FsInfo) (aux : FsAuxInfo) (starts : List ℕ) : Type 0 where
  pub numbers : AreNumbers (regions_of starts aux.bg_desc_reserve_blocks)
  pub some_super : 0 < length starts
  pub few_supers : length starts ≤ aux.blocks_per_ind + 1
  pub total : length starts * aux.bg_desc_reserve_blocks < 2 ^ 32
  pub some_blocks : 0 < aux.bg_desc_reserve_blocks
  pub few_blocks : aux.bg_desc_reserve_blocks ≤ aux.blocks_per_ind
  pub words : info.block_size ≡ 4 * aux.blocks_per_ind
  pub small : aux.bg_desc_reserve_blocks * aux.blocks_per_ind < 2 ^ 32

-- The allocation that `ext4_create_resize_inode` makes: one region of `bg_desc_reserve_blocks` blocks
-- for each group with a superblock.
pub record IsReserved (info : FsInfo) (aux : FsAuxInfo) (h : Heap) (alloc : Allocation)
    (starts : List ℕ) : Type 0 where
  pub chain : Chain h alloc.list.first (regions_of starts aux.bg_desc_reserve_blocks)
  pub at_first : alloc.list.iter ≡ alloc.list.first
  pub at_start : alloc.list.partial_iter ≡ 0
  pub no_oob : alloc.oob_list ≡ empty_list
  pub sized : IsSized info aux starts

-- What `inode_attach_resize` leaves: the second buffer is queued for the reserved blocks of the
-- first group.
abbrev pub Attached :
    FsInfo → FsAuxInfo → List ℕ → Region → ℕ → ℕ → List Entry → Run (ResizeData × State) → Type 0
Attached info aux starts reg dind ind es r =
    (d : ResizeData) × (st : State) × (r ≡ done (d, st))
    × (d.dind_block ≡ reg.block)
    × ((m : ℕ)
        → m < aux.bg_desc_reserve_blocks
        → RowIsRight aux (λ j r. get_or starts j 0 + r) (length starts) m d.dind_block_data
            d.ind_block_data)
    × Holds st.queue (
        insert_entry
          (get_or starts 0 0, u32 (info.block_size * aux.bg_desc_reserve_blocks), memory ind)
          (insert_entry (reg.block, info.block_size, memory dind) es))

module _ (info : FsInfo) (aux : FsAuxInfo) {h : Heap} {alloc : Allocation} {starts : List ℕ}
    (v : IsReserved info aux h alloc starts) (fuel : ℕ) (room : length starts ≤ fuel) where
  -- the allocation with a region more in its second list, which is the node at the end of the heap
  abbrev grown : Region → Allocation
  grown reg = record alloc { oob_list = only (length h) }

  get_block-reserved :
      (reg : Region) (i : ℕ)
      → i < 2 ^ 32
      → get_block fuel (h ++ (node_of reg ∷ [])) (grown reg) i
        ≡ done (get_or (blocks_of (regions_of starts aux.bg_desc_reserve_blocks)) i allocate_failed)
  get_block-reserved reg i small =
      let rs = regions_of starts aux.bg_desc_reserve_blocks in
      let c : Chain h alloc.list.iter rs = rw v.at_first v.chain in
      get_block-Chain fuel (h ++ (node_of reg ∷ [])) (grown reg) rs i
        (omega
          (arith, room, length-map {B = ℕ × ℕ} starts (λ (s : ℕ). (s, aux.bg_desc_reserve_blocks))))
        (Chain-front h (node_of reg ∷ []) alloc.list.iter rs c) v.sized.numbers
        (omega (arith, v.at_start))
      ∙ ap (λ (t : ℕ). done (get_or (blocks_of rs) t allocate_failed))
          {x = i + alloc.list.partial_iter} {y = i} (omega (arith, v.at_start))

  reads :
      (reg : Region) (j r : ℕ)
      → j < length starts
      → r < aux.bg_desc_reserve_blocks
      → get_block fuel
          (h ++ (node_of reg ∷ []))
          (grown reg)
          (u32 (u32 (j * aux.bg_desc_reserve_blocks) + r))
        ≡ done (get_or starts j 0 + r)
  reads reg j r few lt =
      let len = aux.bg_desc_reserve_blocks in
      let below : j * len + r < length starts * len = in_range j r len (length starts) few lt in
      let index : u32 (u32 (j * len) + r) ≡ j * len + r = omega (arith, below, v.sized.total) in
      ap (get_block fuel (h ++ (node_of reg ∷ [])) (grown reg)) index
      ∙ get_block-reserved reg (j * len + r) (omega (arith, below, v.sized.total))
      ∙ ap done (get_or-regions_of starts len j r allocate_failed few lt)

  oob_block :
      (reg : Region)
      → 0 < reg.len
      → reg.block + reg.len ≤ 2 ^ 32
      → get_oob_block fuel (h ++ (node_of reg ∷ [])) (grown reg) 0 ≡ done reg.block
  unfolding get_oob_block
  oob_block reg some_len number =
      let rs : List (ℕ × ℕ) = (reg.block, reg.len) ∷ [] in
      let c : Chain (h ++ (node_of reg ∷ [])) (some (length h)) rs =
        (length h, node_of reg, refl, get_elem?-append h (node_of reg ∷ []), refl, refl, refl) in
      block_in-Chain fuel (h ++ (node_of reg ∷ [])) (some (length h)) rs 0
        (omega (arith, room, v.sized.some_super)) c (number, tt)
      ∙ ap done (get_or-range reg.block reg.len 0 [] allocate_failed some_len ∙ omega arith)

  tables_right :
      (reg : Region)
      → (dind : List ℕ) × (ind : List ℕ) × (dind_loop
            (get_block fuel (h ++ (node_of reg ∷ [])) (grown reg))
            aux
            (length starts)
            aux.bg_desc_reserve_blocks
            0
            (replicate (info.block_size / 4) 0)
            (replicate (info.block_size * aux.bg_desc_reserve_blocks / 4) 0)
          ≡ done (dind, ind))
        × ((m : ℕ)
            → m < aux.bg_desc_reserve_blocks
            → RowIsRight aux (λ j r. get_or starts j 0 + r) (length starts) m dind ind)
  tables_right reg =
      let words = length-replicate {A = ℕ} (info.block_size / 4) 0 in
      let rows = length-replicate {A = ℕ} (info.block_size * aux.bg_desc_reserve_blocks / 4) 0 in
      let area : info.block_size * aux.bg_desc_reserve_blocks
          ≡ 4 * (aux.bg_desc_reserve_blocks * aux.blocks_per_ind) =
        ap (λ (t : ℕ). t * aux.bg_desc_reserve_blocks) v.sized.words ∙ omega arith in
      let narrow =
        below_total (length starts) aux.bg_desc_reserve_blocks v.sized.some_super v.sized.total in
      let (dind, ind, run, _, _, right) =
        dind_loop-right (get_block fuel (h ++ (node_of reg ∷ [])) (grown reg)) aux
          (λ j r. get_or starts j 0 + r) (length starts) (reads reg) v.sized.few_supers
          v.sized.small aux.bg_desc_reserve_blocks 0 (replicate (info.block_size / 4) 0)
          (replicate (info.block_size * aux.bg_desc_reserve_blocks / 4) 0) (omega arith)
          v.sized.some_super narrow (omega (arith, words, v.sized.words, v.sized.few_blocks))
          (omega (arith, rows, area)) in
      (dind, ind, run, λ m lt. right m (omega arith) lt)

  -- With the one block that `do_allocate` gives for the first buffer.
  module _ (force : Bool) (st : State) (reg : Region) (bgs' : Groups) (dind ind : ℕ)
      (es : List Entry) (on_heap : st.heap ≡ h)
      (given : do_allocate force fuel 1 st.bgs ≡ done (some (reg ∷ []), bgs'))
      (some_len : 0 < reg.len) (number : reg.block + reg.len ≤ 2 ^ 32) (q : Holds st.queue es)
      (queue_room : length es + 1 ≤ fuel) where
    attach_tables-Attached : Attached info aux starts reg dind ind es (
        attach_tables force info aux fuel st alloc
          (length starts * aux.bg_desc_reserve_blocks)
          dind
          ind)
    unfolding attach_tables
    attach_tables-Attached =
        let len = aux.bg_desc_reserve_blocks in
        let appended : append_oob_allocation force fuel st.heap alloc 1 st.bgs
            ≡ done (ok, h ++ (node_of reg ∷ []), grown reg, bgs') =
          append_one force fuel st.heap alloc reg st.bgs bgs' given
            (omega (arith, room, v.sized.some_super)) v.no_oob
          ∙ rw on_heap refl in
        let at_oob = oob_block reg some_len number in
        let first : get_block fuel (h ++ (node_of reg ∷ [])) (grown reg) 0
            ≡ done (get_or starts 0 0) =
          ap (get_block fuel (h ++ (node_of reg ∷ [])) (grown reg)) {x = 0}
            {y = u32 (u32 (0 * len) + 0)} (omega arith)
          ∙ reads reg 0 0 v.sized.some_super v.sized.some_blocks
          ∙ ap done (omega arith) in
        let count = length-insert_entry (reg.block, info.block_size, memory dind) es in
        let (q₁, run₁, v₁) =
          queue_data-Holds fuel st.queue (memory dind) info.block_size reg.block es q
            (omega arith) in
        let (q₂, run₂, v₂) =
          queue_data-Holds fuel q₁ (memory ind) (u32 (info.block_size * len)) (get_or starts 0 0)
            (insert_entry (reg.block, info.block_size, memory dind) es) v₁ (omega (arith, count)) in
        let (dind_data, ind_data, tables, right) = tables_right reg in
        let superblocks : length starts * len / len ≡ length starts =
          mul-div_left (length starts) v.sized.some_blocks in
        (
          resize_data force info aux fuel (length starts * len) (length starts) reg.block
              (dind_data, ind_data),
          record { heap = h ++ (node_of reg ∷ []); bgs = bgs'; queue = q₂ },
          rw (appended, ◌>>=◌)
              (rw (at_oob, ◌>>=◌)
                (rw (run₁, ◌>>=◌)
                  (rw (first, ◌>>=◌)
                    (rw (run₂, ◌>>=◌) (rw superblocks (rw (tables, ◌>>=◌) refl)))))),
          refl,
          right,
          v₂,
        )

    -- On an allocation with one region of reserved blocks for each group with a superblock, no more
    -- of them than a block of numbers is enough for, with block numbers of 32 bits, where
    -- `do_allocate` gives a block for the first table, and with fuel for the regions and the queue:
    -- `inode_attach_resize` returns. Entry `m` of the first table is the reserved block in row `r`
    -- of the first group, with `r` as the code computes it from `m`; row `r` of the second table
    -- has the block in row `r` of each of the other groups, in order. Both tables are queued, the
    -- second one for the reserved blocks of the first group.
    pub inode_attach_resize-Attached :
        Attached info aux starts reg dind ind es
          (inode_attach_resize force info aux fuel st alloc dind ind)
    unfolding inode_attach_resize
    inode_attach_resize-Attached =
        let len = aux.bg_desc_reserve_blocks in
        let rs = regions_of starts len in
        let count = length-map {B = ℕ × ℕ} starts (λ (s : ℕ). (s, len)) in
        let all = length-regions_of starts len in
        let c : Chain st.heap alloc.list.first rs = rw on_heap v.chain in
        let whole : block_allocation_len fuel st.heap alloc ≡ done (length starts * len) =
          block_allocation_len-Chain fuel st.heap alloc rs (omega (arith, room, count)) c
            (omega (arith, all, v.sized.total))
          ∙ ap done all in
        let some_len : (len == 0) ≡ false = ground (arith, v.sized.some_blocks) in
        let divides : (length starts * len % len == 0) ≡ true =
          ground (arith, mul-mod_left (length starts) len) in
        rw (whole, ◌>>=◌) (rw (some_len, divides) attach_tables-Attached)
