-- ===== src/Resize/Rows.antt =====
-- The order of the rows in `inode_attach_resize`: the index is taken without a sign, so that it
-- wraps where it was to be negative.
use android_tools.Common.{
  ℕ, ◌+◌, ◌-◌, ◌*◌, ◌/◌, ◌%◌, ◌^◌, ◌≤◌, ◌<◌, ◌≡◌, ap, sym, ◌∙◌, arith, Bool, List, [], ◌∷◌, some,
  get_or, length, done,
}
use native.Mathlib.Nat.{div-add-mod', mod-lt, mul-add-mod_self_right, mod-eq_of_lt}
use android_tools.Fs.{FsInfo, FsAuxInfo, u32}
use android_tools.Alloc.{Groups, Region, do_allocate}
use android_tools.Queue.Chain.{Entry}
use android_tools.Queue.Order.{Holds}
use android_tools.Regions.{Heap, Allocation}
use android_tools.Extents.{State}
use android_tools.Resize.{ResizeData, row, inode_attach_resize}
use android_tools.Resize.Reserved.{IsReserved, below_total, inode_attach_resize-Attached}

-- where the rows start over
abbrev pub leap : FsAuxInfo → ℕ
leap aux = 2 ^ 32 % aux.bg_desc_reserve_blocks

row_repeats :
    (aux : FsAuxInfo)
    → 0 < aux.bg_desc_reserve_blocks
    → 0 < aux.bg_desc_blocks
    → aux.bg_desc_blocks ≤ leap aux
    → aux.bg_desc_reserve_blocks < 2 ^ 32
    → row aux 0 ≡ row aux (leap aux)
row_repeats aux some_blocks some_desc few narrow =
    let len = aux.bg_desc_reserve_blocks in
    let rest = leap aux - aux.bg_desc_blocks in
    let below = mod-lt (2 ^ 32) {m = len} some_blocks in
    let split = div-add-mod' (2 ^ 32) len in
    let small = mod-eq_of_lt {n = rest} {m = len} (omega (arith, below)) in
    let first : row aux 0 ≡ rest =
      ap (λ (t : ℕ). t % len) {x = u32 (0 + 2 ^ 32 - aux.bg_desc_blocks)}
        {y = 2 ^ 32 / len * len + rest} (omega (arith, split, below))
      ∙ mul-add-mod_self_right (2 ^ 32 / len) len rest
      ∙ small in
    let again : row aux (leap aux) ≡ rest =
      ap (λ (t : ℕ). t % len) {x = u32 (leap aux + 2 ^ 32 - aux.bg_desc_blocks)} {y = rest}
        (omega (arith, below))
      ∙ small in
    first ∙ sym again

module _ (info : FsInfo) (aux : FsAuxInfo) {h : Heap} {alloc : Allocation} {starts : List ℕ}
    (v : IsReserved info aux h alloc starts) (fuel : ℕ) (room : length starts ≤ fuel) (force : Bool)
    (st : State) (reg : Region) (bgs' : Groups) (dind ind : ℕ) (es : List Entry)
    (on_heap : st.heap ≡ h) (given : do_allocate force fuel 1 st.bgs ≡ done (some (reg ∷ []), bgs'))
    (some_len : 0 < reg.len) (number : reg.block + reg.len ≤ 2 ^ 32) (q : Holds st.queue es)
    (queue_room : length es + 1 ≤ fuel) where
  -- Under the conditions of the sizes on an allocation of the reserved blocks, with a block for the
  -- first table, and where `2 ^ 32` leaves a remainder by the number of reserved blocks that is not
  -- below the number of descriptor blocks, which is not 0: `inode_attach_resize` returns with a
  -- first table in which entry 0 and the entry at that remainder are the same block.
  pub inode_attach_resize-repeats :
      0 < aux.bg_desc_blocks
      → aux.bg_desc_blocks ≤ leap aux
      → (d : ResizeData) × (st' : State) × (inode_attach_resize force info aux fuel st alloc dind
            ind
          ≡ done (d, st'))
        × (0 < leap aux)
        × (leap aux < aux.bg_desc_reserve_blocks)
        × (get_or d.dind_block_data 0 0 ≡ get_or d.dind_block_data (leap aux) 0)
  inode_attach_resize-repeats some_desc few =
      let (d, st', run, _, right, _) =
        inode_attach_resize-Attached info aux v fuel room force st reg bgs' dind ind es on_heap
          given some_len number q queue_room in
      let below = mod-lt (2 ^ 32) {m = aux.bg_desc_reserve_blocks} v.sized.some_blocks in
      let narrow =
        below_total (length starts) aux.bg_desc_reserve_blocks v.sized.some_super v.sized.total in
      let same = row_repeats aux v.sized.some_blocks some_desc few narrow in
      (
        d,
        st',
        run,
        omega arith,
        below,
        (right 0 v.sized.some_blocks).0
            ∙ ap (λ (r : ℕ). get_or starts 0 0 + r) same
            ∙ sym (right (leap aux) below).0,
      )
