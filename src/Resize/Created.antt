-- ===== src/Resize/Created.antt =====
-- `ext4_create_resize_inode` of img-db/ext4_utils/ext4_utils.c as a whole.
use android_tools.Common.{
  ℕ, zero, suc, ◌+◌, ◌^◌, ◌≤◌, ◌<◌, ◌≡◌, refl, ap, arith, Bool, List, [], ◌∷◌, ◌++◌, Option, none,
  some, map, length, done, ◌>>=◌, Bool-cases, inl, inr,
}
use mathlib.Core.Path.{subst}
use mathlib.Core.List.{append-nil}
use android_tools.Fs.{FsInfo, FsAuxInfo, bg_has_super_block}
use android_tools.Alloc.{Groups, Region, do_allocate}
use android_tools.Inode.{get_inode}
use android_tools.Queue.{Queue, memory}
use android_tools.Queue.Chain.{Entry}
use android_tools.Queue.Order.{insert_entry, Holds, length-insert_entry}
use android_tools.Queue.Add.{queue_data-Holds}
use android_tools.Regions.{Heap, create_allocation, linked}
use android_tools.Regions.Chain.{Chain, extent_of, linked-Chain}
use android_tools.Extents.{State}
use android_tools.Resize.{
  ResizeInode, user_file, resize_ino, reserved_regions, queue_table, create_resize_inode,
}
use android_tools.Resize.Blocks.{regions_of}
use android_tools.Resize.Reserved.{IsSized, IsReserved, Attached, inode_attach_resize-Attached}
use android_tools.Resize.Built.{built, region_at, regions_from, reserved_regions-built}

abbrev pub start_of : Region → ℕ
start_of r = r.block

module _ (info : FsInfo) (aux : FsAuxInfo) where
  same_length :
      (supers : ℕ → Bool) (i left : ℕ)
      → map extent_of (regions_from info aux supers i left)
        ≡ regions_of (map start_of (regions_from info aux supers i left)) aux.bg_desc_reserve_blocks
  same_length supers i zero = refl
  same_length supers i (suc left) = elim (Bool-cases (supers i)) [
    | inl one ↦
        rw one
          (ap (λ t. extent_of (region_at info aux supers i) ∷ t) (same_length supers (i + 1) left))
    | inr other ↦ rw other (same_length supers (i + 1) left)
  ]

  built-IsReserved :
      (h : Heap) (rs : List Region)
      → map extent_of rs ≡ regions_of (map start_of rs) aux.bg_desc_reserve_blocks
      → IsSized info aux (map start_of rs)
      → IsReserved info aux (h ++ linked (length h) none rs) (built (length h) rs) (map start_of rs)
  unfolding create_allocation
  built-IsReserved h [] same size = absurd (omega (arith, size.some_super))
  built-IsReserved h (r ∷ rs) same size = record {
    chain =
        subst (Chain (h ++ linked (length h) none (r ∷ rs)) (some (length h))) same
          (linked-Chain h (length h) none r rs refl);
    at_first = refl;
    at_start = refl;
    no_oob = refl;
    sized = size;
  }

  -- a new inode table in the queue
  abbrev pub with_table : ℕ → Option (ℕ × ℕ) → List Entry → List Entry
  with_table table none es = es
  with_table table (some (block, len)) es = insert_entry (block, len, memory table) es

  pub queue_table-Holds :
      (force : Bool) (fuel table : ℕ) (queued : Option (ℕ × ℕ)) (q : Queue) (es : List Entry)
      → Holds q es
      → length es ≤ fuel
      → (q' : Queue) × (queue_table force info aux fuel table queued q ≡ done q')
        × Holds q' (with_table table queued es)
        × (length (with_table table queued es) ≤ length es + 1)
  queue_table-Holds force fuel table none q es v room = (q, refl, v, omega arith)
  queue_table-Holds force fuel table (some (block, len)) q es v room =
      let (q', run, v') = queue_data-Holds fuel q (memory table) len block es v room in
      (q', run, v', omega (arith, length-insert_entry (block, len, memory table) es))

  -- Where `get_inode` finds the inode, `do_allocate` gives a block for the first table, the numbers
  -- of the reserved blocks fit 32 bits, and a block of numbers is enough for those of a group and
  -- for the groups with a superblock, with fuel for these and the queue: `ext4_create_resize_inode`
  -- returns. Entry `m` of the first table is the reserved block in row `r` of the first group, with
  -- `r` as the code computes it from `m`; row `r` of the second table has the block in row `r` of
  -- each of the other groups with a superblock, in order. Both tables are queued, the second one
  -- for the reserved blocks of the first group, behind a new inode table.
  pub create_resize_inode-Attached :
      (force : Bool) (fuel : ℕ) (st : State) (supers : ℕ → Bool) (table dind ind : ℕ)
      (place : ℕ × ℕ) (bgs bgs' : Groups) (queued : Option (ℕ × ℕ)) (reg : Region) (es : List Entry)
      → ((j : ℕ) → j < aux.groups → bg_has_super_block info j ≡ done (supers j))
      → IsSized info aux (map start_of (regions_from info aux supers 0 aux.groups))
      → length (map start_of (regions_from info aux supers 0 aux.groups)) ≤ fuel
      → get_inode info aux resize_ino st.bgs ≡ done (place, bgs, queued)
      → do_allocate force fuel 1 bgs ≡ done (some (reg ∷ []), bgs')
      → 0 < reg.len
      → reg.block + reg.len ≤ 2 ^ 32
      → Holds st.queue es
      → length es + 2 ≤ fuel
      → (r : ResizeInode × State) × (create_resize_inode force info aux fuel st table dind ind
          ≡ done r)
        × (r.0.place ≡ place)
        × Attached info aux
            (map start_of (regions_from info aux supers 0 aux.groups))
            reg
            dind
            ind
            (with_table table queued es)
            (done (r.0.content, r.1))
  unfolding create_resize_inode
  create_resize_inode-Attached force fuel st supers table dind ind place bgs bgs' queued reg es
        known size room found given some_len number v queue_room =
      let rs = regions_from info aux supers 0 aux.groups in
      let h = st.heap ++ linked (length st.heap) none rs in
      let (q, run, v', more) =
        queue_table-Holds force fuel table queued st.queue es v (omega arith) in
      let looped : reserved_regions info aux 0 aux.groups st.heap create_allocation
          ≡ done (h, built (length st.heap) rs) =
        rw (append-nil st.heap) at (
          reserved_regions-built info aux supers st.heap [] 0 aux.groups
            (λ j lo hi. known j (omega arith))) in
      let (d, st', run', block, right, v'') =
        inode_attach_resize-Attached info aux
          (built-IsReserved st.heap rs (same_length supers 0 aux.groups) size) fuel room force
          (record { heap = h; bgs = bgs; queue = q }) reg bgs' dind ind (with_table table queued es)
          refl given some_len number v' (omega (arith, more)) in
      (
        (record { place = place; i_mode = user_file; i_links_count = 1; content = d }, st'),
        rw (found, ◌>>=◌) (rw (run, ◌>>=◌) (rw (looped, ◌>>=◌) (rw (run', ◌>>=◌) refl))),
        refl,
        (d, st', refl, block, right, v''),
      )
