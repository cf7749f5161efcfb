-- ===== src/Superblock/Located.antt =====
-- The descriptors of the superblock against the groups of the allocator.
use android_tools.Common.{
  ℕ, zero, suc, ◌+◌, ◌*◌, ◌^◌, ◌≤◌, ◌<◌, ◌≡◌, refl, ap, sym, ◌∙◌, arith, Bool, true, false, ◌&&◌,
  not, ◌==◌, if◌then◌else◌, List, [], ◌∷◌, none, some, get_elem?, length, Run, done, ◌>>=◌,
  >>=-done, Bool-cases, inl, inr,
}
use mathlib.Core.Path.{subst}
use mathlib.Core.Option.{some-injective}
use android_tools.Fs.{FsInfo, FsAuxInfo, u32, bg_has_super_block}
use android_tools.Group.{BlockGroupInfo}
use android_tools.Group.Init.{init_bg, super_blocks, header_blocks}
use android_tools.Group.Init.Room.{InRange, init_bg-IsGroup}
use android_tools.Group.Init.Place.{init_bg-block}
use android_tools.Inode.{allocate_bg_inode_table}
use android_tools.Queue.{Queue, memory, queue_data}
use android_tools.Queue.Chain.{Entry}
use android_tools.Queue.Order.{insert_entry, Holds, length-insert_entry}
use android_tools.Queue.Add.{queue_data-Holds}
use android_tools.Superblock.{
  Descriptor, group_start, header_size, descriptor, queue_copies, fill_descriptors,
}

-- A descriptor leads to what the allocator has set up for the group: the block that `init_bg` queues
-- the bitmaps for, the one behind it, and the blocks that the inode table is queued for, which end
-- where the header of the group does.
pub record Located (force : Bool) (info : FsInfo) (aux : FsAuxInfo) (i : ℕ) (d : Descriptor)
    : Type 0 where
  pub bg : BlockGroupInfo
  pub runs : init_bg force info aux i ≡ done (bg, d.bg_block_bitmap)
  pub inside : bg.first_block ≤ d.bg_block_bitmap
  pub inode_bitmap : d.bg_inode_bitmap ≡ d.bg_block_bitmap + 1
  pub table :
      (allocate_bg_inode_table info aux bg).1
      ≡ some (d.bg_inode_table, u32 (aux.inode_table_blocks * info.block_size))
  pub ends : d.bg_inode_table + aux.inode_table_blocks ≡ bg.first_block + bg.header_blocks

module _ (force : Bool) (info : FsInfo) (aux : FsAuxInfo)
    (narrow : 2 + aux.inode_table_blocks + super_blocks aux true < 2 ^ 32) where
  super_blocks-le : (has_super : Bool) → super_blocks aux has_super ≤ super_blocks aux true
  super_blocks-le true = omega arith
  super_blocks-le false = omega arith

  header_size-eq : (has_super : Bool) → header_size aux has_super ≡ super_blocks aux has_super
  header_size-eq true = omega (arith, narrow)
  header_size-eq false = refl

  table_of :
      (bg : BlockGroupInfo)
      → bg.inode_table ≡ none
      → (allocate_bg_inode_table info aux bg).1
        ≡ some (
          u32 (bg.first_block + 2 + super_blocks aux bg.has_superblock),
          u32 (aux.inode_table_blocks * info.block_size),
        )
  unfolding allocate_bg_inode_table
  table_of bg e = rw e refl

  descriptor-Located :
      (i : ℕ) (has_super : Bool)
      → bg_has_super_block info i ≡ done has_super
      → InRange info aux i has_super
      → Located force info aux i (descriptor info aux i has_super)
  descriptor-Located i has_super super v =
      let (bg, block, run, _, _, k) = init_bg-IsGroup force info aux i has_super v super in
      let block_at = init_bg-block force info aux i has_super super run in
      let few = super_blocks-le has_super in
      let size = header_size-eq has_super in
      let s = super_blocks aux has_super in
      let first = aux.first_data_block + i * info.blocks_per_group in
      let header : header_blocks aux has_super ≡ 2 + aux.inode_table_blocks + s =
        omega (arith, few, narrow) in
      let fits : first + 2 + aux.inode_table_blocks + s < 2 ^ 32 =
        omega (arith, header, v.begins, v.len_small) in
      let start : group_start info aux i ≡ first = omega (arith, fits) in
      let bitmap : u32 (group_start info aux i + header_size aux has_super) ≡ first + s =
        rw (start, size) (omega (arith, fits)) in
      let next_one : u32 (group_start info aux i + header_size aux has_super + 1) ≡ first + s + 1 =
        rw (start, size) (omega (arith, fits)) in
      let table : u32 (group_start info aux i + header_size aux has_super + 2) ≡ first + s + 2 =
        rw (start, size) (omega (arith, fits)) in
      let first_eq : bg.first_block ≡ first = k.first_block ∙ start in
      let block_eq : block ≡ u32 (group_start info aux i + header_size aux has_super) =
        block_at ∙ ap (λ (t : ℕ). u32 (group_start info aux i + t)) (sym size) in
      record {
        bg = bg;
        runs = run ∙ ap (λ (t : ℕ). done (bg, t)) block_eq;
        inside = omega (arith, first_eq, bitmap);
        inode_bitmap = next_one ∙ omega (arith, bitmap);
        table =
            table_of bg k.inode_table
            ∙ ap (λ (t : ℕ). some (t, u32 (aux.inode_table_blocks * info.block_size)))
                {x = u32 (bg.first_block + 2 + super_blocks aux bg.has_superblock)}
                (rw (first_eq, k.has_superblock) (omega (arith, table, fits)));
        ends = omega (arith, table, first_eq, k.header_blocks, header);
      }

Located-cons :
    (force : Bool) (info : FsInfo) (aux : FsAuxInfo) (i : ℕ) {first : Descriptor}
    (descs : List Descriptor)
    → Located force info aux i first
    → ((k : ℕ) (d : Descriptor) → get_elem? descs k ≡ some d → Located force info aux (i + 1 + k) d)
    → (k : ℕ) (d : Descriptor) → get_elem? (first ∷ descs) k ≡ some d
    → Located force info aux (i + k) d
Located-cons force info aux i descs v vs zero d e =
    let same : i ≡ i + 0 = omega arith in
    subst (λ (t : ℕ). Located force info aux t d) same
      (subst (Located force info aux i) (some-injective _ _ e) v)
Located-cons force info aux i descs v vs (suc k) d e =
    let same : i + 1 + k ≡ i + suc k = omega arith in
    subst (λ (t : ℕ). Located force info aux t d) same (vs k d e)

module _ (info : FsInfo) (aux : FsAuxInfo) (fuel sb bg_desc : ℕ) where
  -- The entries with copies of the superblock and of the descriptors at the start of group `i`.
  abbrev pub copied : ℕ → List Entry → List Entry
  copied i es =
      insert_entry
        (
          u32 (group_start info aux i + 1),
          u32 (aux.bg_desc_blocks * info.block_size),
          memory bg_desc,
        )
        (insert_entry (group_start info aux i, info.block_size, memory sb) es)

  -- the same for every group from `i` on that has a superblock, but for the first group
  abbrev pub with_copies : (ℕ → Bool) → ℕ → ℕ → List Entry → List Entry
  with_copies supers i zero es = es
  with_copies supers i (suc left) es =
      with_copies supers (i + 1) left (if supers i && not (i == 0) then copied i es else es)

  queue_copies-Holds :
      (i : ℕ) (has_super : Bool) (q : Queue) (es : List Entry)
      → Holds q es
      → length es + 2 ≤ fuel
      → (q' : Queue) × (queue_copies info aux fuel sb bg_desc i has_super q ≡ done q')
        × Holds q' (if has_super && not (i == 0) then copied i es else es)
        × (length (if has_super && not (i == 0) then copied i es else es) ≤ length es + 2)
  unfolding queue_copies
  queue_copies-Holds i has_super q es v room = elim (Bool-cases (has_super && not (i == 0))) [
    | inl copy ↦
        let start = group_start info aux i in
        let len = u32 (aux.bg_desc_blocks * info.block_size) in
        let count = length-insert_entry (start, info.block_size, memory sb) es in
        let (q₁, run₁, v₁) =
          queue_data-Holds fuel q (memory sb) info.block_size start es v (omega arith) in
        let (q₂, run₂, v₂) =
          queue_data-Holds fuel q₁ (memory bg_desc) len (u32 (start + 1))
            (insert_entry (start, info.block_size, memory sb) es) v₁ (omega (arith, count)) in
        rw copy (
          q₂,
          >>=-done (queue_data fuel q (memory sb) info.block_size start)
              (λ q. queue_data fuel q (memory bg_desc) len (u32 (start + 1))) run₁ run₂,
          v₂,
          omega (
            arith,
            count,
            length-insert_entry (u32 (start + 1), len, memory bg_desc)
                (insert_entry (start, info.block_size, memory sb) es),
          ),
        )
    | inr plain ↦ rw plain (q, refl, v, omega arith)
  ]

  -- What the loop leaves, from group `i` on.
  abbrev pub Filled :
      (ℕ → Bool) → Bool → ℕ → ℕ → List Entry → Run (List Descriptor × Queue) → Type 0
  Filled supers force i left es r =
      (descs : List Descriptor) × (q : Queue) × (r ≡ done (descs, q))
      × (length descs ≡ left)
      × ((k : ℕ) (d : Descriptor) → get_elem? descs k ≡ some d → Located force info aux (i + k) d)
      × Holds q (with_copies supers i left es)

  pub fill_descriptors-Filled :
      (force : Bool) (supers : ℕ → Bool) (i left : ℕ) (q : Queue) (es : List Entry)
      → 2 + aux.inode_table_blocks + super_blocks aux true < 2 ^ 32
      → ((j : ℕ)
          → i ≤ j
          → j < i + left
          → (bg_has_super_block info j ≡ done (supers j)) × InRange info aux j (supers j))
      → Holds q es
      → length es + 2 * left ≤ fuel
      → Filled supers force i left es (fill_descriptors info aux fuel sb bg_desc i left q)
  unfolding fill_descriptors
  fill_descriptors-Filled force supers i zero q es narrow ready v room =
      ([], q, refl, refl, λ k d e. cc, v)
  fill_descriptors-Filled force supers i (suc left) q es narrow ready v room =
      let (super, range) = ready i (omega arith) (omega arith) in
      let (q₁, run₁, v₁, few) = queue_copies-Holds i (supers i) q es v (omega arith) in
      let (descs, q₂, run₂, len, located, v₂) =
        fill_descriptors-Filled force supers (i + 1) left q₁
          (if supers i && not (i == 0) then copied i es else es) narrow
          (λ j lo hi. ready j (omega arith) (omega arith)) v₁ (omega (arith, few)) in
      (
        descriptor info aux i (supers i) ∷ descs,
        q₂,
        rw (super, ◌>>=◌) (rw (run₁, ◌>>=◌) (rw (run₂, ◌>>=◌) refl)),
        ap suc len,
        Located-cons force info aux i descs
            (descriptor-Located force info aux narrow i (supers i) super range) located,
        v₂,
      )
