-- ===== src/Inode/Fresh.antt =====
-- `allocate_inode` over all groups, and the place of an inode, of img-db/ext4_utils/allocate.c.
use android_tools.Common.{
  ℕ, zero, suc, ◌+◌, ◌-◌, ◌*◌, ◌/◌, ◌%◌, ◌^◌, ◌≤◌, ◌<◌, ◌≡◌, refl, ap, sym, ◌∙◌, arith, false, List,
  some, ◌==◌, get_elem?, set, length, Run, done, ◌>>=◌,
}
use mathlib.Core.Option.{some-injective}
use native.Mathlib.Decide.{dec_lt}
use native.Mathlib.Nat.{
  mul-le-mul_right, mul-add-div_right, div-eq_of_lt, mul-add-mod_self_right, mod-eq_of_lt,
}
use android_tools.Bitmap.{bit_at}
use android_tools.Bitmap.Marks.{Marks}
use android_tools.Fs.{FsInfo, u32}
use android_tools.Group.{BlockGroupInfo, allocate_failed}
use android_tools.Alloc.{Groups}
use android_tools.Alloc.Pool.{get_elem?-lt}
use android_tools.Alloc.Spread.{in_range}
use android_tools.Inode.{reserve_inodes, inode_from, allocate_inode, inode_place}
use android_tools.Inode.Reserve.{
  IsInodes, numbered, reserve_inodes-IsInodes, reserve_inodes-refused,
}

-- every group's inodes are well formed
abbrev pub AreInodes : ℕ → Groups → Type 0
AreInodes n bgs = (i : ℕ) (g : BlockGroupInfo) → get_elem? bgs i ≡ some g → IsInodes n g

-- What a search for a free inode from group `i` on comes to: the lowest one of the first group that
-- has any, whose bit was clear and is now the only one more that is set; or no group has one.
pub data Numbered (n : ℕ) (bgs : Groups) (i : ℕ) (r : Run (ℕ × Groups)) : Type 0 where
  numbered_in :
      (k : ℕ) (old : BlockGroupInfo) (bitmap : List ℕ)
      → i ≤ k
      → ((j : ℕ) (g : BlockGroupInfo)
          → i ≤ j
          → j < k
          → get_elem? bgs j ≡ some g
          → g.free_inodes ≡ 0)
      → get_elem? bgs k ≡ some old
      → 0 < old.free_inodes
      → bit_at old.inode_bitmap (old.first_free_inode - 1) ≡ false
      → Marks old.inode_bitmap bitmap (old.first_free_inode - 1) 1
      → IsInodes n (numbered old 1 bitmap)
      → r ≡ done (k * n + old.first_free_inode, set bgs k (numbered old 1 bitmap))
      → Numbered n bgs i r
  none_left :
      ((j : ℕ) (g : BlockGroupInfo) → i ≤ j → get_elem? bgs j ≡ some g → g.free_inodes ≡ 0)
      → r ≡ done (allocate_failed, bgs)
      → Numbered n bgs i r

module _ (info : FsInfo) where
  abbrev n : ℕ
  n = info.inodes_per_group

  inode_from-hit :
      (left i : ℕ) (bgs : Groups) {inode : ℕ} {bgs' : Groups}
      → reserve_inodes bgs i 1 ≡ done (inode, bgs')
      → inode < 2 ^ 32 - 1
      → i * n + inode < 2 ^ 32
      → inode_from info (suc left) i bgs ≡ done (i * n + inode, bgs')
  unfolding inode_from
  inode_from-hit left i bgs {inode} e h whole =
      let test : (inode == allocate_failed) ≡ false = ground arith in
      let same : u32 (u32 (i * n) + inode) ≡ i * n + inode = omega arith in
      rw (e, ◌>>=◌) (rw (test, same) refl)

  inode_from-miss :
      (left i : ℕ) (bgs : Groups)
      → reserve_inodes bgs i 1 ≡ done (allocate_failed, bgs)
      → inode_from info (suc left) i bgs ≡ inode_from info left (i + 1) bgs
  unfolding inode_from
  inode_from-miss left i bgs e = rw e

  Numbered-next :
      {i : ℕ} {bgs : Groups} {r : Run (ℕ × Groups)} {here : BlockGroupInfo}
      → get_elem? bgs i ≡ some here
      → here.free_inodes ≡ 0
      → Numbered n bgs (i + 1) r
      → Numbered n bgs i r
  Numbered-next {i} {bgs} {here = here} e z s = go s
    where
      each :
          (j : ℕ) (g : BlockGroupInfo)
          → (i + 1 ≤ j → g.free_inodes ≡ 0)
          → i ≤ j
          → get_elem? bgs j ≡ some g
          → g.free_inodes ≡ 0
      each j g later lo at = elim (dec_lt i j) [
        | yes p ↦ later (omega arith)
        | no p ↦
            let same : j ≡ i = omega arith in
            let is : g ≡ here = some-injective _ _ (sym (rw same at at) ∙ e) in rw is z
      ]

      go : {r : Run (ℕ × Groups)} → Numbered n bgs (i + 1) r → Numbered n bgs i r
      go (numbered_in k old bitmap le before at pos bit m v run) =
          numbered_in k old bitmap (omega arith)
            (λ j g lo hi at. each j g (λ later. before j g later hi at) lo at) at pos bit m v run
      go (none_left all run) =
          none_left (λ j g lo at. each j g (λ later. all j g later at) lo at) run

  inode_from-Numbered :
      (left i : ℕ) (bgs : Groups)
      → AreInodes n bgs
      → length bgs * n < 2 ^ 32
      → i + left ≡ length bgs
      → Numbered n bgs i (inode_from info left i bgs)
  inode_from-Numbered zero i bgs v small e =
      none_left (λ j g lo at. absurd (omega (arith, in_range bgs j at))) (unfold inode_from in refl)
  inode_from-Numbered (suc left) i bgs v small e =
      let (g, at) = get_elem?-lt bgs i (omega arith) in
      let w = v i g at in
      elim (dec_lt g.free_inodes 1) [
        | yes few ↦ rw (inode_from-miss left i bgs (reserve_inodes-refused bgs i 1 at few)) (
            Numbered-next at (omega arith)
              (inode_from-Numbered left (i + 1) bgs v small (omega arith)))
        | no enough ↦
            let (bitmap, run, m, w') = reserve_inodes-IsInodes n bgs i 1 at w (omega arith) in
            let upto : (i + 1) * n ≤ length bgs * n = mul-le-mul_right n (omega arith) in
            numbered_in i g bitmap (omega arith) (λ j g lo hi. absurd (omega arith)) at
              (omega arith) (ground (arith, w.bits (g.first_free_inode - 1), w.count, w.from_one)) m
              w'
              (inode_from-hit left i bgs run (omega (arith, w.count, w.small))
                (omega (arith, upto, w.count)))
      ]

  -- With groups whose inodes are well formed and whose inode numbers fit 32 bits, `allocate_inode`
  -- returns the lowest number that is free in the first group that has one, whose bit was clear; it
  -- sets that bit and no other and leaves the group's inodes well formed. It fails, and changes
  -- nothing, only where no group has a free inode.
  pub allocate_inode-Numbered :
      (bgs : Groups)
      → AreInodes n bgs
      → length bgs * n < 2 ^ 32
      → Numbered n bgs 0 (allocate_inode info bgs)
  unfolding allocate_inode
  allocate_inode-Numbered bgs v small = inode_from-Numbered (length bgs) 0 bgs v small (omega arith)

  -- Where the products fit 32 bits, the number `k * inodes_per_group + j`, with `j` from 1 to
  -- `inodes_per_group`, is that of inode `j` of group `k`: `get_inode` goes to that group, and `j -
  -- 1` inodes into its table.
  pub inode_place_lem :
      (k j : ℕ)
      → 0 < j
      → j ≤ n
      → k * n + j < 2 ^ 32
      → n * info.inode_size < 2 ^ 32
      → inode_place info (k * n + j) ≡ done (k, (j - 1) * info.inode_size)
  unfolding inode_place
  inode_place_lem k j pos le small size =
      let at : u32 (k * n + j + 2 ^ 32 - 1) ≡ k * n + (j - 1) = omega arith in
      let test : (n == 0) ≡ false = ground arith in
      let group : (k * n + (j - 1)) / n ≡ k =
        mul-add-div_right {m = n} (omega arith) k (j - 1)
        ∙ ap (λ (x : ℕ). k + x) (div-eq_of_lt (omega arith))
        ∙ omega arith in
      let place : (k * n + (j - 1)) % n ≡ j - 1 =
        mul-add-mod_self_right k n (j - 1) ∙ mod-eq_of_lt (omega arith) in
      let upto : (j - 1) * info.inode_size ≤ n * info.inode_size =
        mul-le-mul_right info.inode_size (omega arith) in
      let whole : u32 ((j - 1) * info.inode_size) ≡ (j - 1) * info.inode_size =
        omega (arith, upto) in
      rw (test, inode_place) (rw at (rw (group, place) (rw whole refl)))
