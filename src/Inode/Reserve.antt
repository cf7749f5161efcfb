-- ===== src/Inode/Reserve.antt =====
-- `reserve_inodes` of img-db/ext4_utils/allocate.c on one group, and the invariant of its inodes.
use android_tools.Common.{
  ℕ, zero, suc, ◌+◌, ◌-◌, ◌*◌, ◌/◌, ◌^◌, ◌≤◌, ◌<◌, ◌≡◌, refl, ap, ◌∙◌, arith, true, false, List,
  some, ltb, get_elem?, get_elem?-eq-get_or, set, length, IsBytes, done, ◌>>=◌,
}
use android_tools.Bitmap.{bit_at}
use android_tools.Bitmap.Marks.{Marks, Marks-none, Marks-trans, with_bit, with_bit-Marks}
use android_tools.Fs.{u32}
use android_tools.Group.{BlockGroupInfo, allocate_failed}
use android_tools.Alloc.{Groups, group_at}
use android_tools.Inode.{set_inode, set_inodes, reserve_inodes}

-- The inodes of a group are numbered from 1; taken are those below `first_free_inode`, free the
-- others of its `n`.
pub record IsInodes (n : ℕ) (g : BlockGroupInfo) : Type 0 where
  pub bytes : IsBytes g.inode_bitmap
  pub covered : n ≤ 8 * length g.inode_bitmap
  pub from_one : 0 < g.first_free_inode
  pub count : g.first_free_inode + g.free_inodes ≡ n + 1
  pub small : n < 2 ^ 32 - 2
  pub bits : (k : ℕ) → k < n → bit_at g.inode_bitmap k ≡ ltb (k + 1) g.first_free_inode

set_inode_lem :
    (bitmap : List ℕ) (inode : ℕ)
    → inode / 8 < length bitmap
    → set_inode bitmap inode ≡ done (with_bit bitmap inode)
unfolding set_inode
set_inode_lem bitmap inode h = ground (arith, get_elem?-eq-get_or bitmap (inode / 8) 0)

set_inodes_step :
    (first left i : ℕ) (bitmap : List ℕ)
    → 0 < first
    → first + i < 2 ^ 32
    → (first + i - 1) / 8 < length bitmap
    → set_inodes first (suc left) i bitmap
      ≡ set_inodes first left (i + 1) (with_bit bitmap (first + i - 1))
unfolding set_inodes
set_inodes_step first left i bitmap pos small inside =
    let at : u32 (first + i + 2 ^ 32 - 1) ≡ first + i - 1 = omega arith in
    ap (λ r. r >>= set_inodes first left (i + 1))
      (ap (set_inode bitmap) at ∙ set_inode_lem bitmap (first + i - 1) inside)

set_inodes-Marks :
    (first left i : ℕ) (bitmap : List ℕ)
    → 0 < first
    → first + i + left < 2 ^ 32
    → first + i + left ≤ 8 * length bitmap + 1
    → IsBytes bitmap
    → (new : List ℕ) × (set_inodes first left i bitmap ≡ done new)
      × Marks bitmap new (first + i - 1) left
unfolding set_inodes
set_inodes-Marks first zero i bitmap pos small room b =
    (bitmap, refl, Marks-none bitmap (first + i - 1) b)
set_inodes-Marks first (suc left) i bitmap pos small room b =
    let inside : (first + i - 1) / 8 < length bitmap = omega arith in
    let m = with_bit-Marks bitmap (first + i - 1) b inside in
    let (new, run, rest) =
      set_inodes-Marks first left (i + 1) (with_bit bitmap (first + i - 1)) pos (omega arith)
        (omega (arith, m.same_length)) m.bytes in
    let next : first + (i + 1) - 1 ≡ first + i - 1 + 1 = omega arith in
    let whole : 1 + left ≡ suc left = omega arith in
    (
      new,
      set_inodes_step first left i bitmap pos (omega arith) inside ∙ run,
      rw whole at (Marks-trans m (rw next at rest)),
    )

abbrev pub numbered : BlockGroupInfo → ℕ → List ℕ → BlockGroupInfo
numbered g num bitmap = record g {
  inode_bitmap = bitmap;
  first_free_inode = u32 (g.first_free_inode + num);
  free_inodes = g.free_inodes - num;
}

-- A group with well-formed inodes, `num` of them free: `reserve_inodes` returns the lowest free
-- number, sets the bits of the `num` inodes from there on and no others, changes no other group,
-- and leaves the group's inodes well formed.
pub reserve_inodes-IsInodes :
    (n : ℕ) (bgs : Groups) (bg num : ℕ) {g : BlockGroupInfo}
    → get_elem? bgs bg ≡ some g
    → IsInodes n g
    → num ≤ g.free_inodes
    → (bitmap : List ℕ) × (reserve_inodes bgs bg num
        ≡ done (g.first_free_inode, set bgs bg (numbered g num bitmap)))
      × Marks g.inode_bitmap bitmap (g.first_free_inode - 1) num
      × IsInodes n (numbered g num bitmap)
unfolding reserve_inodes
reserve_inodes-IsInodes n bgs bg num {g} e v h =
    let test : ltb g.free_inodes num ≡ false = ground arith in
    let (bitmap, run, m) =
      set_inodes-Marks g.first_free_inode num 0 g.inode_bitmap v.from_one
        (omega (arith, v.count, v.small)) (omega (arith, v.count, v.covered)) v.bytes in
    let start : g.first_free_inode + 0 - 1 ≡ g.first_free_inode - 1 = omega arith in
    let marks : Marks g.inode_bitmap bitmap (g.first_free_inode - 1) num = rw start at m in
    let sum : u32 (g.first_free_inode + num) ≡ g.first_free_inode + num =
      omega (arith, v.count, v.small) in
    (
      bitmap,
      rw (e, group_at) (rw (test, run) refl),
      marks,
      record {
        bytes = m.bytes;
        covered = ground (arith, v.covered, m.same_length);
        from_one = omega (arith, sum, v.from_one);
        count = omega (arith, sum, v.count);
        small = v.small;
        bits = λ k below. ground (arith, v.bits k, marks.bits k, v.from_one, sum);
      },
    )

-- A group with fewer free inodes: nothing changes.
pub reserve_inodes-refused :
    (bgs : Groups) (bg num : ℕ) {g : BlockGroupInfo}
    → get_elem? bgs bg ≡ some g
    → g.free_inodes < num
    → reserve_inodes bgs bg num ≡ done (allocate_failed, bgs)
unfolding reserve_inodes
reserve_inodes-refused bgs bg num {g} e h =
    let test : ltb g.free_inodes num ≡ true = ground arith in rw (e, group_at) (rw test)
