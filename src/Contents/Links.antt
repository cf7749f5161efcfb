-- ===== src/Contents/Links.antt =====
-- `make_link` and `inode_set_permissions` of img-db/ext4_utils/contents.c on a new inode.
use android_tools.Common.{
  ℕ, suc, ◌+◌, ◌-◌, ◌*◌, ◌%◌, ◌^◌, ◌≤◌, ◌<◌, ◌≡◌, refl, ap, ◌∙◌, map, arith, Bool, true, false, leb,
  if◌then◌else◌, Bool-cases, inl, inr, List, [], ◌∷◌, some, ◌==◌, get_elem?, set, length, take,
  bit_or, done, ◌>>=◌, get_elem?-set_self,
}
use native.Mathlib.Nat.{mul-le-mul_right}
use android_tools.Fs.{FsInfo, FsAuxInfo}
use android_tools.Bitmap.{bit_at}
use android_tools.Group.{BlockGroupInfo, ok, allocate_failed}
use android_tools.Alloc.{Groups}
use android_tools.Alloc.Spread.{in_range}
use android_tools.Inode.{allocate_inode, inode_place}
use android_tools.Inode.Reserve.{numbered}
use android_tools.Inode.Fresh.{
  AreInodes, numbered_in, none_left, allocate_inode-Numbered, inode_place_lem,
}
use android_tools.Queue.{Queue}
use android_tools.Queue.Chain.{Entry}
use android_tools.Queue.Order.{Holds}
use android_tools.Resize.Created.{with_table}
use android_tools.Contents.Places.{
  tabled, block_state, block_state-tabled, block_state-set, table_of, table_of-tabled,
  table_of-numbered, find_inode-Holds,
}
use android_tools.Contents.{
  Files, InodeFields, bytes, iflnk, same_place, typed, put_inode, make_link, inode_set_permissions,
}

take-length {ℓ} : {A : Type ℓ} (xs : List A) → take (length xs) xs ≡ xs
take-length [] = refl
take-length (x ∷ xs) = ap (λ t. x ∷ t) (take-length xs)

module _ (info : FsInfo) (aux : FsAuxInfo) (force : Bool) (fuel table : ℕ) where
  -- the filesystem after `get_inode` in group `k`
  abbrev placed : Files → ℕ → BlockGroupInfo → Groups → Queue → Files
  placed f k g bgs q = record f {
    st = record f.st { bgs = set bgs k (tabled info aux g); queue = q };
  }

  -- and after `make_link`
  abbrev with_link : List ℕ → ℕ × ℕ → Files → Files
  with_link link place f =
      put_inode
        (put_inode f place
          (λ i. record (typed force info aux fuel iflnk 1 i) { i_size_lo = length link }))
        place (λ i. record i { i_block = bytes link })

  -- and after `inode_set_permissions`
  abbrev permitted : ℕ → ℕ → ℕ → ℕ → ℕ × ℕ → Files → Files
  permitted mode uid gid mtime place f = put_inode f place λ i. record i {
    i_mode = bit_or i.i_mode mode;
    i_uid = uid;
    i_gid = gid;
    i_mtime = mtime;
    i_atime = mtime;
    i_ctime = mtime;
  }

  make_link_lem :
      (f : Files) (link : List ℕ) (g : BlockGroupInfo) (bgs : Groups) (inode k o ptr : ℕ)
      (es : List Entry)
      → length link < 60
      → allocate_inode info f.st.bgs ≡ done (inode, bgs)
      → (inode == allocate_failed) ≡ false
      → get_elem? bgs k ≡ some g
      → inode_place info inode ≡ done (k, o)
      → Holds f.st.queue es
      → length es ≤ fuel
      → (q : Queue) × (make_link force info aux fuel table ptr f link
          ≡ done (inode, with_link link (k, o) (placed f k g bgs q)))
        × Holds q (with_table info aux table (table_of info aux g) es)
        × (length (with_table info aux table (table_of info aux g) es) ≤ length es + 1)
  unfolding make_link
  make_link_lem f link g bgs inode k o ptr es short given good at place v room =
      let f' : Files = record f { st = record f.st { bgs = bgs } } in
      let (q, run, v', more) =
        find_inode-Holds info aux force fuel table f' g inode k o es at place v room in
      let whole : length link % 2 ^ 32 ≡ length link = omega arith in
      let fits : leb ((length link + 1) % 2 ^ 32) 60 ≡ true = ground arith in
      (
        q,
        rw (given, ◌>>=◌)
            (rw good (rw (run, ◌>>=◌) (rw whole (rw fits (rw (take-length link) refl))))),
        v',
        more,
      )

  -- A link with the permissions, where the inode was `i`.
  abbrev pub a_link : List ℕ → ℕ → ℕ → ℕ → ℕ → InodeFields → InodeFields
  a_link link mode uid gid mtime i = record i {
    i_mode = bit_or iflnk mode;
    i_uid = uid;
    i_gid = gid;
    i_links_count = 1;
    i_flags = bit_or i.i_flags aux.default_i_flags;
    i_mtime = mtime;
    i_atime = mtime;
    i_ctime = mtime;
    i_size_lo = length link;
    i_block = bytes link;
  }

  -- What `make_link` and `inode_set_permissions` leave, one after the other: the new number is
  -- that of an inode whose bit was clear, the one of group `k` at `o` in its table.
  abbrev pub Linked : Files → List ℕ → ℕ → ℕ → ℕ → ℕ → ℕ → List Entry → Type 0
  Linked f link ptr mode uid gid mtime es =
      (k : ℕ) × (g : BlockGroupInfo) × (f1 : Files) × (f2 : Files) × (get_elem? f.st.bgs k ≡ some g)
      × (bit_at g.inode_bitmap (g.first_free_inode - 1) ≡ false)
      × (make_link force info aux fuel table ptr f link
          ≡ done (k * info.inodes_per_group + g.first_free_inode, f1))
      × (inode_set_permissions force info aux fuel table f1
            (k * info.inodes_per_group + g.first_free_inode) mode uid gid mtime
          ≡ done (ok, f2))
      × ((p : ℕ × ℕ)
          → f2.inodes p ≡ (
              if same_place p (k, (g.first_free_inode - 1) * info.inode_size)
              then a_link link mode uid gid mtime (f.inodes p)
              else f.inodes p))
      × (f2.st.heap ≡ f.st.heap)
      × (map block_state f2.st.bgs ≡ map block_state f.st.bgs)
      × Holds f2.st.queue (with_table info aux table (table_of info aux g) es)

  link_in_group :
      (f : Files) (link : List ℕ) (ptr mode uid gid mtime k : ℕ) (es : List Entry)
      (g : BlockGroupInfo) (bitmap : List ℕ)
      → length link < 60
      → allocate_inode info f.st.bgs
        ≡ done
            (k * info.inodes_per_group + g.first_free_inode, set f.st.bgs k (numbered g 1 bitmap))
      → get_elem? f.st.bgs k ≡ some g
      → bit_at g.inode_bitmap (g.first_free_inode - 1) ≡ false
      → inode_place info (k * info.inodes_per_group + g.first_free_inode)
        ≡ done (k, (g.first_free_inode - 1) * info.inode_size)
      → k * info.inodes_per_group + g.first_free_inode < 2 ^ 32 - 1
      → Holds f.st.queue es
      → length es < fuel
      → Linked f link ptr mode uid gid mtime es
  unfolding inode_set_permissions
  link_in_group f link ptr mode uid gid mtime k es g bitmap short given at clear place small v
        room =
      let n = k * info.inodes_per_group + g.first_free_inode in
      let o = (g.first_free_inode - 1) * info.inode_size in
      let g1 = numbered g 1 bitmap in
      let bgs1 = set f.st.bgs k g1 in
      let at1 : get_elem? bgs1 k ≡ some g1 =
        get_elem?-set_self f.st.bgs k g1 (in_range f.st.bgs k at) in
      let at2 : get_elem? (set bgs1 k (tabled info aux g1)) k ≡ some (tabled info aux g1) =
        get_elem?-set_self bgs1 k (tabled info aux g1) (in_range bgs1 k at1) in
      let good : (n == allocate_failed) ≡ false = ground arith in
      let (q, run, v', more) =
        make_link_lem f link g1 bgs1 n k o ptr es short given good at1 place v (omega arith) in
      let f1 = with_link link (k, o) (placed f k g1 bgs1 q) in
      let (q', run', v'', _) =
        find_inode-Holds info aux force fuel table f1 (tabled info aux g1) n k o
          (with_table info aux table (table_of info aux g1) es) at2 place v'
          (omega (arith, more)) in
      let f2 =
        permitted mode uid gid mtime (k, o)
          (placed f1 k (tabled info aux g1) (set bgs1 k (tabled info aux g1)) q') in
      let queued_once : Holds q' (
            with_table info aux table (table_of info aux (tabled info aux g1))
              (with_table info aux table (table_of info aux g1) es))
          → Holds q' (with_table info aux table (table_of info aux g) es) =
        λ h. rw (table_of-numbered info aux g bitmap) at (rw (table_of-tabled info aux g1) at h) in
      (
        k,
        g,
        f1,
        f2,
        at,
        clear,
        run,
        rw (run', ◌>>=◌) refl,
        (λ p. elim (Bool-cases (same_place p (k, o))) [
          | inl here ↦ rw here refl
          | inr other ↦ rw other refl
        ]),
        refl,
        block_state-set (set bgs1 k (tabled info aux g1)) k (tabled info aux (tabled info aux g1))
              (tabled info aux g1) at2 (block_state-tabled info aux (tabled info aux g1))
            ∙ block_state-set bgs1 k (tabled info aux g1) g1 at1 (block_state-tabled info aux g1)
            ∙ block_state-set f.st.bgs k g1 g at refl,
        queued_once v'',
      )

  -- Groups with well-formed inodes, one of which is free, whose numbers and tables fit 32 bits, a
  -- link shorter than 60 bytes, and fuel for the queue: `make_link` and `inode_set_permissions` of
  -- its result return. The number is that of an inode whose bit was clear; the inode then has the
  -- link in `i_block`, its length, the type of a link with the given permissions, owner and times,
  -- the default flags, and one name. Every other inode is as it was. No block is allocated: the
  -- nodes of regions are as they were, and so are the block bitmap, the counts of free and of data
  -- blocks and the first free block of each group. Nothing is queued but the inode table of the
  -- group, once, if it is new.
  pub make_link-inode_set_permissions :
      (f : Files) (link : List ℕ) (ptr mode uid gid mtime i : ℕ) (g : BlockGroupInfo)
      (es : List Entry)
      → AreInodes info.inodes_per_group f.st.bgs
      → length f.st.bgs * info.inodes_per_group < 2 ^ 32 - 1
      → info.inodes_per_group * info.inode_size < 2 ^ 32
      → get_elem? f.st.bgs i ≡ some g
      → 0 < g.free_inodes
      → length link < 60
      → Holds f.st.queue es
      → length es < fuel
      → Linked f link ptr mode uid gid mtime es
  make_link-inode_set_permissions f link ptr mode uid gid mtime i g es v whole size at free short
        queue room =
      elim (allocate_inode-Numbered info f.st.bgs v (omega arith)) [
        | numbered_in k old bitmap _ _ at' has clear _ _ run ↦
            let count : old.first_free_inode ≤ info.inodes_per_group =
              omega (arith, (v k old at').count, has) in
            let upto : suc k * info.inodes_per_group ≤ length f.st.bgs * info.inodes_per_group =
              mul-le-mul_right info.inodes_per_group (in_range f.st.bgs k at') in
            link_in_group f link ptr mode uid gid mtime k es old bitmap short run at' clear
              (inode_place_lem info k old.first_free_inode (v k old at').from_one count
                (omega (arith, upto, count)) size)
              (omega (arith, upto, count)) queue room
        | none_left all _ ↦ absurd (omega (arith, all i g (omega arith) at))
      ]
