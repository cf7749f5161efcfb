-- ===== src/Contents/Places.antt =====
-- `get_inode` of img-db/ext4_utils/allocate.c as contents.c calls it, a first and a second time.
use android_tools.Common.{
  ℕ, zero, suc, ◌+◌, ◌≤◌, ◌≡◌, refl, ap, sym, ◌∙◌, Bool, List, [], ◌∷◌, map, Option, none, some,
  get_elem?, set, length, done, ◌>>=◌,
}
use mathlib.Core.Option.{some-injective}
use android_tools.Fs.{FsInfo, FsAuxInfo}
use android_tools.Group.{BlockGroupInfo}
use android_tools.Alloc.{Groups, group_at}
use android_tools.Inode.{get_inode, inode_place, allocate_bg_inode_table}
use android_tools.Inode.Reserve.{numbered}
use android_tools.Queue.{Queue}
use android_tools.Queue.Chain.{Entry}
use android_tools.Queue.Order.{Holds}
use android_tools.Resize.Created.{with_table, queue_table-Holds}
use android_tools.Contents.{Files, find_inode}

-- What a group keeps of its blocks: the bitmap, how many are free, the first of these, and how many
-- have data.
abbrev pub block_state : BlockGroupInfo → List ℕ × ℕ × ℕ × ℕ
block_state g = (g.block_bitmap, g.free_blocks, g.first_free_block, g.data_blocks_used)

-- A group is replaced by one that keeps the same of its blocks.
pub block_state-set :
    (bgs : Groups) (k : ℕ) (new old : BlockGroupInfo)
    → get_elem? bgs k ≡ some old
    → block_state new ≡ block_state old
    → map block_state (set bgs k new) ≡ map block_state bgs
block_state-set [] k new old at same = refl
block_state-set (g ∷ bgs) zero new old at same =
    ap (λ s. s ∷ map block_state bgs) (same ∙ sym (ap block_state (some-injective _ _ at)))
block_state-set (g ∷ bgs) (suc k) new old at same =
    ap (λ t. block_state g ∷ t) (block_state-set bgs k new old at same)

module _ (info : FsInfo) (aux : FsAuxInfo) where
  -- a group once its inode table is there
  abbrev pub tabled : BlockGroupInfo → BlockGroupInfo
  tabled g = (allocate_bg_inode_table info aux g).0

  -- the queueing that goes with it
  abbrev pub table_of : BlockGroupInfo → Option (ℕ × ℕ)
  table_of g = (allocate_bg_inode_table info aux g).1

  pub table_of-tabled : (g : BlockGroupInfo) → table_of (tabled g) ≡ none
  unfolding allocate_bg_inode_table
  table_of-tabled g = go g.inode_table
    where
      go : (t : Option (List ℕ)) → table_of (tabled (record g { inode_table = t })) ≡ none
      go none = refl
      go (some t) = refl

  pub block_state-tabled : (g : BlockGroupInfo) → block_state (tabled g) ≡ block_state g
  unfolding allocate_bg_inode_table
  block_state-tabled g = go g.inode_table
    where
      go :
          (t : Option (List ℕ))
          → block_state (tabled (record g { inode_table = t }))
            ≡ block_state (record g { inode_table = t })
      go none = refl
      go (some t) = refl

  pub table_of-numbered :
      (g : BlockGroupInfo) (bitmap : List ℕ) → table_of (numbered g 1 bitmap) ≡ table_of g
  unfolding allocate_bg_inode_table
  table_of-numbered g bitmap = go g.inode_table
    where
      go :
          (t : Option (List ℕ))
          → table_of (numbered (record g { inode_table = t }) 1 bitmap)
            ≡ table_of (record g { inode_table = t })
      go none = refl
      go (some t) = refl

  get_inode_lem :
      (bgs : Groups) (g : BlockGroupInfo) (inode k o : ℕ)
      → get_elem? bgs k ≡ some g
      → inode_place info inode ≡ done (k, o)
      → get_inode info aux inode bgs ≡ done ((k, o), set bgs k (tabled g), table_of g)
  unfolding get_inode
  get_inode_lem bgs g inode k o at place = rw (place, ◌>>=◌) (rw (at, group_at) refl)

  module _ (force : Bool) (fuel table : ℕ) where
    -- `get_inode` finds the inode again at the same place, its table in the queue once.
    pub find_inode-Holds :
        (f : Files) (g : BlockGroupInfo) (inode k o : ℕ) (es : List Entry)
        → get_elem? f.st.bgs k ≡ some g
        → inode_place info inode ≡ done (k, o)
        → Holds f.st.queue es
        → length es ≤ fuel
        → (q : Queue) × (find_inode force info aux fuel table inode f
            ≡ done (
              (k, o),
              record f { st = record f.st { bgs = set f.st.bgs k (tabled g); queue = q } },
            ))
          × Holds q (with_table info aux table (table_of g) es)
          × (length (with_table info aux table (table_of g) es) ≤ length es + 1)
    unfolding find_inode
    find_inode-Holds f g inode k o es at place v room =
        let (q, run, v', more) =
          queue_table-Holds info aux force fuel table (table_of g) f.st.queue es v room in
        (
          q,
          rw (get_inode_lem f.st.bgs g inode k o at place, ◌>>=◌) (rw (run, ◌>>=◌) refl),
          v',
          more,
        )
