-- ===== src/Contents.antt =====
-- What is put into a filesystem, img-db/ext4_utils/contents.c: directories, files and links with their
-- inodes, and the blocks for a long link from indirect.c.
pub mod Places
pub mod Links
use android_tools.Common.{
  ℕ, ◌+◌, ◌-◌, ◌*◌, ◌/◌, ◌%◌, ◌^◌, Bool, ◌&&◌, List, Option, none, some, ◌==◌, ltb, leb,
  if◌then◌else◌, length, take, bit_or, Run, done, exited, fault, ◌>>=◌, ◌>>◌, error,
}
use android_tools.Fs.{FsInfo, FsAuxInfo, u32, div_round_up}
use android_tools.Group.{Status, ok, allocate_failed}
use android_tools.Inode.{allocate_inode, add_directory, get_inode}
use android_tools.Regions.{Allocation, allocate_blocks}
use android_tools.Extents.{
  ExtentTree, InodeData, State, extent_create_backing, inode_allocate_data_extents,
  inode_allocate_file_extents,
}
use android_tools.Directory.{Dentry, DirData, directory_len, fill_directory}
use android_tools.Resize.{queue_table}

-- `i_block`: as it was, the extents, or the bytes of a link with what was behind them.
pub data Body : Type 0 where
  unset : Body
  tree : ExtentTree → Body
  bytes : List ℕ → Body

-- `struct ext4_inode`, as far as it is written.
pub record InodeFields : Type 0 where
  pub i_mode : ℕ
  pub i_uid : ℕ
  pub i_gid : ℕ
  pub i_links_count : ℕ
  pub i_flags : ℕ
  pub i_mtime : ℕ
  pub i_atime : ℕ
  pub i_ctime : ℕ
  pub i_size_lo : ℕ
  pub i_size_high : ℕ
  pub i_blocks_lo : ℕ
  pub l_i_blocks_high : ℕ
  pub i_block : Body

-- The allocators and the queue, and the inodes by their group and their offset in its table.
pub record Files : Type 0 where
  pub st : State
  pub inodes : ℕ × ℕ → InodeFields

abbrev pub same_place : ℕ × ℕ → ℕ × ℕ → Bool
same_place a b = a.0 == b.0 && a.1 == b.1

-- a write to the fields of an inode
abbrev pub put_inode : Files → ℕ × ℕ → (InodeFields → InodeFields) → Files
put_inode f place change = record f {
  inodes = λ p. if same_place p place then change (f.inodes p) else f.inodes p;
}

-- What the functions of extent.c set in an inode, if they succeed.
abbrev pub with_extents : Option InodeData → InodeFields → InodeFields
with_extents none i = i
with_extents (some d) i = record i {
  i_flags = d.i_flags;
  i_size_lo = d.i_size_lo;
  i_size_high = d.i_size_high;
  i_blocks_lo = d.i_blocks_lo;
  l_i_blocks_high = d.l_i_blocks_high;
  i_block = tree d.i_block;
}

-- S_IFREG, S_IFDIR, S_IFLNK, EXT4_ROOT_INO, and `sizeof(inode->i_block)`
abbrev pub ifreg : ℕ
ifreg = 0x8000

abbrev pub ifdir : ℕ
ifdir = 0x4000

abbrev pub iflnk : ℕ
iflnk = 0xA000

abbrev pub root_ino : ℕ
root_ino = 2

abbrev pub i_block_size : ℕ
i_block_size = 60

-- DIV_ROUND_UP of two `u32`
abbrev pub round_up_by : ℕ → ℕ → Run ℕ
round_up_by x y = if y == 0 then fault else done (div_round_up 32 x y)

-- `indirect_blocks_needed`; `critical_error` exits.
unfoldable pub indirect_blocks_needed : FsAuxInfo → ℕ → Run ℕ
indirect_blocks_needed aux len =
    if leb len 12
    then done 0
    else (round_up_by (len - 12) aux.blocks_per_ind >>= λ ind.
        let len = len - 12 in
        if leb len aux.blocks_per_ind
        then done ind
        else (round_up_by (len - aux.blocks_per_ind) aux.blocks_per_dind >>= λ dind.
            let len = len - aux.blocks_per_ind in
            if leb len aux.blocks_per_dind
            then done (u32 (ind + dind))
            else (round_up_by (len - aux.blocks_per_dind) aux.blocks_per_tind >>= λ tind.
                if leb (len - aux.blocks_per_dind) aux.blocks_per_tind
                then done (u32 (u32 (ind + dind) + tind))
                else exited)))

module _ (force : Bool) (info : FsInfo) (aux : FsAuxInfo) (fuel : ℕ) where
  unfoldable pub do_inode_allocate_indirect : State → ℕ → Run (Option Allocation × State)
  do_inode_allocate_indirect st block_len = indirect_blocks_needed aux block_len >>= λ indirect_len.
      allocate_blocks force fuel st.heap (u32 (block_len + indirect_len)) st.bgs >>= λ r. elim r.0 [
        | none ↦ error force >> done (none, record st { heap = r.1; bgs = r.2 })
        | some alloc ↦ done (some alloc, record st { heap = r.1; bgs = r.2 })
      ]

  -- `create_backing`, whose loop is that of `extent_create_backing`
  unfoldable pub create_backing : State → Allocation → ℕ → ℕ → Run State
  create_backing st alloc data_ptr backing_len =
      if info.block_size == 0
      then fault
      else if ltb 12 (div_round_up 64 backing_len info.block_size)
      then exited
      else (extent_create_backing force info fuel fuel st.heap alloc st.queue data_ptr backing_len
          >>= λ q. done (record st { queue = q }))

  -- `inode_allocate_data_indirect`; the result is the address of the buffer, or NULL.
  unfoldable pub inode_allocate_data_indirect : State → ℕ → ℕ → ℕ → Run (Option ℕ × State)
  inode_allocate_data_indirect st len backing_len data_ptr =
      do_inode_allocate_indirect st (u32 len) >>= λ r. elim r.0 [
        | none ↦ error force >> done (none, r.1)
        | some alloc ↦
            if backing_len == 0
            then done (none, r.1)
            else (create_backing r.1 alloc data_ptr backing_len >>= λ st. done (some data_ptr, st))
      ]

  -- `get_inode`, with the queueing of a new table at address `table`
  unfoldable pub find_inode : ℕ → ℕ → Files → Run ((ℕ × ℕ) × Files)
  find_inode table inode_num f = get_inode info aux inode_num f.st.bgs >>= λ (place, bgs, queued).
      queue_table force info aux fuel table queued f.st.queue >>= λ q.
      done (place, record f { st = record f.st { bgs = bgs; queue = q } })

  -- What `make_file` and `make_link` begin with: a new inode, or the mark of a failure.
  abbrev pub with_inode : ℕ → Files → (ℕ → ℕ × ℕ → Files → Run (ℕ × Files)) → Run (ℕ × Files)
  with_inode table f use_inode = allocate_inode info f.st.bgs >>= λ (n, bgs).
      let f' = record f { st = record f.st { bgs = bgs } } in
      if n == allocate_failed
      then error force >> done (allocate_failed, f')
      else (find_inode table n f' >>= λ (place, f). use_inode n place f)

  -- mode, links and flags of a new inode
  abbrev pub typed : ℕ → ℕ → InodeFields → InodeFields
  typed mode links i = record i {
    i_mode = mode;
    i_links_count = links % 2 ^ 16;
    i_flags = bit_or i.i_flags aux.default_i_flags;
  }

  -- The rest of `make_directory` behind `get_inode`, with the entries in the buffer at `contents`,
  -- where the numbers of their inodes are filled in later.
  unfoldable pub place_directory :
      ℕ → ℕ → ℕ → ℕ → ℕ × ℕ → Files → List Dentry → ℕ → Run (ℕ × Option DirData × Files)
  place_directory buffer contents n dir_inode_num place f dentries dirs =
      let len = directory_len info.block_size dentries in
      inode_allocate_data_extents force info fuel f.st (f.inodes place).i_flags len len buffer
        contents
      >>= λ (d, st). elim d [
        | none ↦ error force >> done (allocate_failed, none, record f { st = st })
        | some d ↦ fill_directory info.block_size len n dir_inode_num dentries >>= λ w. done (
          n,
          some w,
          put_inode (record f { st = st }) place
              (λ i. typed ifdir (dirs + 2) (with_extents (some d) i)),
        )
      ]

  unfoldable pub make_directory :
      ℕ → ℕ → ℕ → Files → ℕ → List Dentry → ℕ → Run (ℕ × Option DirData × Files)
  make_directory table buffer contents f dir_inode_num dentries dirs =
      if info.block_size == 0
      then fault
      else ((if dir_inode_num == 0 then done (root_ino, f.st.bgs) else allocate_inode info f.st.bgs)
          >>= λ (n, bgs).
              let parent = if dir_inode_num == 0 then root_ino else dir_inode_num in
              if n == allocate_failed
              then error force
                >> done (allocate_failed, none, record f { st = record f.st { bgs = bgs } })
              else (add_directory info n bgs >>= λ bgs.
                  find_inode table n (record f { st = record f.st { bgs = bgs } }) >>= λ (place, f).
                  place_directory buffer contents n parent place f dentries dirs))

  unfoldable pub make_file : ℕ → ℕ → Files → List ℕ → ℕ → Run (ℕ × Files)
  make_file table buffer f filename len = with_inode table f λ n place f.
      (if ltb 0 len
        then (inode_allocate_file_extents force info fuel f.st (f.inodes place).i_flags len filename
              buffer
            >>= λ (d, st). done (put_inode (record f { st = st }) place (with_extents d)))
        else done f)
      >>= λ f. done (n, put_inode f place (typed ifreg 1))

  -- The rest of `make_link` for a link that does not fit into the inode: `memcpy` to the buffer, which
  -- has as many bytes as a block.
  unfoldable pub long_link : ℕ → ℕ → Files → ℕ × ℕ → List ℕ → Run (ℕ × Files)
  long_link data_ptr n f place link =
      inode_allocate_data_indirect f.st info.block_size info.block_size data_ptr >>= λ (ptr, st).
      elim ptr [
        | none ↦ fault
        | some ptr ↦
            if ltb info.block_size (length link)
            then fault
            else done (
              n,
              put_inode (record f { st = st }) place
                  (λ i. record i { i_blocks_lo = info.block_size / 512 }),
            )
      ]

  unfoldable pub make_link : ℕ → ℕ → Files → List ℕ → Run (ℕ × Files)
  make_link table data_ptr f link = with_inode table f λ n place f.
      let len = u32 (length link) in
      let f' = put_inode f place (λ i. record (typed iflnk 1 i) { i_size_lo = len }) in
      if leb (u32 (len + 1)) i_block_size
      then done (n, put_inode f' place (λ i. record i { i_block = bytes (take len link) }))
      else long_link data_ptr n f' place link

  unfoldable pub inode_set_permissions : ℕ → Files → ℕ → ℕ → ℕ → ℕ → ℕ → Run (Status × Files)
  inode_set_permissions table f inode_num mode uid gid mtime =
      find_inode table inode_num f >>= λ (place, f). done (
        ok,
        put_inode f place λ i. record i {
          i_mode = bit_or i.i_mode mode;
          i_uid = uid;
          i_gid = gid;
          i_mtime = mtime;
          i_atime = mtime;
          i_ctime = mtime;
        },
      )
