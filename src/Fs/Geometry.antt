-- ===== src/Fs/Geometry.antt =====
-- The numbers of groups and blocks that `ext4_create_fs_aux_info` settles on.
use android_tools.Common.{
  ℕ, suc, ◌+◌, ◌-◌, ◌*◌, ◌/◌, ◌%◌, ◌^◌, ◌≤◌, ◌<◌, ◌≡◌, ◌≢◌, ◌⊎◌, inl, inr, refl, ap, sym, ◌∙◌,
  arith, Bool, true, false, ltb, bit_and, ◌&&◌, done, ◌>>=◌, Bool-cases,
}
use native.Mathlib.Nat.{
  add-mul-div_right, mul-mod_left, div-eq_of_lt, div-le_self, add-mul-mod_self_right, mod-eq_of_lt,
}
use android_tools.Fs.{
  FsInfo, FsAuxInfo, bg_has_super_block, last_header_size, first_aux_info, drop_last_group,
  create_fs_aux_info, compute_journal_blocks, u32, sparse_super,
}
use android_tools.Fs.Super.{bg_has_super_block-Decides}

-- The journal that is chosen by default has 1024 to 32768 blocks.
pub journal_blocks_bounds :
    (info : FsInfo) → (1024 ≤ compute_journal_blocks info) × (compute_journal_blocks info ≤ 32768)
unfolding compute_journal_blocks
journal_blocks_bounds info = ground arith

-- rounding up, where the remainder is `r`
ceil_begun : (q r n : ℕ) → 0 < r → r < n → (q * n + r + n - 1) / n ≡ q + 1
ceil_begun q r n h k =
    let same : q * n + r + n - 1 ≡ (r - 1) + (q + 1) * n = omega arith in
    ap (λ (t : ℕ). t / n) same
    ∙ (add-mul-div_right (r - 1) (q + 1) (omega arith)
        ∙ omega (arith, div-eq_of_lt {n = r - 1} {m = n} (omega arith)))

ceil_whole : (q n : ℕ) → 0 < n → (q * n + n - 1) / n ≡ q
ceil_whole q n h =
    let same : q * n + n - 1 ≡ (n - 1) + q * n = omega arith in
    ap (λ (t : ℕ). t / n) same
    ∙ (add-mul-div_right (n - 1) q h
        ∙ omega (arith, div-eq_of_lt {n = n - 1} {m = n} (omega arith)))

-- The groups are as many as the blocks fill, the last one counted if it is begun; and that last one
-- is full, or has room for its own header.
pub record HasRoom (info : FsInfo) (has_super : Bool) (a : FsAuxInfo) : Type 0 where
  pub groups : a.groups ≡ (a.len_blocks + info.blocks_per_group - 1) / info.blocks_per_group
  pub room :
      (a.len_blocks % info.blocks_per_group ≡ 0)
      ⊎ (last_header_size a has_super ≤ a.len_blocks % info.blocks_per_group)

drop_last_group-HasRoom :
    (info : FsInfo) (a : FsAuxInfo) (has_super : Bool)
    → 0 < info.blocks_per_group
    → a.len_blocks + info.blocks_per_group < 2 ^ 32
    → a.groups ≡ (a.len_blocks + info.blocks_per_group - 1) / info.blocks_per_group
    → HasRoom info has_super (drop_last_group info a has_super)
drop_last_group-HasRoom info a has_super pos fits e =
    let n = info.blocks_per_group in
    let q = a.len_blocks / n in
    let r = a.len_blocks % n in
    let small : u32 r ≡ r = omega arith in
    elim (Bool-cases (ltb 0 r && ltb r (last_header_size a has_super))) [
      | inr keep ↦ rw (small, keep) (record { groups = e; room = ground arith })
      | inl drop ↦
          let begun : 0 < r = ground arith in
          let whole : a.len_blocks - r ≡ q * n = omega arith in
          let top : a.groups ≡ q + 1 =
            e
            ∙ (ap (λ (t : ℕ). (t + n - 1) / n) {x = a.len_blocks} {y = q * n + r} (omega arith)
                ∙ ceil_begun q r n begun (omega arith)) in
          let less : u32 (a.groups + 2 ^ 32 - 1) ≡ q =
            omega (arith, top, div-le_self a.len_blocks n) in
          rw (small, drop)
            (record {
              groups =
                  less ∙ (sym (ceil_whole q n pos) ∙ ap (λ (t : ℕ). (t + n - 1) / n) (sym whole));
              room = inl (ap (λ (t : ℕ). t % n) whole ∙ mul-mod_left q n);
            })
    ]

groups_first :
    (info : FsInfo)
    → 1024 < info.block_size
    → 0 < info.blocks_per_group
    → info.len / info.block_size + info.blocks_per_group < 2 ^ 32
    → (first_aux_info info).groups
      ≡ (info.len / info.block_size + info.blocks_per_group - 1) / info.blocks_per_group
unfolding first_aux_info
groups_first info big pos fits =
    let test : ltb 1024 info.block_size ≡ true = ground arith in
    let l = info.len / info.block_size in
    let n = info.blocks_per_group in
    let sum : (((l + 2 ^ 64 - 0) % 2 ^ 64 + n) % 2 ^ 64 + 2 ^ 64 - 1) % 2 ^ 64 ≡ l + n - 1 =
      omega arith in
    rw (test, sum) (omega (arith, div-le_self (l + n - 1) n))

-- Where blocks have more than 1024 bytes, the superblocks are sparse and the block count fits 32
-- bits with a group to spare, `ext4_create_fs_aux_info` returns, and its groups are as many as its
-- blocks fill; the last one is full, or has room for the header that the number of the last group
-- first counted calls for.
pub create_fs_aux_info-HasRoom :
    (info : FsInfo)
    → 1024 < info.block_size
    → 0 < info.blocks_per_group
    → info.len / info.block_size + info.blocks_per_group < 2 ^ 32
    → bit_and info.feat_ro_compat sparse_super ≢ 0
    → (has_super : Bool) × (a : FsAuxInfo) × (bg_has_super_block info
          (u32 ((first_aux_info info).groups + 2 ^ 32 - 1))
        ≡ done has_super)
      × (create_fs_aux_info info ≡ done a)
      × HasRoom info has_super a
unfolding create_fs_aux_info
create_fs_aux_info-HasRoom info big pos fits sparse =
    let (b, e, i) =
      bg_has_super_block-Decides info (u32 ((first_aux_info info).groups + 2 ^ 32 - 1)) sparse in
    (
      b,
      drop_last_group info (first_aux_info info) b,
      e,
      ap (λ r. r >>= λ h. done (drop_last_group info (first_aux_info info) h)) e,
      drop_last_group-HasRoom info (first_aux_info info) b pos fits
          (groups_first info big pos fits),
    )

one_over : (l k n : ℕ) → 1 < n → l ≡ suc k * n + 1 → l % n ≡ 1
one_over l k n h e =
    ap (λ (t : ℕ). t % n) {x = l} {y = 1 + suc k * n} (omega arith)
    ∙ (add-mul-mod_self_right 1 (suc k) n ∙ mod-eq_of_lt h)

len_first : (info : FsInfo) → (first_aux_info info).len_blocks ≡ info.len / info.block_size
unfolding first_aux_info
len_first info = refl

groups_small :
    (info : FsInfo) (k : ℕ)
    → info.block_size ≤ 1024
    → 1 < info.blocks_per_group
    → info.len / info.block_size ≡ suc k * info.blocks_per_group + 1
    → info.len / info.block_size + info.blocks_per_group < 2 ^ 32
    → (first_aux_info info).groups ≡ suc k
unfolding first_aux_info
groups_small info k small big e fits =
    let test : ltb 1024 info.block_size ≡ false = ground arith in
    let l = info.len / info.block_size in
    let n = info.blocks_per_group in
    let sum : (((l + 2 ^ 64 - 1) % 2 ^ 64 + n) % 2 ^ 64 + 2 ^ 64 - 1) % 2 ^ 64 ≡ suc k * n + n - 1 =
      omega arith in
    let bound : suc k ≤ suc k * n = grind arith in
    rw (test, sum, ceil_whole (suc k) n (omega arith)) (omega arith)

-- a last group of one block, where the blocks behind the first are whole groups
drop_last_group-one_over :
    (info : FsInfo) (k : ℕ) (has_super : Bool)
    → 0 < info.block_size
    → info.block_size ≤ 1024
    → 1 < info.blocks_per_group
    → info.len / info.block_size ≡ suc k * info.blocks_per_group + 1
    → info.len / info.block_size + info.blocks_per_group < 2 ^ 32
    → 2 ≤ last_header_size (first_aux_info info) has_super
    → let a = drop_last_group info (first_aux_info info) has_super in
      (a.groups ≡ k) × (a.len_blocks ≡ suc k * info.blocks_per_group)
drop_last_group-one_over info k has_super pos small big e fits header =
    let n = info.blocks_per_group in
    let l = info.len / info.block_size in
    let one_left : l % n ≡ 1 = one_over l k n big e in
    let count = groups_small info k small big e fits in
    let drop : (ltb 0 (u32 (l % n))
          && ltb (u32 (l % n)) (last_header_size (first_aux_info info) has_super))
        ≡ true =
      ground arith in
    let bound : suc k ≤ suc k * n = grind arith in
    rw (len_first info, drop) (omega arith, omega arith)

-- Where superblocks are sparse, blocks have 1024 bytes or fewer, the block count is one above `k +
-- 1` times the group size and fits 32 bits with a group to spare, and the header of the last group
-- takes at least two blocks with a superblock and without: `ext4_create_fs_aux_info` returns and
-- leaves out a full group: `k` groups are left, and `len_blocks` is still `k + 1` groups of blocks.
pub small_blocks_lose_group :
    (info : FsInfo) (k : ℕ)
    → bit_and info.feat_ro_compat sparse_super ≢ 0
    → 0 < info.block_size
    → info.block_size ≤ 1024
    → 1 < info.blocks_per_group
    → info.len / info.block_size ≡ suc k * info.blocks_per_group + 1
    → info.len / info.block_size + info.blocks_per_group < 2 ^ 32
    → ((has_super : Bool) → 2 ≤ last_header_size (first_aux_info info) has_super)
    → (a : FsAuxInfo) × (create_fs_aux_info info ≡ done a)
      × (a.groups ≡ k)
      × (a.len_blocks ≡ suc k * info.blocks_per_group)
unfolding create_fs_aux_info
small_blocks_lose_group info k sparse pos small big e fits header =
    let (b, run, i) =
      bg_has_super_block-Decides info (u32 ((first_aux_info info).groups + 2 ^ 32 - 1)) sparse in
    let (groups, blocks) = drop_last_group-one_over info k b pos small big e fits (header b) in
    (
      drop_last_group info (first_aux_info info) b,
      ap (λ r. r >>= λ h. done (drop_last_group info (first_aux_info info) h)) run,
      groups,
      blocks,
    )
