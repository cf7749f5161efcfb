-- ===== src/Alloc.antt =====
-- The block allocator of img-db/ext4_utils/allocate.c: requests are met from the list of all
-- block groups, `aux_info.bgs`; `aux_info.groups` is its length.
pub mod Pool
pub mod Take
pub mod Spread
pub mod Total
pub mod Hang
pub mod Single
use android_tools.Common.{
  ℕ, zero, suc, ◌+◌, ◌-◌, ◌%◌, ◌^◌, Bool, true, false, List, [], ◌∷◌, ◌++◌, Option, none, some,
  ◌==◌, ltb, leb, if◌then◌else◌, get_elem?, set, length, Run, done, exited, fault, out_of_fuel,
  ◌>>=◌, ◌>>◌, error,
}
use android_tools.Fs.{u32}
use android_tools.Group.{BlockGroupInfo, Status, ok, failed, allocate_failed, reserve_blocks}

abbrev pub Groups : Type 0
Groups = List BlockGroupInfo

-- `struct region`. Its links `next` and `prev` are the order of a list of regions.
pub record Region : Type 0 where
  pub block : ℕ
  pub len : ℕ
  pub bg : ℕ

-- `get_free_blocks`, and the same read for another field
abbrev pub group_at {ℓ} : {A : Type ℓ} → Groups → ℕ → (BlockGroupInfo → Run A) → Run A
group_at bgs i k = elim (get_elem? bgs i) [ none ↦ fault | some bg ↦ k bg ]

-- the end of `ext4_allocate_blocks_from_block_group`, after `reserve_blocks`
abbrev pub taken_from :
    Bool → Groups → ℕ → ℕ → BlockGroupInfo → Status × BlockGroupInfo → Run (ℕ × Groups)
taken_from force bgs len bg_num bg (failed, bg') =
    error force >> done (allocate_failed, set bgs bg_num bg')
taken_from force bgs len bg_num bg (ok, bg') = done (
  u32 (bg.first_block + bg.first_free_block),
  set bgs bg_num (record bg' { data_blocks_used = u32 (bg'.data_blocks_used + len) }),
)

-- `ext4_allocate_blocks_from_block_group`
unfoldable pub allocate_from_group : Bool → Groups → ℕ → ℕ → Run (ℕ × Groups)
allocate_from_group force bgs len bg_num = group_at bgs bg_num λ bg.
    if ltb bg.free_blocks len
    then done (allocate_failed, bgs)
    else (reserve_blocks force bg bg.first_free_block len >>= taken_from force bgs len bg_num bg)

-- The loop of `ext4_allocate_contiguous_blocks`, at group `i` with `left` groups to go.
unfoldable pub contiguous_from : Bool → ℕ → ℕ → ℕ → Groups → Run (Option Region × Groups)
contiguous_from force len zero i bgs = done (none, bgs)
contiguous_from force len (suc left) i bgs = allocate_from_group force bgs len i >>= λ r.
    elim (r.0 == allocate_failed) [
      | true ↦ contiguous_from force len left (i + 1) r.1
      | false ↦ done (some (record { block = r.0; len = len; bg = i }), r.1)
    ]

unfoldable pub allocate_contiguous_blocks : Bool → ℕ → Groups → Run (Option Region × Groups)
unfolding contiguous_from
allocate_contiguous_blocks force len bgs = contiguous_from force len (length bgs) 0 bgs

-- `allocate_block`: the loop, and its result.
unfoldable pub block_from : Bool → ℕ → ℕ → Groups → Run (ℕ × Groups)
block_from force zero i bgs = done (allocate_failed, bgs)
block_from force (suc left) i bgs = allocate_from_group force bgs 1 i >>= λ r.
    elim (r.0 == allocate_failed) [ true ↦ block_from force left (i + 1) r.1 | false ↦ done r ]

unfoldable pub allocate_block : Bool → Groups → Run (ℕ × Groups)
unfolding block_from
allocate_block force bgs = block_from force (length bgs) 0 bgs

-- The body of the loop of `ext4_allocate_partial`, at a group that has no data block yet.
unfoldable pub partial_at : Bool → ℕ → ℕ → BlockGroupInfo → Groups → Run (Option Region × Groups)
partial_at force len i bg bgs =
    if leb len bg.free_blocks
    then allocate_contiguous_blocks force len bgs
    else (allocate_from_group force bgs bg.free_blocks i >>= λ r.
        if r.0 == allocate_failed
        then (error force >> done (none, r.1))
        else done (some (record { block = r.0; len = bg.free_blocks; bg = i }), r.1))

unfoldable pub partial_from : Bool → ℕ → ℕ → ℕ → Groups → Run (Option Region × Groups)
unfolding partial_at
partial_from force len zero i bgs = done (none, bgs)
partial_from force len (suc left) i bgs = group_at bgs i λ bg. elim (bg.data_blocks_used == 0) [
  | true ↦ partial_at force len i bg bgs
  | false ↦ partial_from force len left (i + 1) bgs
]

unfoldable pub allocate_partial : Bool → ℕ → Groups → Run (Option Region × Groups)
unfolding partial_from
allocate_partial force len bgs = partial_from force len (length bgs) 0 bgs

-- The `while` of `ext4_allocate_multiple_contiguous_blocks`, a round to a unit of fuel; `regs` are
-- the regions chained up so far.
unfoldable pub multiple_loop :
    Bool → ℕ → ℕ → List Region → Groups → Run (Option (List Region) × Groups)
unfolding allocate_partial
multiple_loop force zero len regs bgs = out_of_fuel
multiple_loop force (suc fuel) len regs bgs = elim (ltb 0 len) [
  | false ↦ done (some regs, bgs)
  | true ↦ allocate_partial force len bgs >>= λ r. elim r.0 [
    | none ↦ done (none, r.1)
    | some reg ↦ multiple_loop force fuel (len - reg.len) (regs ++ (reg ∷ [])) r.1
  ]
]

-- `do_allocate`, with fuel for the loop
unfoldable pub do_allocate : Bool → ℕ → ℕ → Groups → Run (Option (List Region) × Groups)
unfolding allocate_contiguous_blocks multiple_loop
do_allocate force fuel len bgs = allocate_contiguous_blocks force len bgs >>= λ r. elim r.0 [
  | some reg ↦ done (some (reg ∷ []), r.1)
  | none ↦ multiple_loop force fuel len [] r.1
]
