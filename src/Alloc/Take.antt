-- ===== src/Alloc/Take.antt =====
-- One request met from one group: `ext4_allocate_blocks_from_block_group`,
-- `ext4_allocate_contiguous_blocks` and `allocate_block`.
use android_tools.Common.{
  ℕ, zero, suc, ◌+◌, ◌-◌, ◌^◌, ◌≤◌, ◌<◌, ◌≡◌, refl, arith, Bool, true, false, Option, none, some,
  ◌==◌, ltb, get_elem?, set, length, length-set, Run, done, ◌>>=◌,
}
use native.Mathlib.Decide.{dec_lt}
use android_tools.Fs.{u32}
use android_tools.Bitmap.Marks.{Marks}
use android_tools.Group.{BlockGroupInfo, allocate_failed}
use android_tools.Group.Blocks.{reserved, reserve_blocks-IsGroup}
use android_tools.Alloc.{
  Groups, Region, group_at, allocate_from_group, contiguous_from, allocate_contiguous_blocks,
}
use android_tools.Alloc.Pool.{
  IsSource, IsPool, IsPool-get_elem?, IsPool-set, total_free, total_free-set, get_elem?-lt,
}

-- `len` blocks from `block` on were taken from group `i`: they are the first free ones of that
-- group, their bits are set and no others, and the group's counts follow.
pub record Taken (n : ℕ) (bgs : Groups) (len i block : ℕ) (bgs' : Groups) : Type 0 where
  pub old : BlockGroupInfo
  pub new : BlockGroupInfo
  pub at : get_elem? bgs i ≡ some old
  pub result : bgs' ≡ set bgs i new
  pub source : IsSource n new
  pub fits : len ≤ old.free_blocks
  pub place : block ≡ old.first_block + old.first_free_block
  pub below : block < 2 ^ 32 - 1
  pub free : new.free_blocks + len ≡ old.free_blocks
  pub next : new.first_free_block ≡ old.first_free_block + len
  pub marks : Marks old.block_bitmap new.block_bitmap old.first_free_block len
  pub used : new.data_blocks_used ≡ u32 (old.data_blocks_used + len)

pub Taken-IsPool :
    {n : ℕ} {bgs : Groups} {len i block : ℕ} {bgs' : Groups}
    → IsPool n bgs
    → Taken n bgs len i block bgs'
    → IsPool n bgs'
Taken-IsPool {n} {bgs} {len} {i} p t = rw t.result (IsPool-set n bgs i t.new p t.source)

pub Taken-total :
    {n : ℕ} {bgs : Groups} {len i block : ℕ} {bgs' : Groups}
    → Taken n bgs len i block bgs'
    → total_free bgs' + len ≡ total_free bgs
Taken-total {n} {bgs} {len} {i} t =
    rw t.result (omega (arith, total_free-set bgs i t.new t.at, t.free))

pub Taken-length :
    {n : ℕ} {bgs : Groups} {len i block : ℕ} {bgs' : Groups}
    → Taken n bgs len i block bgs'
    → length bgs' ≡ length bgs
Taken-length {n} {bgs} {len} {i} t = rw t.result (length-set bgs i t.new)

module _ (n : ℕ) (force : Bool) where
  pub refused :
      (bgs : Groups) (len i : ℕ) {bg : BlockGroupInfo}
      → get_elem? bgs i ≡ some bg
      → bg.free_blocks < len
      → allocate_from_group force bgs len i ≡ done (allocate_failed, bgs)
  unfolding allocate_from_group
  refused bgs len i {bg} e h =
      let test : ltb bg.free_blocks len ≡ true = ground arith in rw (e, group_at) (rw test)

  -- In a pool of well-formed groups, a group with at least `len` free blocks meets a request for
  -- them: `ext4_allocate_blocks_from_block_group` returns the first free block of the group, whose
  -- number stays below the mark of a failure, sets exactly the bits of the request, and moves the
  -- counts of this group alone.
  pub allocate_from_group-Taken :
      (bgs : Groups) (len i : ℕ) {bg : BlockGroupInfo}
      → IsPool n bgs
      → get_elem? bgs i ≡ some bg
      → len ≤ bg.free_blocks
      → (block : ℕ) × (bgs' : Groups) × (allocate_from_group force bgs len i ≡ done (block, bgs'))
        × Taken n bgs len i block bgs'
  unfolding allocate_from_group
  allocate_from_group-Taken bgs len i {bg} p e h =
      let (g, high) = IsPool-get_elem? n bgs i p e in
      let (bitmap, run, g', m) = reserve_blocks-IsGroup n force g len h in
      let test : ltb bg.free_blocks len ≡ false = ground arith in
      let bg' = reserved bg bg.first_free_block len bitmap in
      let last : BlockGroupInfo = record bg' {
        data_blocks_used = u32 (bg.data_blocks_used + len);
      } in
      (
        u32 (bg.first_block + bg.first_free_block),
        set bgs i last,
        rw (e, group_at) (rw (test, run)),
        record {
          old = bg;
          new = last;
          at = e;
          result = refl;
          source = (
            record {
              bytes = g'.bytes;
              covered = g'.covered;
              room = g'.room;
              small = g'.small;
              bits = g'.bits;
            },
            high,
          );
          fits = h;
          place = omega (arith, g.room);
          below = omega (arith, g.room);
          free = omega arith;
          next = ground (arith, g.room, g.small);
          marks = m;
          used = refl;
        },
      )

-- the free blocks of group `j`
abbrev pub free_at : Groups → ℕ → ℕ
free_at bgs j = elim (get_elem? bgs j) [ none ↦ 0 | some bg ↦ bg.free_blocks ]

-- What a search for `len` blocks from group `i` on comes to.
pub data Search (n : ℕ) (bgs : Groups) (len i : ℕ) (r : Run (Option Region × Groups)) : Type 0 where
  found :
      (k block : ℕ) (bgs' : Groups)
      → i ≤ k
      → ((j : ℕ) → i ≤ j → j < k → free_at bgs j < len)
      → Taken n bgs len k block bgs'
      → r ≡ done (some (record { block = block; len = len; bg = k }), bgs')
      → Search n bgs len i r
  full :
      ((j : ℕ) → i ≤ j → j < length bgs → free_at bgs j < len)
      → r ≡ done (none, bgs)
      → Search n bgs len i r

module _ (n : ℕ) (force : Bool) (len : ℕ) where
  contiguous_from-hit :
      (left i : ℕ) (bgs bgs' : Groups) (block : ℕ)
      → allocate_from_group force bgs len i ≡ done (block, bgs')
      → block < 2 ^ 32 - 1
      → contiguous_from force len (suc left) i bgs
        ≡ done (some (record { block = block; len = len; bg = i }), bgs')
  unfolding contiguous_from
  contiguous_from-hit left i bgs bgs' block e h =
      let test : (block == allocate_failed) ≡ false = ground arith in rw e (rw (test, ◌>>=◌))

  contiguous_from-miss :
      (left i : ℕ) {bgs : Groups}
      → allocate_from_group force bgs len i ≡ done (allocate_failed, bgs)
      → contiguous_from force len (suc left) i bgs ≡ contiguous_from force len left (i + 1) bgs
  unfolding contiguous_from
  contiguous_from-miss left i e = rw e

  Search-next :
      {i : ℕ} {bgs : Groups} {r : Run (Option Region × Groups)}
      → free_at bgs i < len
      → Search n bgs len (i + 1) r
      → Search n bgs len i r
  Search-next {i} {bgs} small (found k block bgs' le before t e) =
      found k block bgs' (omega arith) (λ j lo hi. at_or_after j lo (before j) hi) t e
    where
      at_or_after :
          (j : ℕ) → i ≤ j → (i + 1 ≤ j → j < k → free_at bgs j < len) → j < k → free_at bgs j < len
      at_or_after j lo later hi = elim (dec_lt i j) [
        | yes p ↦ later (omega arith) hi
        | no p ↦ let same : j ≡ i = omega arith in rw same small
      ]
  Search-next {i} {bgs} small (full all e) =
      full
        (λ j lo hi. elim (dec_lt i j) [
          | yes p ↦ all j (omega arith) hi
          | no p ↦ let same : j ≡ i = omega arith in rw same small
        ])
        e

  contiguous_from-Search :
      (left i : ℕ) (bgs : Groups)
      → IsPool n bgs
      → i + left ≡ length bgs
      → Search n bgs len i (contiguous_from force len left i bgs)
  contiguous_from-Search zero i bgs p e =
      full (λ j lo hi. absurd (omega arith)) (unfold contiguous_from in refl)
  contiguous_from-Search (suc left) i bgs p e =
      let (bg, at) = get_elem?-lt bgs i (omega arith) in
      elim (dec_lt bg.free_blocks len) [
        | yes small ↦ rw (contiguous_from-miss left i (refused n force bgs len i at small)) (
            Search-next (rw (at, free_at) small)
              (contiguous_from-Search left (i + 1) bgs p (omega arith)))
        | no enough ↦
            let (block, bgs', run, t) =
              allocate_from_group-Taken n force bgs len i p at (omega arith) in
            found i block bgs' (omega arith) (λ j lo hi. absurd (omega arith)) t
              (contiguous_from-hit left i bgs bgs' block run t.below)
      ]

  -- In a pool of well-formed groups, `ext4_allocate_contiguous_blocks` takes the blocks from the
  -- first group that has that many free, which are its first free ones and are marked; it returns
  -- NULL and changes nothing where no group has that many.
  pub allocate_contiguous_blocks-Search :
      (bgs : Groups) → IsPool n bgs → Search n bgs len 0 (allocate_contiguous_blocks force len bgs)
  unfolding allocate_contiguous_blocks
  allocate_contiguous_blocks-Search bgs p =
      contiguous_from-Search (length bgs) 0 bgs p (omega arith)
