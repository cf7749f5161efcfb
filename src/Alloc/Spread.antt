-- ===== src/Alloc/Spread.antt =====
-- A request spread over several groups: `ext4_allocate_partial`,
-- `ext4_allocate_multiple_contiguous_blocks` and `do_allocate`.
use android_tools.Common.{
  ℕ, zero, suc, ◌+◌, ◌≤◌, ◌<◌, ◌≡◌, ◌≢◌, ◌⊎◌, inl, inr, refl, ap, sym, ◌∙◌, arith, Bool, true,
  false, [], ◌∷◌, Option, none, some, ◌==◌, leb, if◌then◌else◌, get_elem?, set, length, Run, done,
  ◌>>=◌,
}
use mathlib.Core.Option.{some-injective}
use native.Mathlib.Decide.{dec_lt, dec_le, ℕ_discrete}
use android_tools.Group.{BlockGroupInfo, allocate_failed}
use android_tools.Alloc.{Groups, Region, group_at, partial_at, partial_from, allocate_partial}
use android_tools.Alloc.Pool.{IsPool, get_elem?-lt}
use android_tools.Alloc.Take.{
  Taken, allocate_from_group-Taken, free_at, Search, found, full, allocate_contiguous_blocks-Search,
}

-- the groups with no data block yet
unfoldable pub unused : Groups → ℕ
unused [] = 0
unused (bg ∷ bgs) = (if bg.data_blocks_used == 0 then 1 else 0) + unused bgs

-- Every group with no data block yet has a free block.
abbrev pub HasSpace : Groups → Type 0
HasSpace [] = Unit {0}
HasSpace (bg ∷ bgs) = (bg.data_blocks_used ≡ 0 → 0 < bg.free_blocks) × HasSpace bgs

-- What `ext4_allocate_partial` comes to: all of the request, or all of a group with no data block.
pub data Partial (n : ℕ) (bgs : Groups) (len i : ℕ) (r : Run (Option Region × Groups))
    : Type 0 where
  part :
      (k block m : ℕ) (bgs' : Groups) (t : Taken n bgs m k block bgs')
      → 0 < unused bgs
      → (m ≡ len) ⊎ ((m < len) × (t.old.data_blocks_used ≡ 0) × (m ≡ t.old.free_blocks))
      → r ≡ done (some (record { block = block; len = m; bg = k }), bgs')
      → Partial n bgs len i r
  nowhere :
      ((j : ℕ) (bg : BlockGroupInfo) → i ≤ j → get_elem? bgs j ≡ some bg → bg.data_blocks_used ≢ 0)
      → r ≡ done (none, bgs)
      → Partial n bgs len i r

pub unused-pos :
    (bgs : Groups) (i : ℕ) {bg : BlockGroupInfo}
    → get_elem? bgs i ≡ some bg
    → bg.data_blocks_used ≡ 0
    → 0 < unused bgs
unfolding unused
unused-pos [] i e u = cc
unused-pos (b ∷ bgs) zero {bg} e u = ground arith
unused-pos (b ∷ bgs) (suc i) e u = omega (arith, unused-pos bgs i e u)

pub unused-set :
    (bgs : Groups) (i : ℕ) {old : BlockGroupInfo} (new : BlockGroupInfo)
    → get_elem? bgs i ≡ some old
    → old.data_blocks_used ≡ 0
    → new.data_blocks_used ≢ 0
    → unused (set bgs i new) + 1 ≡ unused bgs
unfolding unused
unused-set [] i new e u h = cc
unused-set (b ∷ bgs) zero {old} new e u h = ground arith
unused-set (b ∷ bgs) (suc i) new e u h = omega (arith, unused-set bgs i new e u h)

pub HasSpace-set :
    (bgs : Groups) (i : ℕ) (new : BlockGroupInfo)
    → HasSpace bgs
    → new.data_blocks_used ≢ 0
    → HasSpace (set bgs i new)
HasSpace-set [] i new s h = tt
HasSpace-set (b ∷ bgs) zero new s h = (λ u. absurd (h u), s.1)
HasSpace-set (b ∷ bgs) (suc i) new s h = (s.0, HasSpace-set bgs i new s.1 h)

pub HasSpace-get_elem? :
    (bgs : Groups) (i : ℕ) {bg : BlockGroupInfo}
    → HasSpace bgs
    → get_elem? bgs i ≡ some bg
    → bg.data_blocks_used ≡ 0
    → 0 < bg.free_blocks
HasSpace-get_elem? [] i s e u = cc
HasSpace-get_elem? (b ∷ bgs) zero s e u = ground arith
HasSpace-get_elem? (b ∷ bgs) (suc i) s e u = HasSpace-get_elem? bgs i s.1 e u

pub in_range :
    (bgs : Groups) (i : ℕ) {bg : BlockGroupInfo} → get_elem? bgs i ≡ some bg → i < length bgs
in_range [] i e = cc
in_range (b ∷ bgs) zero e = omega arith
in_range (b ∷ bgs) (suc i) e = omega (arith, in_range bgs i e)

module _ (n : ℕ) (force : Bool) (len : ℕ) where
  -- The body of the loop, at a group with no data block.
  pub partial_at-Partial :
      (i : ℕ) (bgs : Groups) {bg : BlockGroupInfo}
      → IsPool n bgs
      → get_elem? bgs i ≡ some bg
      → bg.data_blocks_used ≡ 0
      → Partial n bgs len i (partial_at force len i bg bgs)
  unfolding partial_at
  partial_at-Partial i bgs {bg} p e u = elim (dec_le len bg.free_blocks) [
    | yes fits ↦
        let test : leb len bg.free_blocks ≡ true = ground arith in
        rw test (whole (allocate_contiguous_blocks-Search n force len bgs p) fits)
    | no short ↦
        let test : leb len bg.free_blocks ≡ false = ground arith in
        let (block, bgs', run, t) =
          allocate_from_group-Taken n force bgs bg.free_blocks i p e (omega arith) in
        let ne : (block == allocate_failed) ≡ false = ground (arith, t.below) in
        let same : t.old ≡ bg = some-injective _ _ (sym t.at ∙ e) in
        rw (test, run)
          (part i block bg.free_blocks bgs' t (unused-pos bgs i e u)
            (inr (
              omega arith,
              ap (λ g. g.data_blocks_used) same ∙ u,
              ap (λ g. g.free_blocks) (sym same),
            ))
            (rw (ne, ◌>>=◌)))
  ]
    where
      whole :
          {r : Run (Option Region × Groups)}
          → Search n bgs len 0 r
          → len ≤ bg.free_blocks
          → Partial n bgs len i r
      whole (found k block bgs' lo before t run) fits =
          part k block len bgs' t (unused-pos bgs i e u) (inl refl) run
      whole (full all run) fits =
          absurd (omega (arith, rw (e, free_at) at (all i (omega arith) (in_range bgs i e))))

  Partial-next :
      {i : ℕ} {bgs : Groups} {r : Run (Option Region × Groups)} {here : BlockGroupInfo}
      → get_elem? bgs i ≡ some here
      → here.data_blocks_used ≢ 0
      → Partial n bgs len (i + 1) r
      → Partial n bgs len i r
  Partial-next e u (part k block m bgs' t some_unused how run) =
      part k block m bgs' t some_unused how run
  Partial-next {i} {here = here} e u (nowhere all run) =
      nowhere
        (λ j bg lo at. elim (dec_lt i j) [
          | yes p ↦ all j bg (omega arith) at
          | no p ↦
              let same : j ≡ i = omega arith in
              let is : bg ≡ here = some-injective _ _ (sym (rw same at at) ∙ e) in rw is u
        ])
        run

  pub partial_from-hit :
      (left i : ℕ) (bgs : Groups) {bg : BlockGroupInfo}
      → get_elem? bgs i ≡ some bg
      → bg.data_blocks_used ≡ 0
      → partial_from force len (suc left) i bgs ≡ partial_at force len i bg bgs
  unfolding partial_from
  partial_from-hit left i bgs e u = rw (e, group_at) (rw u)

  pub partial_from-miss :
      (left i : ℕ) (bgs : Groups) {bg : BlockGroupInfo}
      → get_elem? bgs i ≡ some bg
      → bg.data_blocks_used ≢ 0
      → partial_from force len (suc left) i bgs ≡ partial_from force len left (i + 1) bgs
  unfolding partial_from
  partial_from-miss left i bgs {bg} e u =
      let test : (bg.data_blocks_used == 0) ≡ false = ground arith in rw (e, group_at) (rw test)

  partial_from-Partial :
      (left i : ℕ) (bgs : Groups)
      → IsPool n bgs
      → i + left ≡ length bgs
      → Partial n bgs len i (partial_from force len left i bgs)
  partial_from-Partial zero i bgs p e =
      nowhere (λ j bg lo at. absurd (omega (arith, in_range bgs j at)))
        (unfold partial_from in refl)
  partial_from-Partial (suc left) i bgs p e =
      let (bg, at) = get_elem?-lt bgs i (omega arith) in
      elim (ℕ_discrete bg.data_blocks_used 0) [
        | yes u ↦ rw (partial_from-hit left i bgs at u) (partial_at-Partial i bgs p at u)
        | no u ↦
            rw (partial_from-miss left i bgs at u)
              (Partial-next at u (partial_from-Partial left (i + 1) bgs p (omega arith)))
      ]

  -- In a pool of well-formed groups, `ext4_allocate_partial` takes all of the request from one
  -- group, or, where the request is larger, all free blocks of a group that has no data block; it
  -- returns NULL and changes nothing only where every group has data blocks.
  pub allocate_partial-Partial :
      (bgs : Groups) → IsPool n bgs → Partial n bgs len 0 (allocate_partial force len bgs)
  unfolding allocate_partial
  allocate_partial-Partial bgs p = partial_from-Partial (length bgs) 0 bgs p (omega arith)
