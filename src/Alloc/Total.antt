-- ===== src/Alloc/Total.antt =====
-- `do_allocate` of img-db/ext4_utils/allocate.c as a whole.
use android_tools.Common.{
  ℕ, zero, suc, ◌+◌, ◌-◌, ◌≤◌, ◌<◌, ◌≡◌, ◌≢◌, inl, inr, refl, ap, sym, ◌∙◌, arith, Bool, true, List,
  [], ◌∷◌, ◌++◌, Option, none, some, ltb, Run, done, ◌>>=◌,
}
use mathlib.Core.List.{append_assoc, append-nil}
use android_tools.Alloc.{
  Groups, Region, allocate_contiguous_blocks, allocate_partial, multiple_loop, do_allocate,
}
use android_tools.Alloc.Pool.{IsPool, IsPool-get_elem?, total_free}
use android_tools.Alloc.Take.{
  Taken, Taken-IsPool, Taken-total, Search, found, full, allocate_contiguous_blocks-Search,
}
use android_tools.Alloc.Spread.{
  unused, HasSpace, Partial, part, nowhere, unused-set, HasSpace-set, HasSpace-get_elem?,
  allocate_partial-Partial,
}

-- the blocks in a chain of regions
abbrev pub lens : List Region → ℕ
lens [] = 0
lens (r ∷ rs) = r.len + lens rs

-- The run ends: with regions of `len` blocks in all, as many fewer being free, or with NULL.
pub data Spread (n : ℕ) (bgs : Groups) (len : ℕ) (regs : List Region)
    (r : Run (Option (List Region) × Groups)) : Type 0 where
  filled :
      (rs : List Region) (bgs' : Groups)
      → IsPool n bgs'
      → total_free bgs' + len ≡ total_free bgs
      → lens rs ≡ len
      → r ≡ done (some (regs ++ rs), bgs')
      → Spread n bgs len regs r
  short : (bgs' : Groups) → IsPool n bgs' → r ≡ done (none, bgs') → Spread n bgs len regs r

module _ (n : ℕ) (force : Bool) where
  loop_stop :
      (fuel : ℕ) (regs : List Region) (bgs : Groups)
      → multiple_loop force (suc fuel) 0 regs bgs ≡ done (some regs, bgs)
  unfolding multiple_loop
  loop_stop fuel regs bgs = refl

  pub loop_part :
      (fuel len : ℕ) (regs : List Region) (bgs : Groups) (reg : Region) (bgs' : Groups)
      → 0 < len
      → allocate_partial force len bgs ≡ done (some reg, bgs')
      → multiple_loop force (suc fuel) len regs bgs
        ≡ multiple_loop force fuel (len - reg.len) (regs ++ (reg ∷ [])) bgs'
  unfolding multiple_loop
  loop_part fuel len regs bgs reg bgs' pos e =
      let test : ltb 0 len ≡ true = ground arith in rw (test, multiple_loop) (rw (e, ◌>>=◌))

  loop_none :
      (fuel len : ℕ) (regs : List Region) (bgs bgs' : Groups)
      → 0 < len
      → allocate_partial force len bgs ≡ done (none, bgs')
      → multiple_loop force (suc fuel) len regs bgs ≡ done (none, bgs')
  unfolding multiple_loop
  loop_none fuel len regs bgs bgs' pos e =
      let test : ltb 0 len ≡ true = ground arith in rw (test, multiple_loop) (rw (e, ◌>>=◌))

  Spread-cons :
      {bgs bgs' : Groups} {len m : ℕ} {regs : List Region} {r : Run (Option (List Region) × Groups)}
      (reg : Region)
      → reg.len ≡ m
      → m ≤ len
      → total_free bgs' + m ≡ total_free bgs
      → Spread n bgs' (len - m) (regs ++ (reg ∷ [])) r
      → Spread n bgs len regs r
  Spread-cons {regs = regs} reg e le total (filled rs last p t l run) =
      filled (reg ∷ rs) last p (omega arith) (omega arith)
        (run ∙ ap (λ l. done (some l, last)) (append_assoc regs (reg ∷ []) rs))
  Spread-cons reg e le total (short last p run) = short last p run

  -- A group that was taken whole counts as used.
  Taken-whole :
      {bgs : Groups} {m k block : ℕ} {bgs' : Groups}
      → IsPool n bgs
      → HasSpace bgs
      → (t : Taken n bgs m k block bgs') → t.old.data_blocks_used ≡ 0
      → m ≡ t.old.free_blocks
      → t.new.data_blocks_used ≢ 0
  Taken-whole {bgs} {m} {k} p s t u e =
      let positive = HasSpace-get_elem? bgs k s t.at u in
      let (g, high) = IsPool-get_elem? n bgs k p t.at in
      let used : t.new.data_blocks_used ≡ m = t.used ∙ omega (arith, g.room, g.small) in
      omega (arith, used)

  -- A pool, a fuel above the number of groups that have no data block: the loop ends, and hands out
  -- all of the request or nothing at all.
  multiple_loop-Spread :
      (fuel len : ℕ) (regs : List Region) (bgs : Groups)
      → unused bgs < fuel
      → HasSpace bgs
      → IsPool n bgs
      → Spread n bgs len regs (multiple_loop force fuel len regs bgs)
  multiple_loop-Spread zero len regs bgs f s p = absurd (omega arith)
  multiple_loop-Spread (suc fuel) zero regs bgs f s p =
      filled [] bgs p (omega arith) refl
        (loop_stop fuel regs bgs ∙ ap (λ l. done (some l, bgs)) (sym (append-nil regs)))
  multiple_loop-Spread (suc fuel) (suc l) regs bgs f s p =
      round (allocate_partial-Partial n force (suc l) bgs p) (multiple_loop-Spread fuel) refl
    where
      len : ℕ
      len = suc l

      ended :
          (rest : ℕ) (rs : List Region) (last : Groups)
          → 0 < rest
          → IsPool n last
          → Spread n last 0 rs (multiple_loop force rest 0 rs last)
      ended zero rs last h q = absurd (omega arith)
      ended (suc rest) rs last h q =
          filled [] last q (omega arith) refl
            (loop_stop rest rs last ∙ ap (λ l. done (some l, last)) (sym (append-nil rs)))

      round :
          {r : Run (Option Region × Groups)}
          → Partial n bgs len 0 r
          → ((len : ℕ) (regs : List Region) (bgs : Groups)
              → unused bgs < fuel
              → HasSpace bgs
              → IsPool n bgs
              → Spread n bgs len regs (multiple_loop force fuel len regs bgs))
          → r ≡ allocate_partial force len bgs
          → Spread n bgs len regs (multiple_loop force (suc fuel) len regs bgs)
      round (nowhere all run) ih same =
          short bgs p (loop_none fuel len regs bgs bgs (omega arith) (sym same ∙ run))
      round (part k block m bgs' t pos (inl e) run) ih same =
          let reg : Region = record { block = block; len = m; bg = k } in
          rw (loop_part fuel len regs bgs reg bgs' (omega arith) (sym same ∙ run)) (
            Spread-cons reg refl (omega arith) (Taken-total t) (
              let rest : len - m ≡ 0 = omega arith in
              rw rest (ended fuel (regs ++ (reg ∷ [])) bgs' (omega arith) (Taken-IsPool p t))))
      round (part k block m bgs' t pos (inr (lt, u, e)) run) ih same =
          let reg : Region = record { block = block; len = m; bg = k } in
          rw (loop_part fuel len regs bgs reg bgs' (omega arith) (sym same ∙ run)) (
            Spread-cons reg refl (omega arith) (Taken-total t) (
              ih (len - m) (regs ++ (reg ∷ [])) bgs'
                (let step = unused-set bgs k t.new t.at u (Taken-whole p s t u e) in
                  rw t.result (omega (arith, step)))
                (rw t.result (HasSpace-set bgs k t.new s (Taken-whole p s t u e)))
                (Taken-IsPool p t)))

  -- In a pool of well-formed groups where every group without a data block has a free one,
  -- `do_allocate` ends when its loop may run once more than there are groups without a data block:
  -- either with regions of `len` blocks in all, where the groups together have exactly as many
  -- blocks fewer free, or with NULL. The groups stay well formed.
  pub do_allocate-Spread :
      (fuel len : ℕ) (bgs : Groups)
      → unused bgs < fuel
      → HasSpace bgs
      → IsPool n bgs
      → Spread n bgs len [] (do_allocate force fuel len bgs)
  unfolding do_allocate
  do_allocate-Spread fuel len bgs f s p =
      go (allocate_contiguous_blocks-Search n force len bgs p) refl
    where
      go :
          {r : Run (Option Region × Groups)}
          → Search n bgs len 0 r
          → r ≡ allocate_contiguous_blocks force len bgs
          → Spread n bgs len [] (do_allocate force fuel len bgs)
      go (found k block bgs' lo before t run) same =
          filled (record { block = block; len = len; bg = k } ∷ []) bgs' (Taken-IsPool p t)
            (Taken-total t) (omega arith) (rw (sym same ∙ run, ◌>>=◌) refl)
      go (full all run) same =
          rw (sym same ∙ run, ◌>>=◌) (multiple_loop-Spread fuel len [] bgs f s p)
