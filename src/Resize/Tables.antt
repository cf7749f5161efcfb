-- ===== src/Resize/Tables.antt =====
-- What the two loops of `inode_attach_resize` write.
use android_tools.Common.{
  ℕ, zero, suc, ◌+◌, ◌-◌, ◌*◌, ◌/◌, ◌%◌, ◌^◌, ◌≤◌, ◌<◌, ◌≡◌, refl, ap, sym, ◌∙◌, arith, true, List,
  ltb, lt→ltb, set, length, length-set, get_or, get_or-set_self, get_or-set_ne, Run, done, >>=-done,
}
use mathlib.Core.Path.{subst}
use native.Mathlib.Decide.{ℕ_discrete}
use native.Mathlib.Nat.{
  mul-add-div_right, mul-add-mod_self_right, div-eq_of_lt, mod-eq_of_lt, mod-lt,
}
use android_tools.Fs.{FsAuxInfo, u32}
use android_tools.Resize.{write, ind_loop, row, dind_loop}

-- Words of which each is to hold a value of its own: what is right stays right when such a value is
-- written, and what is written is right.
abbrev Keeps : (ℕ → ℕ) → List ℕ → List ℕ → Type 0
Keeps target old new = (m : ℕ) → get_or old m 0 ≡ target m → get_or new m 0 ≡ target m

set-Keeps :
    (target : ℕ → ℕ) (words : List ℕ) (k : ℕ)
    → k < length words
    → Keeps target words (set words k (target k))
set-Keeps target words k inside m right = elim (ℕ_discrete k m) [
  | yes same ↦
      ap (λ (t : ℕ). get_or (set words k (target k)) t 0) (sym same)
      ∙ get_or-set_self words k (target k) 0 inside
      ∙ ap target same
  | no other ↦ get_or-set_ne words k m (target k) 0 other ∙ right
]

-- The block of superblock group `j` in row `r`, by the place in the second buffer.
abbrev at_word : (ℕ → ℕ → ℕ) → ℕ → ℕ → ℕ
at_word blocks per m = blocks (m % per + 1) (m / per)

at_word-eq :
    (blocks : ℕ → ℕ → ℕ) (per r j : ℕ)
    → 0 < j
    → j ≤ per
    → at_word blocks per (r * per + (j - 1)) ≡ blocks j r
at_word-eq blocks per r j pos small =
    let rest : (r * per + (j - 1)) % per + 1 ≡ j = omega (
      arith,
      mul-add-mod_self_right r per (j - 1),
      mod-eq_of_lt {n = j - 1} {m = per} (omega arith),
    ) in
    let whole : (r * per + (j - 1)) / per ≡ r =
      mul-add-div_right {m = per} (omega arith) r (j - 1)
      ∙ omega (arith, div-eq_of_lt {n = j - 1} {m = per} (omega arith)) in
    rw (rest, whole) refl

in_range : (r c w h : ℕ) → r < h → c < w → r * w + c < h * w
in_range r c w h p q = grind arith

-- What entry `m` of the first buffer is, and the row of the second that it leads to.
abbrev pub RowIsRight : FsAuxInfo → (ℕ → ℕ → ℕ) → ℕ → ℕ → List ℕ → List ℕ → Type 0
RowIsRight aux blocks n m dind ind =
    (get_or dind m 0 ≡ blocks 0 (row aux m))
    × ((j : ℕ)
        → 1 ≤ j
        → j < n
        → get_or ind (row aux m * aux.blocks_per_ind + (j - 1)) 0 ≡ blocks j (row aux m))

-- With `block` right for every reserved block of every superblock group, and buffers with room.
module _ (block : ℕ → Run ℕ) (aux : FsAuxInfo) (blocks : ℕ → ℕ → ℕ) (n : ℕ)
    (reads : (j r : ℕ)
      → j < n
      → r < aux.bg_desc_reserve_blocks
      → block (u32 (u32 (j * aux.bg_desc_reserve_blocks) + r)) ≡ done (blocks j r))
    (few : n ≤ aux.blocks_per_ind + 1)
    (small : aux.bg_desc_reserve_blocks * aux.blocks_per_ind < 2 ^ 32) where
  abbrev target : ℕ → ℕ
  target = at_word blocks aux.blocks_per_ind

  ind_loop-Keeps :
      (r left j : ℕ) (ind : List ℕ)
      → j + left ≡ n
      → 0 < j
      → r < aux.bg_desc_reserve_blocks
      → aux.bg_desc_reserve_blocks * aux.blocks_per_ind ≤ length ind
      → (ind' : List ℕ) × (ind_loop block aux r left j ind ≡ done ind')
        × (length ind' ≡ length ind)
        × Keeps target ind ind'
        × ((m : ℕ) → j ≤ m → m < n → get_or ind' (r * aux.blocks_per_ind + (m - 1)) 0 ≡ blocks m r)
  unfolding ind_loop
  ind_loop-Keeps r zero j ind e pos lt room =
      (ind, refl, refl, λ m right. right, λ m lo hi. absurd (omega arith))
  ind_loop-Keeps r (suc left) j ind e pos lt room =
      let k = r * aux.blocks_per_ind + (j - 1) in
      let inside : k < aux.bg_desc_reserve_blocks * aux.blocks_per_ind =
        in_range r (j - 1) aux.blocks_per_ind aux.bg_desc_reserve_blocks lt (omega arith) in
      let index : u32 (r * aux.blocks_per_ind + j + 2 ^ 32 - 1) ≡ k = omega (arith, inside) in
      let value : blocks j r ≡ target k =
        sym (at_word-eq blocks aux.blocks_per_ind r j pos (omega arith)) in
      let ind₁ = set ind k (target k) in
      let test : ltb k (length ind) ≡ true = lt→ltb k (length ind) (omega arith) in
      let written : write ind (u32 (r * aux.blocks_per_ind + j + 2 ^ 32 - 1)) (blocks j r)
          ≡ done ind₁ =
        rw (index, value, test) refl in
      let len = length-set ind k (target k) in
      let (ind₂, run, len₂, keeps, right) =
        ind_loop-Keeps r left (j + 1) ind₁ (omega arith) (omega arith) lt (omega (arith, len)) in
      let at_k : get_or ind₂ k 0 ≡ target k =
        keeps k (get_or-set_self ind k (target k) 0 (omega arith)) in
      (
        ind₂,
        >>=-done _ _ (reads j r (omega arith) lt)
            (>>=-done _ (ind_loop block aux r left (j + 1)) written run),
        len₂ ∙ len,
        λ m right. keeps m (set-Keeps target ind k (omega arith) m right),
        λ m lo hi. elim (ℕ_discrete j m) [
          | yes same ↦
              ap (λ (t : ℕ). get_or ind₂ (r * aux.blocks_per_ind + (t - 1)) 0) (sym same)
              ∙ at_k
              ∙ sym value
              ∙ ap (λ (t : ℕ). blocks t r) same
          | no other ↦ right m (omega (arith, other)) hi
        ],
      )

  abbrev first_of : ℕ → ℕ
  first_of m = blocks 0 (row aux m)

  pub dind_loop-right :
      (left i : ℕ) (dind ind : List ℕ)
      → i + left ≡ aux.bg_desc_reserve_blocks
      → 0 < n
      → aux.bg_desc_reserve_blocks < 2 ^ 32
      → aux.bg_desc_reserve_blocks ≤ length dind
      → aux.bg_desc_reserve_blocks * aux.blocks_per_ind ≤ length ind
      → (dind' : List ℕ) × (ind' : List ℕ) × (dind_loop block aux n left i dind ind
          ≡ done (dind', ind'))
        × Keeps first_of dind dind'
        × Keeps target ind ind'
        × ((m : ℕ) → i ≤ m → m < aux.bg_desc_reserve_blocks → RowIsRight aux blocks n m dind' ind')
  unfolding dind_loop
  dind_loop-right zero i dind ind e some_super narrow room wide =
      (dind, ind, refl, λ m right. right, λ m right. right, λ m lo hi. absurd (omega arith))
  dind_loop-right (suc left) i dind ind e some_super narrow room wide =
      let r = row aux i in
      let below : r < aux.bg_desc_reserve_blocks =
        mod-lt (u32 (i + 2 ^ 32 - aux.bg_desc_blocks)) {m = aux.bg_desc_reserve_blocks}
          (omega arith) in
      let read : block r ≡ done (blocks 0 r) =
        ap block {x = r} {y = u32 (u32 (0 * aux.bg_desc_reserve_blocks) + r)} (omega (arith, below))
        ∙ reads 0 r some_super below in
      let dind₁ = set dind i (blocks 0 r) in
      let test : ltb i (length dind) ≡ true = lt→ltb i (length dind) (omega arith) in
      let written : write dind i (blocks 0 r) ≡ done dind₁ = rw test refl in
      let len = length-set dind i (blocks 0 r) in
      let (ind₁, run₁, len₁, keeps₁, right₁) =
        ind_loop-Keeps r (n - 1) 1 ind (omega arith) (omega arith) below wide in
      let (dind₂, ind₂, run₂, keeps_dind, keeps_ind, right₂) =
        dind_loop-right left (i + 1) dind₁ ind₁ (omega arith) some_super narrow (omega (arith, len))
          (omega (arith, len₁)) in
      let here : RowIsRight aux blocks n i dind₂ ind₂ = (
        keeps_dind i (get_or-set_self dind i (blocks 0 r) 0 (omega arith)),
        λ j lo hi.
            keeps_ind (r * aux.blocks_per_ind + (j - 1))
              (right₁ j lo hi ∙ sym (at_word-eq blocks aux.blocks_per_ind r j lo (omega arith)))
            ∙ at_word-eq blocks aux.blocks_per_ind r j lo (omega arith),
      ) in
      (
        dind₂,
        ind₂,
        >>=-done _ _ read (
            >>=-done _ _ written (>>=-done _ (dind_loop block aux n left (i + 1) dind₁) run₁ run₂)),
        λ m right. keeps_dind m (set-Keeps first_of dind i (omega arith) m right),
        λ m right. keeps_ind m (keeps₁ m right),
        λ m lo hi. elim (ℕ_discrete i m) [
          | yes same ↦ subst (λ (t : ℕ). RowIsRight aux blocks n t dind₂ ind₂) same here
          | no other ↦ right₂ m (omega (arith, other)) hi
        ],
      )
