-- ===== src/Directory/Places.antt =====
-- Where the entries of a directory come to lie: the ends of the entries, and the length for them.
use android_tools.Common.{
  ℕ, ◌+◌, ◌*◌, ◌/◌, ◌%◌, ◌^◌, ◌≤◌, ◌<◌, ◌≡◌, ◌≢◌, refl, ap, ◌∙◌, arith, List, [], ◌∷◌, ltb,
  if◌then◌else◌, length,
}
use native.Mathlib.Nat.{div-add-mod', mod-lt, div-eq_of_lt-le, mul-add-mod_self_right, mod-eq_of_lt}
use android_tools.Fs.{u32}
use android_tools.Directory.{Dentry, align_four, grow, size_loop}

-- the bytes of an entry
abbrev pub slot : Dentry → ℕ
slot d = 8 + align_four (length d.filename)

-- Where an entry of `len` bytes ends that is placed from offset `o` on, in one block.
abbrev pub next : ℕ → ℕ → ℕ → ℕ
next bs o len = if ltb bs (o % bs + len) then (o / bs + 1) * bs + len else o + len

abbrev pub end_of : ℕ → ℕ → List Dentry → ℕ
end_of bs o [] = o
end_of bs o (d ∷ ds) = end_of bs (next bs o (slot d)) ds

-- Names are shorter than 256 bytes, no entry ends where a block does, and the last one leaves room
-- for the fields of another.
abbrev pub Fits : ℕ → ℕ → List Dentry → Type 0
Fits bs o [] = o % bs + 8 ≤ bs
Fits bs o (d ∷ ds) =
    (length d.filename < 256) × (o % bs + slot d ≢ bs) × Fits bs (next bs o (slot d)) ds

module _ (bs o len : ℕ) where
  pub same_block :
      o % bs + len < bs
      → ((o + len) / bs ≡ o / bs) × ((o + len) % bs ≡ o % bs + len) × (next bs o len ≡ o + len)
  same_block h =
      let split = div-add-mod' o bs in
      let whole : o + len ≡ o / bs * bs + (o % bs + len) = omega (arith, split) in
      (
        div-eq_of_lt-le bs (omega (arith, split)) (omega (arith, split)),
        ap (λ (t : ℕ). t % bs) whole
            ∙ mul-add-mod_self_right (o / bs) bs (o % bs + len)
            ∙ mod-eq_of_lt h,
        ground arith,
      )

  pub next_block :
      len < bs
      → bs < o % bs + len
      → ((o + len) / bs ≡ o / bs + 1)
        × (((o / bs + 1) * bs + len) % bs ≡ len)
        × (o % bs + (o / bs + 1) * bs ≡ o + bs)
        × (next bs o len ≡ (o / bs + 1) * bs + len)
  next_block short h =
      let split = div-add-mod' o bs in
      let below = mod-lt o {m = bs} (omega arith) in
      (
        div-eq_of_lt-le bs (omega (arith, split)) (omega (arith, split)),
        mul-add-mod_self_right (o / bs + 1) bs len ∙ mod-eq_of_lt short,
        omega (arith, split),
        ground arith,
      )

  grow-next :
      0 < bs
      → bs < 2 ^ 16
      → len < 2 ^ 16
      → next bs o len + bs < 2 ^ 32
      → grow bs o len ≡ next bs o len
  grow-next pos small short fits =
      let split = div-add-mod' o bs in
      let below = mod-lt o {m = bs} pos in ground (arith, split, below)

  le-next : 0 < bs → o ≤ next bs o len
  le-next pos = ground (arith, div-add-mod' o bs, mod-lt o {m = bs} pos)

pub le-end_of : (bs o : ℕ) (ds : List Dentry) → 0 < bs → o ≤ end_of bs o ds
le-end_of bs o [] pos = omega arith
le-end_of bs o (d ∷ ds) pos =
    omega (arith, le-next bs o (slot d) pos, le-end_of bs (next bs o (slot d)) ds pos)

pub size_loop-end_of :
    (bs o : ℕ) (ds : List Dentry)
    → 0 < bs
    → bs < 2 ^ 16
    → Fits bs o ds
    → end_of bs o ds + bs < 2 ^ 32
    → size_loop bs o ds ≡ end_of bs o ds
unfolding size_loop
size_loop-end_of bs o [] pos small f fits = refl
size_loop-end_of bs o (d ∷ ds) pos small (short, apart, f) fits =
    let below = le-end_of bs (next bs o (slot d)) ds pos in
    let len : u32 (slot d) ≡ slot d = omega arith in
    let step : grow bs o (u32 (slot d)) ≡ next bs o (slot d) =
      ap (grow bs o) len ∙ grow-next bs o (slot d) pos small (omega arith) (omega arith) in
    ap (λ (t : ℕ). size_loop bs t ds) step
    ∙ size_loop-end_of bs (next bs o (slot d)) ds pos small f fits
