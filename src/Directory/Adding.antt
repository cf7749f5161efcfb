-- ===== src/Directory/Adding.antt =====
-- `add_dentry` and the loop over the entries leave a directory laid out up to `offset`.
use android_tools.Common.{
  ℕ, ◌+◌, ◌*◌, ◌/◌, ◌%◌, ◌^◌, ◌≤◌, ◌<◌, ◌≡◌, ◌≢◌, refl, ap, sym, ◌∙◌, arith, true, false, List, [],
  ◌∷◌, map, ◌==◌, ltb, ◌&&◌, ◌||◌, not, length, Run, done, ◌>>=◌,
}
use mathlib.Core.List.{reverse_aux}
use native.Mathlib.Decide.{dec_lt}
use native.Mathlib.Nat.{mod-lt, mul-mod_left}
use android_tools.Fs.{u32}
use android_tools.Directory.{Dentry, DirData, align_four, add_dentry, add_dentries, is_last}
use android_tools.Directory.Places.{slot, next, end_of, Fits, same_block, next_block, le-end_of}
use android_tools.Directory.Layout.{Tiled, content, pad_prev-Tiled, IsLaid, put_dentry-IsLaid}

-- What a call of `add_dentry` for a name leaves.
abbrev pub Added : ℕ → DirData → Dentry → ℕ → Run DirData → Type 0
Added bs w d inode r =
    (w' : DirData) × (r ≡ done w')
    × (w'.size ≡ w.size)
    × (w'.offset ≡ next bs w.offset (slot d))
    × IsLaid bs w'
    × (map content w'.dentries ≡ (inode, d.filename, d.file_type) ∷ map content w.dentries)

module _ (bs : ℕ) (w : DirData) (d : Dentry) (inode : ℕ) (pos : 0 < bs) (small : bs < 2 ^ 16)
    (room : slot d < bs) (t : Tiled bs w.dentries w.offset) (short : length d.filename < 256)
    (fits : next bs w.offset (slot d) ≤ w.size) (size : w.size < 2 ^ 32) where
  name_len : length d.filename % 2 ^ 8 ≡ length d.filename
  name_len = omega arith

  rec_len : (8 + align_four (length d.filename)) % 2 ^ 16 ≡ slot d
  rec_len = omega arith

  block_size : (bs == 0) ≡ false
  block_size = ground arith

  add_dentry-here :
      w.offset % bs + slot d < bs
      → Added bs w d inode (add_dentry bs w inode d.filename d.file_type)
  unfolding add_dentry
  add_dentry-here inside =
      let (same, _, next_eq) = same_block bs w.offset (slot d) inside in
      let (w', e, size', offset', laid, says) =
        put_dentry-IsLaid bs w d inode pos t short inside (omega (arith, next_eq)) size in
      let sum : u32 (w.offset + slot d) ≡ w.offset + slot d = omega (arith, next_eq) in
      let here : (w.offset / bs == (w.offset + slot d) / bs) ≡ true = ground (arith, same) in
      (
        w',
        rw (name_len, rec_len, block_size, sum, here) e,
        size',
        offset' ∙ sym next_eq,
        laid,
        says,
      )

  add_dentry-behind :
      bs < w.offset % bs + slot d
      → Added bs w d inode (add_dentry bs w inode d.filename d.file_type)
  unfolding add_dentry
  add_dentry-behind over =
      let (there, rest, whole, next_eq) = next_block bs w.offset (slot d) room over in
      let start = (w.offset / bs + 1) * bs in
      let below = mod-lt w.offset {m = bs} pos in
      let (es, padded, t', same) =
        pad_prev-Tiled bs w.offset w.dentries pos small (omega arith) (omega (arith, next_eq)) t in
      let w₁ = record w { dentries = es; offset = start } in
      let front = mul-mod_left (w.offset / bs + 1) bs in
      let (w', e, size', offset', laid, says) =
        put_dentry-IsLaid bs w₁ d inode pos t' short (omega (arith, front)) (omega (arith, next_eq))
          size in
      let sum : u32 (w.offset + slot d) ≡ w.offset + slot d =
        omega (arith, next_eq, whole, below) in
      let apart : (w.offset / bs == (w.offset + slot d) / bs) ≡ false = ground (arith, there) in
      let begin : u32 ((w.offset + slot d) / bs * bs) ≡ start =
        ap (λ (q : ℕ). u32 (q * bs)) there ∙ omega (arith, next_eq) in
      (
        w',
        rw (name_len, rec_len, block_size, sum, apart, begin, padded) e,
        size',
        offset' ∙ sym next_eq,
        laid,
        says ∙ ap (λ cs. (inode, d.filename, d.file_type) ∷ cs) same,
      )

  pub add_dentry-Added :
      w.offset % bs + slot d ≢ bs
      → Added bs w d inode (add_dentry bs w inode d.filename d.file_type)
  add_dentry-Added apart = elim (dec_lt (w.offset % bs + slot d) bs) [
    | yes inside ↦ add_dentry-here inside
    | no over ↦ add_dentry-behind (omega (arith, apart))
  ]

-- what the entry for a name says, before its inode is filled in
abbrev pub unfilled : Dentry → ℕ × List ℕ × ℕ
unfilled d = (0, d.filename, d.file_type)

module _ (bs : ℕ) (pos : 264 < bs) (small : bs < 2 ^ 16) where
  pub Fits-end_of : (o : ℕ) (ds : List Dentry) → Fits bs o ds → end_of bs o ds % bs + 8 ≤ bs
  Fits-end_of o [] f = f
  Fits-end_of o (d ∷ ds) (short, apart, f) = Fits-end_of (next bs o (slot d)) ds f

  pub add_dentries-IsLaid :
      (len : ℕ) (w : DirData) (ds : List Dentry)
      → len < 2 ^ 32
      → w.size ≡ len
      → IsLaid bs w
      → Fits bs w.offset ds
      → end_of bs w.offset ds < len
      → (w' : DirData) × (add_dentries bs len w ds ≡ done w')
        × (w'.size ≡ len)
        × (w'.offset ≡ end_of bs w.offset ds)
        × IsLaid bs w'
        × (map content w'.dentries ≡ reverse_aux (map unfilled ds) (map content w.dentries))
  unfolding add_dentries
  add_dentries-IsLaid len w [] fits size laid f lt = (w, refl, size, refl, laid, refl)
  add_dentries-IsLaid len w (d ∷ ds) fits size laid (short, apart, f) lt =
      let below = le-end_of bs (next bs w.offset (slot d)) ds (omega arith) in
      let (w₁, e₁, size₁, offset₁, laid₁, says₁) =
        add_dentry-Added bs w d 0 (omega arith) small (omega arith) laid.0 short
          (omega (arith, below, size)) (omega (arith, size)) apart in
      let checked : (ltb len w₁.offset || w₁.offset == len && not (is_last ds)) ≡ false =
        ground (arith, offset₁, below) in
      let (w₂, e₂, size₂, offset₂, laid₂, says₂) =
        add_dentries-IsLaid len w₁ ds fits (size₁ ∙ size) laid₁ (rw offset₁ f) (rw offset₁ lt) in
      (
        w₂,
        rw (e₁, ◌>>=◌) (rw checked e₂),
        size₂,
        offset₂ ∙ ap (λ (t : ℕ). end_of bs t ds) offset₁,
        laid₂,
        says₂ ∙ ap (reverse_aux (map unfilled ds)) says₁,
      )
