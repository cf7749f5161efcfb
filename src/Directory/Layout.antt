-- ===== src/Directory/Layout.antt =====
-- The entries that are written to the buffer of a directory, and what a single one adds.
use android_tools.Common.{
  ℕ, ◌+◌, ◌-◌, ◌*◌, ◌/◌, ◌%◌, ◌^◌, ◌≤◌, ◌<◌, ◌≡◌, refl, ap, sym, ◌∙◌, arith, false, List, [], ◌∷◌,
  map, ltb, length, done,
}
use native.Mathlib.Decide.{dec_lt}
use native.Mathlib.Nat.{div-add-mod', mod-lt, mul-add-mod_self_right, mod-eq_of_lt}
use android_tools.Fs.{u32}
use android_tools.Directory.{Dentry, DirEntry, DirData, put_dentry, pad_prev}
use android_tools.Directory.Places.{slot, same_block}

-- The entries, the last one first, follow one another from 0 up to `o`; each lies in one block, and
-- its name fits into it.
abbrev pub Tiled : ℕ → List DirEntry → ℕ → Type 0
Tiled bs [] o = o ≡ 0
Tiled bs (e ∷ es) o =
    (e.at + e.rec_len ≡ o)
    × (e.at % bs + e.rec_len ≤ bs)
    × (8 + e.name_len ≤ e.rec_len)
    × (e.name_len ≡ length e.name)
    × Tiled bs es e.at

-- what an entry says: its inode, its name and its type
abbrev pub content : DirEntry → ℕ × List ℕ × ℕ
content e = (e.inode, e.name, e.file_type)

last-ends :
    (bs o at len : ℕ) → at + len ≡ o → at % bs + len ≤ bs → 0 < o % bs → at % bs + len ≡ o % bs
last-ends bs o at len e inside off = elim (dec_lt (at % bs + len) bs) [
  | yes lt ↦ sym (ap (λ (t : ℕ). t % bs) (sym e) ∙ (same_block bs at len lt).1)
  | no ge ↦
      let whole : o ≡ (at / bs + 1) * bs + 0 = omega (arith, div-add-mod' at bs) in
      let zero_rest : o % bs ≡ 0 % bs =
        ap (λ (t : ℕ). t % bs) whole ∙ mul-add-mod_self_right (at / bs + 1) bs 0 in
      absurd (omega (arith, mod-eq_of_lt {n = 0} {m = bs}))
]

-- The last entry padded up to the end of its block.
pub pad_prev-Tiled :
    (bs o : ℕ) (es : List DirEntry)
    → 0 < bs
    → bs < 2 ^ 16
    → 0 < o % bs
    → (o / bs + 1) * bs < 2 ^ 32
    → Tiled bs es o
    → (es' : List DirEntry) × (pad_prev (u32 ((o / bs + 1) * bs + 2 ^ 32 - o)) es ≡ done es')
      × Tiled bs es' ((o / bs + 1) * bs)
      × (map content es' ≡ map content es)
pad_prev-Tiled bs o [] pos small off fits e = absurd (omega (arith, mod-eq_of_lt {n = 0} {m = bs}))
pad_prev-Tiled bs o (e ∷ es) pos small off fits (ends, inside, room, name, t) =
    let start = (o / bs + 1) * bs in
    let split = div-add-mod' o bs in
    let below = mod-lt o {m = bs} pos in
    let last = last-ends bs o e.at e.rec_len ends inside off in
    let padding : u32 (start + 2 ^ 32 - o) ≡ start - o = omega (arith, split) in
    let len : (e.rec_len + u32 (start + 2 ^ 32 - o)) % 2 ^ 16 ≡ e.rec_len + (start - o) =
      omega (arith, padding, last, split, below) in
    (
      record e { rec_len = e.rec_len + (start - o) } ∷ es,
      ap (λ (t : ℕ). done (record e { rec_len = t } ∷ es)) len,
      (
        omega (arith, ends, split, below),
        omega (arith, last, split, below),
        omega (arith, room),
        name,
        t,
      ),
      refl,
    )

-- The entries stand up to `offset`, which is not the start of a block.
abbrev pub IsLaid : ℕ → DirData → Type 0
IsLaid bs w = Tiled bs w.dentries w.offset × (0 < w.offset % bs)

-- What is written for a name, in a block that has room for it.
pub put_dentry-IsLaid :
    (bs : ℕ) (w : DirData) (d : Dentry) (inode : ℕ)
    → 0 < bs
    → Tiled bs w.dentries w.offset
    → length d.filename < 256
    → w.offset % bs + slot d < bs
    → w.offset + slot d ≤ w.size
    → w.size < 2 ^ 32
    → (w' : DirData) × (put_dentry w (slot d) (length d.filename) inode d.filename d.file_type
        ≡ done w')
      × (w'.size ≡ w.size)
      × (w'.offset ≡ w.offset + slot d)
      × IsLaid bs w'
      × (map content w'.dentries ≡ (inode, d.filename, d.file_type) ∷ map content w.dentries)
unfolding put_dentry
put_dentry-IsLaid bs w d inode pos t short inside fits small =
    let (same, rest, _) = same_block bs w.offset (slot d) inside in
    let dentry : DirEntry = record {
      at = w.offset;
      inode = inode;
      rec_len = slot d;
      name_len = length d.filename;
      file_type = d.file_type;
      name = d.filename;
    } in
    let sum : u32 (w.offset + slot d) ≡ w.offset + slot d = omega arith in
    let room : ltb w.size (w.offset + 8 + length d.filename) ≡ false = ground arith in
    (
      record w { dentries = dentry ∷ w.dentries; offset = w.offset + slot d },
      rw (room, sum) refl,
      refl,
      refl,
      ((refl, omega arith, omega arith, refl, t), omega (arith, rest)),
      refl,
    )
