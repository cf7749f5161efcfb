-- ===== src/Directory/Tiles.antt =====
-- The directory that the entries of `make_directory` make up.
use android_tools.Common.{
  ℕ, ◌+◌, ◌-◌, ◌*◌, ◌/◌, ◌%◌, ◌^◌, ◌≤◌, ◌<◌, ◌≡◌, refl, ap, ◌∙◌, arith, false, List, [], ◌∷◌, map,
  ltb, Run, done, ◌>>=◌, >>=-done,
}
use mathlib.Core.List.{reverse, reverse_aux}
use native.Mathlib.Decide.{dec_lt}
use native.Mathlib.Nat.{div-add-mod', mod-lt, mod-eq_of_lt, div-eq_of_lt-le}
use android_tools.Fs.{u32, div_round_up}
use android_tools.Directory.{
  Dentry, DirEntry, DirData, dentry_size, add_dentry, add_dentries, close_directory,
  start_directory, fill_directory, directory_len, dot, dot_dot, ft_dir,
}
use android_tools.Directory.Places.{
  slot, next, end_of, Fits, same_block, next_block, le-end_of, size_loop-end_of,
}
use android_tools.Directory.Layout.{Tiled, content, IsLaid}
use android_tools.Directory.Adding.{
  Added, unfilled, add_dentry-Added, Fits-end_of, add_dentries-IsLaid,
}

module _ (bs : ℕ) (pos : 264 < bs) (small : bs < 2 ^ 16) where
  -- No block starts where the entries end.
  end_of-off : (o : ℕ) (ds : List Dentry) → Fits bs o ds → 0 < o % bs → 0 < end_of bs o ds % bs
  end_of-off o [] f off = off
  end_of-off o (d ∷ ds) (short, apart, f) off =
      end_of-off (next bs o (slot d)) ds f (elim (dec_lt (o % bs + slot d) bs) [
        | yes inside ↦
            let (_, rest, next_eq) = same_block bs o (slot d) inside in
            rw next_eq (omega (arith, rest))
        | no over ↦
            let (_, rest, _, next_eq) =
              next_block bs o (slot d) (omega arith) (omega (arith, apart)) in
            rw next_eq (omega (arith, rest))
      ])

  -- the length of the buffer
  directory_len-end_of :
      (ds : List Dentry)
      → Fits bs 24 ds
      → end_of bs 24 ds + bs < 2 ^ 32
      → directory_len bs ds ≡ (end_of bs 24 ds / bs + 1) * bs
  unfolding dentry_size
  directory_len-end_of ds f fits =
      let off = end_of-off 24 ds f (omega (arith, mod-eq_of_lt {n = 24} {m = bs} (omega arith))) in
      let end = end_of bs 24 ds in
      let split = div-add-mod' end bs in
      let below = mod-lt end {m = bs} (omega arith) in
      let blocks : div_round_up 32 end bs ≡ end / bs + 1 =
        ap (λ (t : ℕ). t / bs) {x = ((end + bs) % 2 ^ 32 + 2 ^ 32 - 1) % 2 ^ 32} {y = end + bs - 1}
          (omega arith)
        ∙ div-eq_of_lt-le bs (omega (arith, split)) (omega (arith, split)) in
      rw (size_loop-end_of bs 24 ds (omega arith) small f fits, blocks)
        (omega (arith, split, below))

  close_directory-Tiled :
      (len : ℕ) (w : DirData)
      → w.size ≡ len
      → Tiled bs w.dentries w.offset
      → len ≡ (w.offset / bs + 1) * bs
      → w.offset % bs + 8 ≤ bs
      → len < 2 ^ 32
      → (w' : DirData) × (close_directory len w ≡ done w')
        × Tiled bs w'.dentries len
        × (map content w'.dentries ≡ (0, [], 0) ∷ map content w.dentries)
  unfolding close_directory
  close_directory-Tiled len w size t end room fits =
      let split = div-add-mod' w.offset bs in
      let inside : ltb w.size (w.offset + 8) ≡ false = ground (arith, size, end, split, room) in
      let rest : u32 (len + 2 ^ 32 - w.offset) % 2 ^ 16 ≡ len - w.offset =
        omega (arith, end, split, fits) in
      let last : DirEntry = record {
        at = w.offset;
        inode = 0;
        rec_len = len - w.offset;
        name_len = 0;
        file_type = 0;
        name = [];
      } in
      (
        record w { dentries = last ∷ w.dentries },
        rw (inside, rest) refl,
        (
          omega (arith, end, split, room),
          omega (arith, end, split),
          omega (arith, end, split, room),
          refl,
          t,
        ),
        refl,
      )

  -- the first two entries
  start_directory-IsLaid :
      (len inode dir_inode : ℕ)
      → 24 < len
      → len < 2 ^ 32
      → (w : DirData) × (start_directory bs len inode dir_inode ≡ done w)
        × (w.size ≡ len)
        × (w.offset ≡ 24)
        × IsLaid bs w
        × (map content w.dentries ≡ (dir_inode, dot_dot, ft_dir) ∷ (inode, dot, ft_dir) ∷ [])
  unfolding start_directory
  start_directory-IsLaid len inode dir_inode room fits = second_entry (
      add_dentry-Added bs empty (record { filename = dot; file_type = ft_dir }) inode (omega arith)
        small (omega arith) refl (omega arith) (omega (arith, next₁)) fits
        (omega (arith, zero_rest)))
    where
      zero_rest : 0 % bs ≡ 0
      zero_rest = mod-eq_of_lt (omega arith)

      twelve : 12 % bs ≡ 12
      twelve = mod-eq_of_lt (omega arith)

      next₁ : next bs 0 12 ≡ 12
      next₁ = ground (arith, zero_rest)

      next₂ : next bs 12 12 ≡ 24
      next₂ = ground (arith, twelve)

      empty : DirData
      empty = record { size = len; dentries = []; offset = 0 }

      second_entry :
          {r : Run DirData}
          → Added bs empty (record { filename = dot; file_type = ft_dir }) inode r
          → (w : DirData) × ((r >>= λ w. add_dentry bs w dir_inode dot_dot ft_dir) ≡ done w)
            × (w.size ≡ len)
            × (w.offset ≡ 24)
            × IsLaid bs w
            × (map content w.dentries ≡ (dir_inode, dot_dot, ft_dir) ∷ (inode, dot, ft_dir) ∷ [])
      second_entry {r} (w₁, e₁, size₁, offset₁, laid₁, says₁) =
          let at₁ : w₁.offset ≡ 12 = offset₁ ∙ next₁ in
          let (w₂, e₂, size₂, offset₂, laid₂, says₂) =
            add_dentry-Added bs w₁ (record { filename = dot_dot; file_type = ft_dir }) dir_inode
              (omega arith) small (omega arith) laid₁.0 (omega arith)
              (rw at₁ (omega (arith, next₂, size₁))) (omega (arith, fits, size₁))
              (rw at₁ (omega (arith, twelve))) in
          (
            w₂,
            >>=-done r (λ w. add_dentry bs w dir_inode dot_dot ft_dir) e₁ e₂,
            size₂ ∙ size₁,
            offset₂ ∙ (ap (λ (t : ℕ). next bs t 12) at₁ ∙ next₂),
            laid₂,
            says₂ ∙ ap (λ cs. (dir_inode, dot_dot, ft_dir) ∷ cs) says₁,
          )

  -- the entries for the names, and the one behind them
  rest-Tiled :
      (len : ℕ) (w : DirData) (ds : List Dentry)
      → Fits bs 24 ds
      → len ≡ (end_of bs 24 ds / bs + 1) * bs
      → len < 2 ^ 32
      → w.size ≡ len
      → w.offset ≡ 24
      → IsLaid bs w
      → (w' : DirData) × ((add_dentries bs len w ds >>= close_directory len) ≡ done w')
        × Tiled bs w'.dentries len
        × (map content w'.dentries
            ≡ (0, [], 0) ∷ reverse_aux (map unfilled ds) (map content w.dentries))
  rest-Tiled len w ds f end fits size at laid =
      closed (add_dentries-IsLaid bs pos small len w ds fits size laid (rw at f) (rw at behind))
    where
      behind : end_of bs 24 ds < len
      behind = omega (arith, div-add-mod' (end_of bs 24 ds) bs, mod-lt (end_of bs 24 ds) {m = bs})

      closed :
          {r : Run DirData}
          → (w' : DirData) × (r ≡ done w')
            × (w'.size ≡ len)
            × (w'.offset ≡ end_of bs w.offset ds)
            × IsLaid bs w'
            × (map content w'.dentries ≡ reverse_aux (map unfilled ds) (map content w.dentries))
          → (w' : DirData) × ((r >>= close_directory len) ≡ done w')
            × Tiled bs w'.dentries len
            × (map content w'.dentries
                ≡ (0, [], 0) ∷ reverse_aux (map unfilled ds) (map content w.dentries))
      closed {r} (w₁, e₁, size₁, offset₁, laid₁, says₁) =
          let end_at : w₁.offset ≡ end_of bs 24 ds = offset₁ ∙ ap (λ (t : ℕ). end_of bs t ds) at in
          let (w₂, e₂, t, says₂) =
            close_directory-Tiled len w₁ size₁ laid₁.0 (rw end_at end)
              (rw end_at (Fits-end_of bs pos small 24 ds f)) fits in
          (w₂, >>=-done r (close_directory len) e₁ e₂, t, says₂ ∙ ap (λ cs. (0, [], 0) ∷ cs) says₁)

  -- With blocks of 265 to 65535 bytes and names of fewer than 256 bytes, where no entry would end
  -- just where a block does, the last one leaves 8 bytes of its block, and the length and one block
  -- fit 32 bits: the buffer whose length comes from `dentry_size` is filled without an error or a
  -- write behind its end. The entries for ".", ".." and the names, in this order, and an empty one
  -- follow one another by their record lengths from its start to its end; each lies in one block
  -- and has room for its name.
  pub fill_directory-Tiled :
      (inode dir_inode : ℕ) (ds : List Dentry)
      → Fits bs 24 ds
      → end_of bs 24 ds + bs < 2 ^ 32
      → (w : DirData) × (fill_directory bs (directory_len bs ds) inode dir_inode ds ≡ done w)
        × Tiled bs w.dentries (directory_len bs ds)
        × (map content w.dentries
            ≡ (0, [], 0)
              ∷ reverse ((inode, dot, ft_dir) ∷ (dir_inode, dot_dot, ft_dir) ∷ map unfilled ds))
  unfolding fill_directory
  fill_directory-Tiled inode dir_inode ds f fits =
      filled (directory_len bs ds) (directory_len-end_of ds f fits)
    where
      split : end_of bs 24 ds / bs * bs + end_of bs 24 ds % bs ≡ end_of bs 24 ds
      split = div-add-mod' (end_of bs 24 ds) bs

      filled :
          (len : ℕ)
          → len ≡ (end_of bs 24 ds / bs + 1) * bs
          → (w : DirData) × (fill_directory bs len inode dir_inode ds ≡ done w)
            × Tiled bs w.dentries len
            × (map content w.dentries
                ≡ (0, [], 0)
                  ∷ reverse ((inode, dot, ft_dir) ∷ (dir_inode, dot_dot, ft_dir) ∷ map unfilled ds))
      filled len end =
          let fits₁ : len < 2 ^ 32 = omega (arith, end, split) in
          let behind : 24 < len = omega (
            arith,
            end,
            split,
            le-end_of bs 24 ds (omega arith),
            mod-lt (end_of bs 24 ds) {m = bs},
          ) in
          let (w₁, e₁, size₁, at₁, laid₁, says₁) =
            start_directory-IsLaid len inode dir_inode behind fits₁ in
          let (w₂, e₂, t, says₂) = rest-Tiled len w₁ ds f end fits₁ size₁ at₁ laid₁ in
          (
            w₂,
            >>=-done (start_directory bs len inode dir_inode)
                (λ w. add_dentries bs len w ds >>= close_directory len) e₁ e₂,
            t,
            says₂ ∙ ap (λ cs. (0, [], 0) ∷ reverse_aux (map unfilled ds) cs) says₁,
          )
