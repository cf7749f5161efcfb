-- ===== src/Sparse/Output/Stage.antt =====
-- How far a sparse image has been written: the bytes of the image so far, and their blocks.
use android_tools.Common.{
  ℕ, zero, suc, ◌+◌, ◌-◌, ◌*◌, ◌/◌, ◌^◌, ◌≤◌, ◌<◌, ◌≡◌, refl, ap, sym, ◌∙◌, arith, Bool, true,
  false, List, [], ◌∷◌, ◌++◌, some, ltb, leb, length, replicate, length-append, done,
}
use mathlib.Core.List.{append-nil, append_assoc}
use native.Mathlib.Decide.{dec_lt}
use native.Mathlib.Nat.{mul-div_left, mul-le-mul}
use android_tools.Fs.{FsInfo, u64}
use android_tools.Group.{ok}
use android_tools.Sparse.{chunk_header_len}
use android_tools.Sparse.Items.{
  Item, raw, blocks, expand_all, expand_all-append, expand_all-whole, blocks-append,
}
use android_tools.Sparse.Output.{
  Ops, OutputFile, write_chunk_raw, write_data_block, write_data_file, pad_output_file, fill_gap,
  write_out, extended,
}
use android_tools.Sparse.Output.Reliable.{IsReliable}
use android_tools.Sparse.Output.Written.{IsSize, Written, rounded, rounded-bounds}
use android_tools.Sparse.Output.RawChunk.{padded, length-padded}
use android_tools.Sparse.Output.Blocks.{gap, write_chunk_raw-Written, fill_gap-Written}

-- how many blocks some bytes take up
abbrev pub blocks_for : ℕ → List ℕ → ℕ
blocks_for size bytes = (length bytes + size - 1) / size

blocks-gap : (size n : ℕ) → blocks size (gap n) ≡ n
blocks-gap size zero = refl
blocks-gap size (suc n) = omega arith

expand_all-gap : (size n : ℕ) → expand_all size (gap n) ≡ replicate (n * size) 0
expand_all-gap size zero = ap (λ (t : ℕ). replicate t 0) {x = 0} {y = 0 * size} (omega arith)
expand_all-gap size (suc n) = append-nil (replicate (suc n * size) 0)

length-gap : (n : ℕ) → length (gap n) ≤ n
length-gap zero = omega arith
length-gap (suc n) = omega arith

blocks-padded :
    (size : ℕ) (bytes : List ℕ)
    → 0 < size
    → length (padded size bytes) / size ≡ blocks_for size bytes
blocks-padded size bytes pos =
    ap (λ (t : ℕ). t / size) (length-padded size bytes pos)
    ∙ mul-div_left (blocks_for size bytes) pos

not_past : (x len : ℕ) → x ≤ len → len < 2 ^ 63 → ltb len (u64 x) ≡ false
not_past x len le small = let same : u64 x ≡ x = omega arith in rw same (ground arith)

not_below : (x y : ℕ) → y ≤ x → ltb x y ≡ false
not_below x y le = ground arith

before_end : (x len : ℕ) → x < len → len < 2 ^ 63 → leb len (u64 x) ≡ false
before_end x len lt small = let same : u64 x ≡ x = omega arith in rw same (ground arith)

pub extended-short : (len : ℕ) → len < 2 ^ 31 → extended len ≡ len
extended-short len small = let test : ltb len (2 ^ 31) ≡ true = ground arith in rw test refl

some_blocks : (size : ℕ) (bytes : List ℕ) → 0 < size → 0 < length bytes → 0 < blocks_for size bytes
some_blocks size bytes pos some_bytes =
    let bounds = rounded-bounds size (length bytes) pos in
    elim (dec_lt 0 (blocks_for size bytes)) [
      | yes lt ↦ lt
      | no le ↦ absurd (
          let none_left : rounded size (length bytes) ≤ 0 * size =
            mul-le-mul (omega arith) (omega arith) in
          omega (arith, none_left, bounds))
    ]

module _ {F : Type 0} {ops : Ops F} (r : IsReliable ops) (force : Bool) (info : FsInfo)
    (z : IsSize info.block_size) where
  abbrev size : ℕ
  size = info.block_size

  pub record Stage (out : OutputFile F) (image : List ℕ) (count : ℕ) : Type 0 where
    pub items : List Item
    pub written : Written r size out items
    pub expands : expand_all size items ≡ image
    pub counts : blocks size items ≡ count
    pub few : length items ≤ count

  -- One that has more chunks.
  Stage-append :
      {out out' : OutputFile F} {image : List ℕ} {count : ℕ} (more : List Item) (bytes : List ℕ)
      (n : ℕ)
      → (s : Stage out image count) → Written r size out' (s.items ++ more)
      → expand_all size more ≡ bytes
      → blocks size more ≡ n
      → length more ≤ n
      → Stage out' (image ++ bytes) (count + n)
  Stage-append {image = image} {count = count} more bytes n s w e b l = record {
    items = s.items ++ more;
    written = w;
    expands =
        expand_all-append size s.items more
        ∙ ap (λ l. expand_all size s.items ++ l) e
        ∙ ap (λ l. l ++ bytes) s.expands;
    counts = omega (arith, blocks-append size s.items more, s.counts, b);
    few = omega (arith, length-append s.items more, s.few, l);
  }

  ap-Stage :
      {out : OutputFile F} {image : List ℕ} {n m : ℕ}
      → n ≡ m
      → Stage out image n
      → Stage out image m
  ap-Stage e s = record {
    items = s.items;
    written = s.written;
    expands = s.expands;
    counts = s.counts ∙ e;
    few = omega (arith, s.few, e);
  }

  -- The gap before a block and the block itself, as bytes of the image.
  abbrev pub placed : ℕ → ℕ → List ℕ → List ℕ
  placed count a bytes = replicate ((a - count) * size) 0 ++ padded size bytes

  write_chunk_raw-Stage :
      (out : OutputFile F) (image : List ℕ) (count a : ℕ) (bytes : List ℕ)
      → Stage out image count
      → count ≤ a
      → a < 2 ^ 32
      → 0 < length bytes
      → chunk_header_len + length bytes + size < 2 ^ 31
      → (out' : OutputFile F) × (write_chunk_raw ops force info out (a * size) bytes
          ≡ done (ok, out'))
        × Stage out' (image ++ placed count a bytes) (a + blocks_for size bytes)
  write_chunk_raw-Stage out image count a bytes s behind small some_bytes fits =
      let items = s.items in
      let (out', run, w, place) =
        write_chunk_raw-Written r force info z out items a bytes s.written (omega (arith, s.counts))
          small fits in
      let n = a - blocks size items in
      let more : List Item = gap n ++ (raw (padded size bytes) ∷ []) in
      let w' : Written r size out' (items ++ more) =
        rw (append_assoc items (gap n) (raw (padded size bytes) ∷ [])) at w in
      let block = blocks-padded size bytes z.some_bytes in
      let expands : expand_all size more ≡ placed count a bytes =
        expand_all-append size (gap n) (raw (padded size bytes) ∷ [])
        ∙ ap (λ l. expand_all size (gap n) ++ l) (append-nil (padded size bytes))
        ∙ ap (λ l. l ++ padded size bytes)
            (expand_all-gap size n ∙ ap (λ (t : ℕ). replicate ((a - t) * size) 0) s.counts) in
      let total : blocks size more ≡ n + blocks_for size bytes = omega (
        arith,
        blocks-append size (gap n) (raw (padded size bytes) ∷ []),
        blocks-gap size n,
        block,
      ) in
      let few : length more ≤ n + blocks_for size bytes = omega (
        arith,
        length-append (gap n) (raw (padded size bytes) ∷ []),
        length-gap n,
        some_blocks size bytes z.some_bytes some_bytes,
      ) in
      let end : count + (n + blocks_for size bytes) ≡ a + blocks_for size bytes =
        omega (arith, s.counts) in
      (
        out',
        run,
        ap-Stage end (
            Stage-append more (placed count a bytes) (n + blocks_for size bytes) s w' expands total
              few),
      )

  -- What fits the image: behind what has been written, and within its `total` blocks.
  pub record IsPlaced (count total a : ℕ) (bytes : List ℕ) : Type 0 where
    pub behind : count ≤ a
    pub inside : a + blocks_for size bytes ≤ total
    pub some_bytes : 0 < length bytes
    pub fits : chunk_header_len + length bytes + size < 2 ^ 31

  -- The image has `total` blocks, and their count fits 32 bits.
  pub record IsLength (total : ℕ) : Type 0 where
    pub len : info.len ≡ total * size
    pub fits : total < 2 ^ 32

  within :
      (total count a : ℕ) (bytes : List ℕ)
      → IsLength total
      → IsPlaced count total a bytes
      → (a * size + length bytes ≤ info.len) × (info.len < 2 ^ 63) × (a < 2 ^ 32)
  within total count a bytes l v =
      let bounds = rounded-bounds size (length bytes) z.some_bytes in
      let room : (a + blocks_for size bytes) * size ≤ total * size =
        mul-le-mul v.inside (omega arith) in
      let most : total * size ≤ 2 ^ 32 * (2 ^ 31 - 1) =
        mul-le-mul {n₂ = 2 ^ 32} {m₂ = 2 ^ 31 - 1} (omega (arith, l.fits))
          (omega (arith, z.at_most)) in
      (
        omega (arith, bounds, room, l.len),
        omega (arith, most, l.len),
        omega (arith, v.inside, l.fits),
      )

  write_out-Stage :
      (out : OutputFile F) (image : List ℕ) (count total a : ℕ) (bytes : List ℕ)
      → Stage out image count
      → IsLength total
      → IsPlaced count total a bytes
      → (out' : OutputFile F) × (write_out ops force info out (a * size) bytes ≡ done out')
        × Stage out' (image ++ placed count a bytes) (a + blocks_for size bytes)
  write_out-Stage out image count total a bytes s l v =
      let (inside, small, a_small) = within total count a bytes l v in
      let (out', run, s') =
        write_chunk_raw-Stage out image count a bytes s v.behind a_small v.some_bytes v.fits in
      let flag = s.written.flag in (out', rw (run, flag) refl, s')

  -- The calls of the system succeed, the block size is a power of two below `2 ^ 31`, the image is
  -- a whole number of blocks, and their count fits 32 bits. A sparse file has been written up to
  -- some block of the image, and bytes, at least one, are for a block at or behind that, with their
  -- last block within the image, and with their count, the 12 bytes of a chunk header and one block
  -- below `2 ^ 31`. Then `write_data_block` returns, and the file is written up to the end of the
  -- last block of these bytes, with zeros for the gap before them and for the rest of that block;
  -- the pointer, the count of chunks and the checksum agree with what has been written.
  pub write_data_block-Stage :
      (out : OutputFile F) (image : List ℕ) (count total a : ℕ) (bytes : List ℕ)
      → Stage out image count
      → IsLength total
      → IsPlaced count total a bytes
      → (out' : OutputFile F) × (write_data_block ops force info out (a * size) bytes ≡ done out')
        × Stage out' (image ++ placed count a bytes) (a + blocks_for size bytes)
  unfolding write_data_block
  write_data_block-Stage out image count total a bytes s l v =
      let (inside, small, a_small) = within total count a bytes l v in
      let (out', run, s') = write_out-Stage out image count total a bytes s l v in
      let short = extended-short (length bytes) (omega (arith, v.fits)) in
      let fits : ltb info.len (u64 (a * size + length bytes)) ≡ false = not_past _ _ inside small in
      (out', rw (short, fits, run) refl, s')

  -- The same for a file, if it ends before the image does.
  pub write_data_file-Stage :
      (out : OutputFile F) (image : List ℕ) (count total a : ℕ) (bytes : List ℕ)
      → Stage out image count
      → IsLength total
      → IsPlaced count total a bytes
      → a * size + length bytes < info.len
      → (out' : OutputFile F) × (write_data_file ops force info out
            (a * size)
            (some bytes)
            (length bytes)
          ≡ done out')
        × Stage out' (image ++ placed count a bytes) (a + blocks_for size bytes)
  unfolding write_data_file
  write_data_file-Stage out image count total a bytes s l v before =
      let (inside, small, a_small) = within total count a bytes l v in
      let (out', run, s') = write_out-Stage out image count total a bytes s l v in
      let fits : leb info.len (u64 (a * size + length bytes)) ≡ false =
        before_end _ _ before small in
      let short = extended-short (length bytes) (omega (arith, v.fits)) in
      (out', rw (short, fits, run) refl, s')

  -- The rest of the image is zeros.
  pub pad_output_file-Stage :
      (out : OutputFile F) (image : List ℕ) (count total : ℕ)
      → Stage out image count
      → IsLength total
      → count ≤ total
      → (out' : OutputFile F) × (pad_output_file ops force info out info.len ≡ done out')
        × Stage out' (image ++ replicate ((total - count) * size) 0) total
  unfolding pad_output_file
  pad_output_file-Stage out image count total s l le =
      let w = s.written in
      let at_block = w.ptr ∙ expand_all-whole size s.items w.items_fit in
      let n = total - count in
      let most : total * size ≤ 2 ^ 32 * (2 ^ 31 - 1) =
        mul-le-mul {n₂ = 2 ^ 32} {m₂ = 2 ^ 31 - 1} (omega (arith, l.fits))
          (omega (arith, z.at_most)) in
      let behind : count * size + n * size ≡ total * size =
        sym (ap (λ (t : ℕ). t * size) {x = total} {y = count + n} (omega arith) ∙ omega arith) in
      let here : out.cur_out_ptr ≡ count * size = at_block ∙ ap (λ (t : ℕ). t * size) s.counts in
      let target : info.len ≡ out.cur_out_ptr + n * size = omega (arith, l.len, behind, here) in
      let (out', run, w', place) =
        fill_gap-Written r force info z out s.items n w (omega (arith, l.fits))
          (omega (arith, target, l.len, most)) in
      let filled = ap (fill_gap ops force info out) target ∙ run in
      let inside : ltb info.len info.len ≡ false = ground arith in
      let not_behind : ltb info.len out.cur_out_ptr ≡ false =
        not_below _ _ (omega (arith, target)) in
      let flag = w.flag in
      let end : count + n ≡ total = omega arith in
      (
        out',
        rw inside (rw (not_behind, filled, flag) refl),
        ap-Stage end (
            Stage-append (gap n) (replicate (n * size) 0) n s w' (expand_all-gap size n)
              (blocks-gap size n) (length-gap n)),
      )
