-- ===== src/Sparse/Output/Blocks.antt =====
-- Blocks of data that are written one after another to a sparse file, with gaps between them.
use android_tools.Common.{
  ℕ, zero, suc, ◌+◌, ◌-◌, ◌*◌, ◌%◌, ◌^◌, ◌≤◌, ◌<◌, ◌≡◌, refl, ap, ◌∙◌, arith, Bool, true, false,
  List, [], ◌∷◌, ◌++◌, ◌==◌, ltb, length, done, not,
}
use mathlib.Core.List.{append-nil}
use native.Mathlib.Nat.{mul-mod_left, mul-le-mul}
use android_tools.Fs.{FsInfo}
use android_tools.Group.{ok}
use android_tools.Sparse.{chunk_header_len}
use android_tools.Sparse.Items.{Item, skip, raw, blocks, expand_all-whole}
use android_tools.Sparse.Output.{Ops, OutputFile, fill_gap, write_chunk_raw}
use android_tools.Sparse.Output.Reliable.{IsReliable}
use android_tools.Sparse.Output.Written.{IsSize, Written, rounded, emit_skip_chunk-Written}
use android_tools.Sparse.Output.RawChunk.{padded, raw_chunk-Written}

-- The chunk for a gap of `n` blocks, if there is one.
abbrev pub gap : ℕ → List Item
gap zero = []
gap (suc n) = skip (suc n) ∷ []

module _ {F : Type 0} {ops : Ops F} (r : IsReliable ops) (force : Bool) (info : FsInfo)
    (z : IsSize info.block_size) where
  abbrev size : ℕ
  size = info.block_size

  pub fill_gap-Written :
      (out : OutputFile F) (items : List Item) (n : ℕ)
      → Written r size out items
      → n < 2 ^ 32
      → out.cur_out_ptr + n * size < 2 ^ 64
      → (out' : OutputFile F) × (fill_gap ops force info out (out.cur_out_ptr + n * size)
          ≡ done out')
        × Written r size out' (items ++ gap n)
        × (out'.cur_out_ptr ≡ out.cur_out_ptr + n * size)
  fill_gap-Written out items zero w small fits =
      let there : ltb out.cur_out_ptr (out.cur_out_ptr + 0 * size) ≡ false = ground arith in
      let same = append-nil items in (out, rw there refl, rw same w, omega arith)
  fill_gap-Written out items (suc n) w small fits =
      let short : ltb out.cur_out_ptr (out.cur_out_ptr + suc n * size) ≡ true =
        ground (arith, z.some_bytes) in
      let len : out.cur_out_ptr + suc n * size - out.cur_out_ptr ≡ suc n * size = omega arith in
      let (out', run, w', place) =
        emit_skip_chunk-Written r force info z out items (suc n) w small fits in
      (out', rw (short, len, run) refl, w', place)

  -- A chunk at block `a`, at or behind the blocks that the file has.
  pub write_chunk_raw-Written :
      (out : OutputFile F) (items : List Item) (a : ℕ) (bytes : List ℕ)
      → Written r size out items
      → blocks size items ≤ a
      → a < 2 ^ 32
      → chunk_header_len + length bytes + size < 2 ^ 31
      → (out' : OutputFile F) × (write_chunk_raw ops force info out (a * size) bytes
          ≡ done (ok, out'))
        × Written r size out'
            ((items ++ gap (a - blocks size items)) ++ (raw (padded size bytes) ∷ []))
        × (out'.cur_out_ptr ≡ a * size + rounded size (length bytes))
  unfolding write_chunk_raw
  write_chunk_raw-Written out items a bytes w behind small fits =
      let at_block = w.ptr ∙ expand_all-whole size items w.items_fit in
      let n = a - blocks size items in
      let room : a * size ≤ 2 ^ 32 * size = mul-le-mul (omega arith) (omega arith) in
      let target : a * size ≡ out.cur_out_ptr + n * size =
        ap (λ (t : ℕ). t * size) {x = a} {y = blocks size items + n} (omega arith)
        ∙ omega (arith, at_block) in
      let (mid, filled, w', place) =
        fill_gap-Written out items n w (omega arith) (omega (arith, target, room, z.at_most)) in
      let (out', run, w'', place') =
        raw_chunk-Written r force info z mid (items ++ gap n) bytes w' fits
          (omega (arith, target, room, z.at_most, place)) in
      let before : ltb (a * size) out.cur_out_ptr ≡ false = ground (arith, target) in
      let gap_filled : fill_gap ops force info out (a * size) ≡ done mid =
        ap (fill_gap ops force info out) target ∙ filled in
      let some_size : (size == 0) ≡ false = ground (arith, z.some_bytes) in
      let aligned : not (a * size % size == 0) ≡ false = rw (mul-mod_left a size) refl in
      let here : not (a * size == mid.cur_out_ptr) ≡ false = ground (arith, target, place) in
      (
        out',
        rw (before, gap_filled, some_size, aligned, here) run,
        w'',
        omega (arith, target, place, place'),
      )
