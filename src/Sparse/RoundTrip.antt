-- ===== src/Sparse/RoundTrip.antt =====
-- `simg2img` on a sparse file as the functions of output_file.c leave it.
use android_tools.Common.{
  ℕ, ◌+◌, ◌-◌, ◌*◌, ◌/◌, ◌^◌, ◌<◌, ◌≡◌, refl, ap, sym, ◌∙◌, arith, false, not, List, [], ◌++◌, ◌==◌,
  length, replicate, done, ◌>>=◌,
}
use mathlib.Core.List.{append-nil}
use native.Mathlib.Decide.{dec_lt}
use native.Mathlib.Nat.{mul-div_left}
use android_tools.Common.Bits.{two_pow-add}
use android_tools.Crc.{sparse_crc32}
use android_tools.Crc.Bounds.{sparse_crc32-lt}
use android_tools.Fs.{FsInfo, u32}
use android_tools.Sparse.{SparseHeader, sparse_header_bytes}
use android_tools.Sparse.Image.{Image, truncate-Sees, truncate}
use android_tools.Sparse.Items.{Item, blocks, encode_all, expand_all, expand_all-whole, AreItems}
use android_tools.Sparse.Output.{header_of}
use android_tools.Sparse.Output.Written.{IsSize}
use android_tools.Sparse.Output.Reliable.{sparse_crc32-nil}
use android_tools.Sparse.Expand.{Stdio, Progress, simg2img, chunks_loop, finish, expand_from}
use android_tools.Sparse.Expand.Copy.{IsReliableStdio, read-append}
use android_tools.Sparse.Expand.Headers.{
  IsHeader, sparse_header_of-bytes, length-sparse_header_bytes,
}
use android_tools.Sparse.Expand.Chunks.{IsFormat, Reads, chunks_loop-Reached}

abbrev pub header_for : FsInfo → List Item → SparseHeader
header_for info items =
    header_of info (length items) (sparse_crc32 0 (expand_all info.block_size items))

-- The sparse file of some chunks.
abbrev pub sparse_file : FsInfo → List Item → List ℕ
sparse_file info items =
    sparse_header_bytes (header_for info items) ++ encode_all info.block_size items

-- The chunks are whole blocks that make up the image, and all counts fit 32 bits.
pub record Fills (info : FsInfo) (items : List Item) : Type 0 where
  pub items_fit : AreItems info.block_size items
  pub all : blocks info.block_size items * info.block_size ≡ info.len
  pub blocks_fit : blocks info.block_size items < 2 ^ 32
  pub count_fits : length items < 2 ^ 32

IsSize-IsFormat :
    (info : FsInfo) (chunks checksum : ℕ)
    → IsSize info.block_size
    → IsFormat (header_of info chunks checksum)
IsSize-IsFormat info chunks checksum z = record {
  chunk_hdr_sz = refl;
  some_bytes = z.some_bytes;
  fits = omega (arith, z.at_most);
  times = 2 ^ (z.high - 1);
  divides =
      let some_high : 0 < z.high = elim (dec_lt 0 z.high) [
        | yes lt ↦ lt
        | no le ↦ absurd (
            omega (
              arith,
              z.power,
              z.at_most,
              ap (λ (t : ℕ). 2 ^ t) {x = z.low} {y = 32} (omega (arith, z.split)),
            ))
      ] in
      ap (λ (t : ℕ). 2 ^ t) {x = 31} {y = z.high - 1 + z.low} (omega (arith, z.split))
      ∙ two_pow-add (z.high - 1) z.low
      ∙ ap (λ (t : ℕ). 2 ^ (z.high - 1) * t) (sym z.power);
}

total_blocks_lem :
    (info : FsInfo) (items : List Item)
    → IsSize info.block_size
    → Fills info items
    → u32 (info.len / info.block_size) ≡ blocks info.block_size items
total_blocks_lem info items z v =
    ap (λ (t : ℕ). u32 (t / info.block_size)) (sym v.all)
    ∙ ap u32 (mul-div_left (blocks info.block_size items) z.some_bytes)
    ∙ omega (arith, v.blocks_fit)

header_for-IsHeader :
    (info : FsInfo) (items : List Item)
    → IsSize info.block_size
    → Fills info items
    → IsHeader (header_for info items)
header_for-IsHeader info items z v = record {
  magic = omega arith;
  major_version = omega arith;
  minor_version = omega arith;
  file_hdr_sz = omega arith;
  chunk_hdr_sz = omega arith;
  blk_sz = omega (arith, z.at_most);
  total_blks = omega arith;
  total_chunks = v.count_fits;
  image_checksum = sparse_crc32-lt 0 (expand_all info.block_size items) (omega arith);
}

module _ {I O : Type 0} {std : Stdio I O} (r : IsReliableStdio std) where
  finish-ok :
      (h : SparseHeader) (p : Progress I O) (n : ℕ)
      → p.total_blocks ≡ n
      → h.total_blks ≡ n
      → p.crc32 ≡ h.image_checksum
      → finish std h p ≡ done (r.cut p.output (n * h.blk_sz))
  finish-ok h p n total expected checksum =
      let cut = r.truncate_all p.output (n * h.blk_sz) in
      let blocks_agree : not (h.total_blks == p.total_blocks) ≡ false = ground arith in
      let sums_agree : not (h.image_checksum == p.crc32) ≡ false = ground arith in
      rw (total, finish, cut) (rw (blocks_agree, sums_agree) refl)

  -- On the sparse file of any chunks of whole blocks that are as long as the image, with a block
  -- size that is a power of two, counts of 32 bits, calls that succeed and memory from `malloc`
  -- that is zero, `simg2img` ends with 0 and leaves just the bytes that the chunks stand for.
  pub simg2img-sparse_file :
      (info : FsInfo) (items : List Item) (fresh : ℕ → List ℕ) (i : I) (o : O)
      → IsSize info.block_size
      → Fills info items
      → fresh info.block_size ≡ replicate info.block_size 0
      → r.rest i ≡ sparse_file info items
      → r.view o ≡ record { contents = []; pos = 0 }
      → (o' : O) × (simg2img std fresh i o ≡ done o')
        × ((r.view o').contents ≡ expand_all info.block_size items)
  unfolding simg2img
  simg2img-sparse_file info items fresh i o z v clear file empty =
      let size = info.block_size in
      let h = header_for info items in
      let head = sparse_header_bytes h in
      let (read, remains) = read-append r i head (encode_all size items) file in
      let read_head = ap (std.read i) (sym (length-sparse_header_bytes h)) ∙ read in
      let decoded = sparse_header_of-bytes h (header_for-IsHeader info items z v) in
      let i' = r.advanced i (length head) in
      let begun : Progress I O = record { input = i'; output = o; crc32 = 0; total_blocks = 0 } in
      let start : Reads r begun [] (encode_all size items ++ []) 0 = record {
        remains = remains ∙ sym (append-nil (encode_all size items));
        sees = rw empty (record { here = refl; begun = omega arith; filled = refl });
        crc = sym (sparse_crc32-nil 0);
        total = refl;
      } in
      let loop =
        chunks_loop-Reached r h items begun [] [] 0
          (IsSize-IsFormat info (length items) h.image_checksum z) v.items_fit
          (omega (arith, v.blocks_fit)) start in
      let run = loop.run in
      let n = blocks size items in
      let total : loop.progress.total_blocks ≡ n = omega (arith, loop.reads.total) in
      let end =
        finish-ok h loop.progress n total (total_blocks_lem info items z v) loop.reads.crc in
      let whole : length (expand_all size items) ≡ n * size =
        expand_all-whole size items v.items_fit in
      (
        r.cut loop.progress.output (n * size),
        rw (read_head, simg2img)
            (ap (expand_from std fresh i' o) decoded
              ∙ ap (λ zeros. chunks_loop std zeros h (length items) begun >>= λ p. finish std h p)
                  clear
              ∙ ap (λ m. m >>= λ p. finish std h p) run
              ∙ end),
        ap (λ (im : Image). im.contents) (r.view-cut loop.progress.output (n * size))
            ∙ ap (λ (t : ℕ). (truncate (r.view loop.progress.output) t).contents) (sym whole)
            ∙ truncate-Sees (r.view loop.progress.output) loop.reads.sees,
      )
