-- ===== src/Sparse/Expand/Chunks.antt =====
-- The loop over the chunks: each adds to the output what it stands for.
use android_tools.Common.{
  ℕ, zero, suc, ◌+◌, ◌-◌, ◌*◌, ◌/◌, ◌^◌, ◌≤◌, ◌<◌, ◌≡◌, refl, ap, sym, ◌∙◌, arith, false, not, List,
  [], ◌∷◌, ◌++◌, ◌==◌, ltb, length, replicate, Run, done, ◌>>=◌,
}
use mathlib.Core.List.{append_assoc, append-nil}
use native.Mathlib.Nat.{div-add-mod', mul-le-mul, div-mul-le_self}
use android_tools.Crc.{sparse_crc32}
use android_tools.Crc.Laws.{sparse_crc32-append}
use android_tools.Fs.{u32}
use android_tools.Sparse.{SparseHeader, chunk_header_len, chunk_header_bytes}
use android_tools.Sparse.Image.{Sees}
use android_tools.Sparse.Items.{
  Item, skip, raw, header, encode, expand, encode_all, expand_all, blocks, payload, IsItem,
  AreItems,
}
use android_tools.Sparse.Expand.{
  Stdio, Progress, process_raw_chunk, process_skip_chunk, process_chunk, chunks_loop, copy_raw,
  seek_over, crc_skipped, copy_buf_size,
}
use android_tools.Sparse.Expand.Copy.{IsReliableStdio, copy_raw-Copied, read-append}
use android_tools.Sparse.Expand.Headers.{IsChunk, chunk_header_of-bytes, length-chunk_header_bytes}
use android_tools.Sparse.Expand.Skip.{seek_over-Sought, crc_skipped_lem}

-- The header of the file, as far as the loop looks at it; the block size divides the longest seek.
pub record IsFormat (h : SparseHeader) : Type 0 where
  pub chunk_hdr_sz : h.chunk_hdr_sz ≡ chunk_header_len
  pub some_bytes : 0 < h.blk_sz
  pub fits : h.blk_sz < 2 ^ 32
  pub times : ℕ
  pub divides : 2 ^ 31 ≡ times * h.blk_sz

module _ {I O : Type 0} {std : Stdio I O} (r : IsReliableStdio std) where
  -- The image that has been put out so far, and what is left of the input.
  pub record Reads (p : Progress I O) (image more : List ℕ) (count : ℕ) : Type 0 where
    pub remains : r.rest p.input ≡ more
    pub sees : Sees (r.view p.output) image
    pub crc : p.crc32 ≡ sparse_crc32 0 image
    pub total : p.total_blocks ≡ count

  pub record Reached (result : Run (Progress I O)) (image more : List ℕ) (count : ℕ) : Type 0 where
    pub progress : Progress I O
    pub run : result ≡ done progress
    pub reads : Reads progress image more count

  process_raw_chunk-Reached :
      (p : Progress I O) (image bytes more : List ℕ) (count n size : ℕ)
      → n * size ≡ length bytes
      → count + n < 2 ^ 32
      → Reads p image (bytes ++ more) count
      → Reached (process_raw_chunk std p n size) (image ++ bytes) more (count + n)
  unfolding process_raw_chunk
  process_raw_chunk-Reached p image bytes more count n size len small reads =
      let copied =
        copy_raw-Copied r (2 + length bytes / copy_buf_size) p.input p.output p.crc32 bytes more
          image (omega (arith, div-add-mod' (length bytes) copy_buf_size)) reads.remains
          reads.sees in
      let total : u32 (p.total_blocks + n) ≡ count + n = omega (arith, reads.total) in
      let whole =
        ap (λ (t : ℕ). copy_raw std (2 + t / copy_buf_size) p.input p.output t p.crc32) len
        ∙ copied.run in
      record {
        progress = record {
          input = copied.input;
          output = copied.output;
          crc32 = sparse_crc32 p.crc32 bytes;
          total_blocks = count + n;
        };
        run = rw whole (rw total refl);
        reads = record {
          remains = copied.remains;
          sees = copied.sees;
          crc = ap (λ (t : ℕ). sparse_crc32 t bytes) reads.crc ∙ sparse_crc32-append 0 image bytes;
          total = refl;
        };
      }

  process_skip_chunk-Reached :
      (p : Progress I O) (image more : List ℕ) (count n size times : ℕ)
      → 0 < size
      → 2 ^ 31 ≡ times * size
      → count + n < 2 ^ 32
      → n * size < 2 ^ 64
      → Reads p image more count
      → Reached
          (process_skip_chunk std (replicate size 0) p n size)
          (image ++ replicate (n * size) 0)
          more
          (count + n)
  unfolding process_skip_chunk
  process_skip_chunk-Reached p image more count zero size times pos divides small fits reads =
      let none_left : 0 * size ≡ 0 = omega arith in
      let total : u32 (p.total_blocks + 0) ≡ count + 0 = omega (arith, reads.total) in
      let same = append-nil image in
      rw (none_left, total)
        (record {
          progress = record p { total_blocks = count + 0 };
          run = unfold seek_over crc_skipped in refl;
          reads = rw same (record {
            remains = reads.remains;
            sees = reads.sees;
            crc = reads.crc;
            total = refl;
          });
        })
  process_skip_chunk-Reached p image more count (suc n) size times pos divides small fits reads =
      let sought =
        seek_over-Sought r size (2 ^ 31) times pos refl divides (2 + suc n * size / 2 ^ 31) (suc n)
          0 p.output image (omega (arith, div-add-mod' (suc n * size) (2 ^ 31))) (omega arith)
          reads.sees in
      let bound : suc n * 1 ≤ suc n * size = mul-le-mul (omega arith) (omega arith) in
      let crc =
        crc_skipped_lem size pos (1 + suc n * size) (suc n) sought.step p.crc32
          (omega (arith, bound)) sought.enough fits in
      let total : u32 (p.total_blocks + suc n) ≡ count + suc n = omega (arith, reads.total) in
      let run = sought.run in
      record {
        progress = record p {
          output = sought.output;
          crc32 = sparse_crc32 p.crc32 (replicate (suc n * size) 0);
          total_blocks = count + suc n;
        };
        run = rw run (rw crc (rw total refl));
        reads = record {
          remains = reads.remains;
          sees = sought.sees;
          crc =
              ap (λ (t : ℕ). sparse_crc32 t (replicate (suc n * size) 0)) reads.crc
              ∙ sparse_crc32-append 0 image (replicate (suc n * size) 0);
          total = refl;
        };
      }

  process_chunk-Reached :
      (h : SparseHeader) (i : Item) (p : Progress I O) (image more : List ℕ) (count : ℕ)
      → IsFormat h
      → IsItem h.blk_sz i
      → count + (header h.blk_sz i).chunk_sz < 2 ^ 32
      → Reads p image (payload h.blk_sz i ++ more) count
      → Reached
          (process_chunk std (replicate h.blk_sz 0) h (header h.blk_sz i) p)
          (image ++ expand h.blk_sz i)
          more
          (count + (header h.blk_sz i).chunk_sz)
  unfolding process_chunk
  process_chunk-Reached h (skip n) p image more count f v small reads =
      let sizes : not (chunk_header_len == h.chunk_hdr_sz) ≡ false =
        ground (arith, f.chunk_hdr_sz) in
      let room : n * h.blk_sz ≤ (2 ^ 32 - 1) * (2 ^ 32 - 1) =
        mul-le-mul {n₂ = 2 ^ 32 - 1} {m₂ = 2 ^ 32 - 1} (omega arith) (omega (arith, f.fits)) in
      let next =
        process_skip_chunk-Reached p image more count n h.blk_sz f.times f.some_bytes f.divides
          small (omega (arith, room)) reads in
      record { progress = next.progress; run = rw sizes next.run; reads = next.reads }
  process_chunk-Reached h (raw bytes) p image more count f v small reads =
      let whole : length bytes / h.blk_sz * h.blk_sz ≡ length bytes =
        omega (arith, div-add-mod' (length bytes) h.blk_sz, v) in
      let sizes : not (
            chunk_header_len + length bytes
            == u32 (h.chunk_hdr_sz + u32 (length bytes / h.blk_sz * h.blk_sz)))
          ≡ false =
        rw whole (ground (arith, f.chunk_hdr_sz, v)) in
      let next =
        process_raw_chunk-Reached p image bytes more count (length bytes / h.blk_sz) h.blk_sz whole
          small reads in
      record { progress = next.progress; run = rw sizes next.run; reads = next.reads }

  IsItem-header : (size : ℕ) (i : Item) → 0 < size → IsItem size i → IsChunk (header size i)
  IsItem-header size (skip n) pos v = (omega arith, v, omega arith)
  IsItem-header size (raw bytes) pos v =
      let fewer = div-mul-le_self (length bytes) size in
      let bound : length bytes / size * 1 ≤ length bytes / size * size =
        mul-le-mul (omega arith) (omega arith) in
      (omega arith, omega (arith, v, fewer, bound), v.1)

  pub chunks_loop-Reached :
      (h : SparseHeader) (items : List Item) (p : Progress I O) (image more : List ℕ) (count : ℕ)
      → IsFormat h
      → AreItems h.blk_sz items
      → count + blocks h.blk_sz items < 2 ^ 32
      → Reads p image (encode_all h.blk_sz items ++ more) count
      → Reached
          (chunks_loop std (replicate h.blk_sz 0) h (length items) p)
          (image ++ expand_all h.blk_sz items)
          more
          (count + blocks h.blk_sz items)
  unfolding chunks_loop
  chunks_loop-Reached h [] p image more count f v small reads =
      let same = append-nil image in
      let sum : count + 0 ≡ count = omega arith in
      rw (same, sum) (record { progress = p; run = refl; reads = reads })
  chunks_loop-Reached h (i ∷ items) p image more count f (v, vs) small reads =
      let size = h.blk_sz in
      let head = chunk_header_bytes (header size i) in
      let after = payload size i ++ (encode_all size items ++ more) in
      let parts : encode_all size (i ∷ items) ++ more ≡ head ++ after =
        append_assoc (encode size i) (encode_all size items) more
        ∙ append_assoc head (payload size i) (encode_all size items ++ more) in
      let (read, remains) = read-append r p.input head after (reads.remains ∙ parts) in
      let len = length-chunk_header_bytes (header size i) in
      let read_head = ap (std.read p.input) (sym len) ∙ read in
      let known : ltb chunk_header_len h.chunk_hdr_sz ≡ false = ground (arith, f.chunk_hdr_sz) in
      let decoded = chunk_header_of-bytes (header size i) (IsItem-header size i f.some_bytes v) in
      let started = record p { input = r.advanced p.input (length head) } in
      let here : Reads started image after count = record {
        remains = remains;
        sees = reads.sees;
        crc = reads.crc;
        total = reads.total;
      } in
      let next =
        process_chunk-Reached h i started image (encode_all size items ++ more) count f v
          (omega arith) here in
      let step = next.run in
      let rest =
        chunks_loop-Reached h items next.progress (image ++ expand size i) more
          (count + (header size i).chunk_sz) f vs (omega arith) next.reads in
      let all : (image ++ expand size i) ++ expand_all size items
          ≡ image ++ expand_all size (i ∷ items) =
        append_assoc image (expand size i) (expand_all size items) in
      let sum : count + (header size i).chunk_sz + blocks size items
          ≡ count + blocks size (i ∷ items) =
        omega arith in
      record {
        progress = rest.progress;
        run =
            rw (read_head, chunks_loop)
              (rw known (
                ap
                  (λ c. process_chunk std (replicate size 0) h c started >>= λ p.
                    chunks_loop std (replicate size 0) h (length items) p)
                  decoded
                ∙ rw (step, ◌>>=◌) rest.run));
        reads = rw (all, sum) at rest.reads;
      }
