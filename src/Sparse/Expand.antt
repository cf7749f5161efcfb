-- ===== src/Sparse/Expand.antt =====
-- The expansion of a sparse image, img-db/ext4_utils/simg2img.c: `main` from the header on, with
-- both files open and all memory given out. `exit(-1)` is `exited`, and `exit(0)` is `done`.
pub mod Headers
pub mod Copy
pub mod Skip
pub mod Chunks
use android_tools.Common.{
  ℕ, zero, suc, ◌+◌, ◌-◌, ◌*◌, ◌/◌, ◌%◌, ◌^◌, Bool, true, false, not, List, [], ◌∷◌, Option, none,
  some, ◌==◌, ltb, if◌then◌else◌, take, drop, Run, done, exited, out_of_fuel, ◌>>=◌,
}
use android_tools.Crc.{sparse_crc32}
use android_tools.Fs.{u32, u64}
use android_tools.Sparse.{
  SparseHeader, ChunkHeader, from_le, sparse_header_magic, chunk_type_raw, chunk_type_dont_care,
  sparse_header_len, chunk_header_len,
}

-- The calls of stdio for the input, an `I`, and the output, an `O`: `fread` of one object of so
-- many bytes, `fseek` with SEEK_CUR, `fwrite`, and `ftruncate`; `none` is failure.
pub record Stdio (I O : Type 0) : Type 0 where
  pub read : I → ℕ → Option (List ℕ × I)
  pub skip_in : I → ℕ → I
  pub write : O → List ℕ → Option O
  pub skip_out : O → ℕ → O
  pub truncate : O → ℕ → Option O

-- the `n` bytes at `off`, as a number
abbrev pub field : ℕ → ℕ → List ℕ → ℕ
field off n bytes = from_le (take n (drop off bytes))

-- the headers, from their bytes
unfoldable pub sparse_header_of : List ℕ → SparseHeader
unfolding from_le
sparse_header_of bytes = record {
  magic = field 0 4 bytes;
  major_version = field 4 2 bytes;
  minor_version = field 6 2 bytes;
  file_hdr_sz = field 8 2 bytes;
  chunk_hdr_sz = field 10 2 bytes;
  blk_sz = field 12 4 bytes;
  total_blks = field 16 4 bytes;
  total_chunks = field 20 4 bytes;
  image_checksum = field 24 4 bytes;
}

unfoldable pub chunk_header_of : List ℕ → ChunkHeader
unfolding from_le
chunk_header_of bytes = record {
  chunk_type = field 0 2 bytes;
  chunk_sz = field 4 4 bytes;
  total_sz = field 8 4 bytes;
}

-- COPY_BUF_SIZE
abbrev pub copy_buf_size : ℕ
copy_buf_size = 1024 * 1024

-- SPARSE_HEADER_MAJOR_VER
abbrev pub sparse_header_major_ver : ℕ
sparse_header_major_ver = 1

-- The files and the variables of `main` in its loop.
pub record Progress (I O : Type 0) : Type 0 where
  pub input : I
  pub output : O
  pub crc32 : ℕ
  pub total_blocks : ℕ

-- The second loop of `process_skip_chunk`; `zerobuf` is memory that nothing has been written to.
unfoldable pub crc_skipped : List ℕ → ℕ → ℕ → ℕ → ℕ → ℕ → Run ℕ
crc_skipped zerobuf blk_sz zero len skip_chunk crc = out_of_fuel
crc_skipped zerobuf blk_sz (suc fuel) len skip_chunk crc = elim (len == 0) [
  | true ↦ done crc
  | false ↦
      let chunk = if ltb blk_sz skip_chunk then blk_sz else skip_chunk in
      crc_skipped zerobuf blk_sz fuel (u64 (len + 2 ^ 64 - chunk)) chunk
        (sparse_crc32 crc (take chunk zerobuf))
]

module _ {I O : Type 0} (std : Stdio I O) where
  -- The loop of `process_raw_chunk`; a round takes a buffer.
  unfoldable pub copy_raw : ℕ → I → O → ℕ → ℕ → Run (I × O × ℕ)
  copy_raw zero in_file out len crc = out_of_fuel
  copy_raw (suc fuel) in_file out len crc = elim (len == 0) [
    | true ↦ done (in_file, out, crc)
    | false ↦
        let chunk = if ltb copy_buf_size len then copy_buf_size else len in
        elim (std.read in_file chunk) [
          | none ↦ exited
          | some r ↦ elim (std.write out r.0) [
            | none ↦ exited
            | some out' ↦ copy_raw fuel r.1 out' (len - chunk) (sparse_crc32 crc r.0)
          ]
        ]
  ]

  unfoldable pub process_raw_chunk : Progress I O → ℕ → ℕ → Run (Progress I O)
  unfolding copy_raw
  process_raw_chunk p blocks blk_sz =
      let len = blocks * blk_sz in
      copy_raw (2 + len / copy_buf_size) p.input p.output len p.crc32 >>= λ r. done (record {
        input = r.0;
        output = r.1;
        crc32 = r.2;
        total_blocks = u32 (p.total_blocks + blocks);
      })

  -- The first loop of `process_skip_chunk`, with its last `skip_chunk`.
  unfoldable pub seek_over : ℕ → O → ℕ → ℕ → Run (O × ℕ)
  seek_over zero out len skip_chunk = out_of_fuel
  seek_over (suc fuel) out len skip_chunk = elim (len == 0) [
    | true ↦ done (out, skip_chunk)
    | false ↦
        let chunk = if ltb (2 ^ 31) len then 2 ^ 31 else len in
        seek_over fuel (std.skip_out out chunk) (len - chunk) chunk
  ]

  -- `skip_chunk` is not set before its first loop, and not used if that makes no round.
  unfoldable pub process_skip_chunk : List ℕ → Progress I O → ℕ → ℕ → Run (Progress I O)
  unfolding seek_over crc_skipped
  process_skip_chunk zerobuf p blocks blk_sz =
      let len = blocks * blk_sz in
      seek_over (2 + len / 2 ^ 31) p.output len 0 >>= λ s.
      crc_skipped zerobuf blk_sz (1 + len) len s.1 p.crc32 >>= λ crc.
      done (record p { output = s.0; crc32 = crc; total_blocks = u32 (p.total_blocks + blocks) })

  -- the `switch` on the type of a chunk
  unfoldable pub process_chunk :
      List ℕ → SparseHeader → ChunkHeader → Progress I O → Run (Progress I O)
  unfolding process_raw_chunk process_skip_chunk
  process_chunk zerobuf sparse_header chunk_header p =
      let chunk_sz = chunk_header.chunk_sz in
      let blk_sz = sparse_header.blk_sz in
      if chunk_header.chunk_type == chunk_type_raw
      then if not
          (chunk_header.total_sz == u32 (sparse_header.chunk_hdr_sz + u32 (chunk_sz * blk_sz)))
        then exited
        else process_raw_chunk p chunk_sz blk_sz
      else if chunk_header.chunk_type == chunk_type_dont_care
      then if not (chunk_header.total_sz == sparse_header.chunk_hdr_sz)
        then exited
        else process_skip_chunk zerobuf p chunk_sz blk_sz
      else exited

  -- the bytes of a header that are more than this program knows
  abbrev pub skip_longer : I → ℕ → ℕ → I
  skip_longer in_file size known =
      if ltb known size then std.skip_in in_file (size - known) else in_file

  -- The loop of `main` over the chunks that are left.
  unfoldable pub chunks_loop : List ℕ → SparseHeader → ℕ → Progress I O → Run (Progress I O)
  unfolding chunk_header_of process_chunk
  chunks_loop zerobuf sparse_header zero p = done p
  chunks_loop zerobuf sparse_header (suc n) p = elim (std.read p.input chunk_header_len) [
    | none ↦ exited
    | some r ↦
        process_chunk zerobuf sparse_header (chunk_header_of r.0)
          (record p { input = skip_longer r.1 sparse_header.chunk_hdr_sz chunk_header_len })
        >>= λ p. chunks_loop zerobuf sparse_header n p
  ]

  -- the end of `main`, after the loop
  abbrev pub finish : SparseHeader → Progress I O → Run O
  finish sparse_header p = elim (std.truncate p.output (p.total_blocks * sparse_header.blk_sz)) [
    | none ↦ exited
    | some out ↦
        if not (sparse_header.total_blks == p.total_blocks)
        then exited
        else if not (sparse_header.image_checksum == p.crc32)
        then exited
        else done out
  ]

  -- `main` after it has read the header; `fresh n` is what `malloc(n)` finds in its memory.
  abbrev pub expand_from : (ℕ → List ℕ) → I → O → SparseHeader → Run O
  expand_from fresh in_file out h =
      if not (h.magic == sparse_header_magic)
      then exited
      else if not (h.major_version == sparse_header_major_ver)
      then exited
      else let start : Progress I O = record {
        input = skip_longer in_file h.file_hdr_sz sparse_header_len;
        output = out;
        crc32 = 0;
        total_blocks = 0;
      } in
        chunks_loop (fresh h.blk_sz) h h.total_chunks start >>= λ p. finish h p

  unfoldable pub simg2img : (ℕ → List ℕ) → I → O → Run O
  unfolding sparse_header_of chunks_loop
  simg2img fresh in_file out = elim (std.read in_file sparse_header_len) [
    | none ↦ exited
    | some r ↦ expand_from fresh r.1 out (sparse_header_of r.0)
  ]
