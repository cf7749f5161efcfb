-- ===== src/Sparse/Output.antt =====
-- The output file of img-db/ext4_utils/output_file.c. The operating system and zlib stand behind
-- the two operations of `Ops`. A length is an `int` there: here it is the number with the same 32
-- bits, so that one from `2 ^ 31` on stands for a negative number.
pub mod Reliable
pub mod Written
pub mod RawChunk
pub mod Blocks
pub mod Stage
pub mod Session
pub mod Plain
pub mod Errors
use android_tools.Common.{
  ℕ, zero, suc, ◌+◌, ◌-◌, ◌*◌, ◌/◌, ◌%◌, ◌^◌, Bool, true, false, List, [], ◌∷◌, ◌++◌, Option, none,
  some, not, ◌&&◌, ◌==◌, ltb, leb, if◌then◌else◌, bit_and, length, take, replicate, Run, done,
  fault, out_of_fuel, ◌>>=◌, ◌>>◌, error,
}
use android_tools.Crc.{sparse_crc32}
use android_tools.Fs.{FsInfo, u32, u64}
use android_tools.Group.{Status, ok, failed}
use android_tools.Sparse.{
  SparseHeader, ChunkHeader, sparse_header_magic, chunk_type_raw, chunk_type_dont_care,
  sparse_header_len, chunk_header_len, sparse_header_bytes, chunk_header_bytes,
}

-- `lseek64` with SEEK_SET and `write`, or `gzseek` and `gzwrite`: what they return, `none` being a
-- negative number, and the file after.
pub record Ops (F : Type 0) : Type 0 where
  pub seek : F → ℕ → Option ℕ × F
  pub write : F → List ℕ → Option ℕ × F

-- `struct output_file`; `fd` stands for the one of the two descriptors that is in use.
pub record OutputFile (F : Type 0) : Type 0 where
  pub fd : F
  pub sparse : Bool
  pub cur_out_ptr : ℕ
  pub chunk_cnt : ℕ
  pub crc32 : ℕ

-- an `int` where it is converted to 64 bits, as in `off + len` and for `size_t`
abbrev pub extended : ℕ → ℕ
extended len = if ltb len (2 ^ 31) then len else u64 (len + 2 ^ 64 - 2 ^ 32)

-- the static `sparse_header`, once `open_output_file` and `close_output_file` have filled it in
abbrev pub header_of : FsInfo → ℕ → ℕ → SparseHeader
header_of info chunks checksum = record {
  magic = sparse_header_magic;
  major_version = 1;
  minor_version = 0;
  file_hdr_sz = sparse_header_len;
  chunk_hdr_sz = chunk_header_len;
  blk_sz = info.block_size;
  total_blks = u32 (info.len / info.block_size);
  total_chunks = chunks;
  image_checksum = checksum;
}

-- `zero_buf`
abbrev pub zero_buf : FsInfo → List ℕ
zero_buf info = replicate info.block_size 0

module _ {F : Type 0} (ops : Ops F) (force : Bool) (info : FsInfo) where
  -- what a function returns, and the file that it leaves
  abbrev pub Outcome : Type 0
  Outcome = Run (Status × OutputFile F)

  -- what follows a call, unless that returned -1
  abbrev pub on_ok : Outcome → (OutputFile F → Outcome) → Outcome
  on_ok r k = r >>= λ s. elim s.0 [ ok ↦ k s.1 | failed ↦ done (failed, s.1) ]

  -- `error(…); return -1;`
  abbrev pub reject : OutputFile F → Outcome
  reject out = error force >> done (failed, out)

  -- `file_seek` and `gz_file_seek`, and what they make of the result of the call
  abbrev pub after_seek : OutputFile F → Option ℕ × F → Outcome
  after_seek out (none, f) = reject (record out { fd = f })
  after_seek out (some ret, f) = done (ok, record out { fd = f })

  unfoldable pub file_seek : OutputFile F → ℕ → Outcome
  file_seek out off = after_seek out (ops.seek out.fd off)

  -- `file_write` and `gz_file_write`, likewise
  abbrev pub after_write : OutputFile F → ℕ → Option ℕ × F → Outcome
  after_write out len (none, f) = reject (record out { fd = f })
  after_write out len (some ret, f) =
      if ltb ret len then reject (record out { fd = f }) else done (ok, record out { fd = f })

  unfoldable pub file_write : OutputFile F → List ℕ → Outcome
  file_write out bytes = after_write out (length bytes) (ops.write out.fd bytes)

  -- `out->ops->write(out, data, len)`: where `len` is negative, the system is asked for more bytes
  -- than there are.
  abbrev pub write_len : OutputFile F → List ℕ → Outcome
  write_len out bytes = if ltb (length bytes) (2 ^ 31) then file_write out bytes else fault

  -- The loop over the zeros of `emit_skip_chunk`.
  unfoldable pub crc_zeros : ℕ → ℕ → ℕ → Run ℕ
  crc_zeros zero skip_len crc = out_of_fuel
  crc_zeros (suc fuel) skip_len crc = elim (skip_len == 0) [
    | true ↦ done crc
    | false ↦
        let chunk = if ltb info.block_size skip_len then info.block_size else skip_len in
        crc_zeros fuel (skip_len - chunk) (sparse_crc32 crc (take chunk (zero_buf info)))
  ]

  -- the rest of `emit_skip_chunk` after its header was written; the loop takes a block a round
  abbrev pub skip_end : ℕ → OutputFile F → Outcome
  skip_end skip_len out = crc_zeros (2 + skip_len / info.block_size) skip_len out.crc32 >>= λ crc.
      done (
        ok,
        record out {
          cur_out_ptr = u64 (out.cur_out_ptr + skip_len);
          chunk_cnt = out.chunk_cnt + 1;
          crc32 = crc;
        },
      )

  unfoldable pub emit_skip_chunk : OutputFile F → ℕ → Outcome
  unfolding file_write crc_zeros
  emit_skip_chunk out skip_len =
      if info.block_size == 0
      then fault
      else if not (skip_len % info.block_size == 0)
      then reject out
      else let chunk_header : ChunkHeader = record {
        chunk_type = chunk_type_dont_care;
        chunk_sz = u32 (skip_len / info.block_size);
        total_sz = chunk_header_len;
      } in
        on_ok (file_write out (chunk_header_bytes chunk_header)) (skip_end skip_len)

  -- the gap before a chunk; the status of `emit_skip_chunk` is not looked at
  abbrev pub fill_gap : OutputFile F → ℕ → Run (OutputFile F)
  fill_gap out off =
      if ltb out.cur_out_ptr off
      then (emit_skip_chunk out (off - out.cur_out_ptr) >>= λ r. done r.1)
      else done out

  -- `(len + (info.block_size - 1)) & (~(info.block_size - 1))`
  unfoldable pub round_up : ℕ → ℕ
  round_up len =
      let mask = u32 (info.block_size + 2 ^ 32 - 1) in
      bit_and (u32 (len + mask)) (2 ^ 32 - 1 - mask)

  -- The rest of `write_chunk_raw` after its checks. `rnd_up_len - len` overflows where the rounded
  -- length is negative and `len` is not.
  unfoldable pub raw_chunk : OutputFile F → List ℕ → Outcome
  unfolding file_write round_up
  raw_chunk out bytes =
      let rnd_up_len = round_up (length bytes) in
      let zero_len = u32 (rnd_up_len + 2 ^ 32 - length bytes) in
      let zeros = take zero_len (zero_buf info) in
      let chunk_header : ChunkHeader = record {
        chunk_type = chunk_type_raw;
        chunk_sz = rnd_up_len / info.block_size;
        total_sz = u32 (chunk_header_len + rnd_up_len);
      } in
      if ltb info.block_size zero_len
      then fault
      else if ltb (length bytes) (2 ^ 31) && leb (2 ^ 31) rnd_up_len
      then fault
      else on_ok (file_write out (chunk_header_bytes chunk_header)) λ out.
        on_ok (write_len out bytes) λ out.
          on_ok (if zero_len == 0 then done (ok, out) else file_write out zeros) λ out.
            let crc = sparse_crc32 out.crc32 bytes in
            done (
              ok,
              record out {
                cur_out_ptr = u64 (out.cur_out_ptr + rnd_up_len);
                chunk_cnt = out.chunk_cnt + 1;
                crc32 = if zero_len == 0 then crc else sparse_crc32 crc zeros;
              },
            )

  unfoldable pub write_chunk_raw : OutputFile F → ℕ → List ℕ → Outcome
  unfolding emit_skip_chunk raw_chunk
  write_chunk_raw out off bytes =
      if ltb off out.cur_out_ptr
      then reject out
      else (fill_gap out off >>= λ out.
          if info.block_size == 0
          then fault
          else if not (off % info.block_size == 0)
          then reject out
          else if not (off == out.cur_out_ptr)
          then reject out
          else raw_chunk out bytes)

  -- `close_output_file`: an error in it is reported, and it goes on.
  abbrev pub report : Outcome → Run (OutputFile F)
  report r = r >>= λ s. elim s.0 [ ok ↦ done s.1 | failed ↦ error force >> done s.1 ]

  unfoldable pub close_output_file : OutputFile F → Run F
  unfolding file_seek file_write
  close_output_file out =
      if out.sparse
      then (report (file_seek out 0) >>= λ out.
          report (file_write out (sparse_header_bytes (header_of info out.chunk_cnt out.crc32)))
          >>= λ out. done out.fd)
      else done out.fd

  -- `open_output_file`, given what `open` or `gzopen` returned; `none` is NULL.
  unfoldable pub open_output_file : Option F → Bool → Run (Option (OutputFile F))
  unfolding file_write
  open_output_file none sparse = error force >> done none
  open_output_file (some fd) sparse =
      let out : OutputFile F = record {
        fd = fd;
        sparse = sparse;
        cur_out_ptr = 0;
        chunk_cnt = 0;
        crc32 = 0;
      } in
      if not sparse
      then done (some out)
      else if info.block_size == 0
      then fault
      else (file_write out (sparse_header_bytes (header_of info 0 0)) >>= λ s. elim s.0 [
        | ok ↦ done (some s.1)
        | failed ↦ done none
      ])

  -- `error(…); return;` of the functions that return nothing
  abbrev pub give_up : OutputFile F → Run (OutputFile F)
  give_up out = error force >> done out

  -- The writes of an image that is not sparse.
  abbrev pub write_plain : OutputFile F → ℕ → List ℕ → Run (OutputFile F)
  write_plain out off bytes =
      on_ok (file_seek out off) (λ out. write_len out bytes) >>= λ s. done s.1

  unfoldable pub pad_output_file : OutputFile F → ℕ → Run (OutputFile F)
  unfolding emit_skip_chunk file_seek file_write
  pad_output_file out len =
      if ltb info.len len
      then give_up out
      else if out.sparse
      then if ltb len out.cur_out_ptr
        then give_up out
        else if ltb out.cur_out_ptr len
        then (emit_skip_chunk out (len - out.cur_out_ptr) >>= λ s. done s.1)
        else done out
      else write_plain out (u64 (len + 2 ^ 64 - 1)) (0 ∷ [])

  -- what `write_data_block` and `write_data_file` do with the bytes
  abbrev pub write_out : OutputFile F → ℕ → List ℕ → Run (OutputFile F)
  write_out out off bytes =
      if out.sparse
      then (write_chunk_raw out off bytes >>= λ s. done s.1)
      else write_plain out off bytes

  unfoldable pub write_data_block : OutputFile F → ℕ → List ℕ → Run (OutputFile F)
  unfolding write_chunk_raw file_seek file_write
  write_data_block out off bytes =
      if ltb info.len (u64 (off + extended (length bytes)))
      then give_up out
      else write_out out off bytes

  -- `write_data_file`; the bytes are those that `mmap` gives, and `none` stands for its failure or
  -- that of `open`.
  unfoldable pub write_data_file : OutputFile F → ℕ → Option (List ℕ) → ℕ → Run (OutputFile F)
  unfolding write_chunk_raw file_seek file_write
  write_data_file out off mapped len =
      if leb info.len (u64 (off + extended len))
      then give_up out
      else elim mapped [ none ↦ give_up out | some bytes ↦ write_out out off bytes ]
