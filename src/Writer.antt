-- ===== src/Writer.antt =====
-- `write_ext4_image` of img-db/ext4_utils/ext4_utils.c: the superblock, the descriptors of the block
-- groups and the queue are put into the output file, one after another.
pub mod Layout
pub mod RoundTrip
use android_tools.Common.{
  ℕ, ◌+◌, ◌*◌, ◌%◌, ◌^◌, Bool, List, [], ◌∷◌, ◌++◌, Option, none, some, ltb, if◌then◌else◌, take,
  replicate, Run, done, fault, ◌>>=◌,
}
use android_tools.Fs.{FsInfo, u32, u64}
use android_tools.Queue.{Queue, Source, memory, file, Call, call, for_each_data_block}
use android_tools.Sparse.Output.{
  Ops, OutputFile, open_output_file, close_output_file, pad_output_file, write_data_block,
  write_data_file, extended,
}

-- What the sources of data hold: `length` bytes behind a pointer, and as many of a file from an
-- offset on, as `mmap` with that `size_t` gives them; `none` is a failure of that or of `open`.
pub record Contents : Type 0 where
  pub in_memory : ℕ → ℕ → List ℕ
  pub in_file : List ℕ → ℕ → ℕ → Option (List ℕ)

-- What `write_ext4_image` reads of `aux_info`: the bytes of `sb` and of `bg_desc`.
pub record AuxData : Type 0 where
  pub first_data_block : ℕ
  pub sb : List ℕ
  pub bg_desc : List ℕ

-- `u8 buf[4096]` with the superblock in it
unfoldable pub first_block : List ℕ → List ℕ
first_block sb = replicate 1024 0 ++ (take 1024 sb ++ replicate 2048 0)

module _ {F : Type 0} (ops : Ops F) (force : Bool) (info : FsInfo) (data_of : Contents) where
  -- the calls of `for_each_data_block`, with `write_data_block` and `write_data_file`
  unfoldable pub write_call : OutputFile F → Call → Run (OutputFile F)
  write_call out (call off (memory ptr) len) =
      write_data_block ops force info out off (data_of.in_memory ptr len)
  write_call out (call off (file name from) len) =
      write_data_file ops force info out off (data_of.in_file name from (extended len)) len

  unfoldable pub write_calls : OutputFile F → List Call → Run (OutputFile F)
  write_calls out [] = done out
  write_calls out (c ∷ calls) = write_call out c >>= λ out. write_calls out calls

  unfoldable pub write_super_block : OutputFile F → List ℕ → Run (OutputFile F)
  write_super_block out sb =
      if ltb 1024 info.block_size
      then if ltb 4096 info.block_size
        then fault
        else write_data_block ops force info out 0 (take info.block_size (first_block sb))
      else write_data_block ops force info out 1024 (take 1024 sb)

  -- `opened` is what `open` or `gzopen` gave for the name; the result is the file that was closed.
  unfoldable pub write_ext4_image : Option F → Bool → AuxData → ℕ → Queue → Run (Option F)
  write_ext4_image opened sparse aux_info fuel q =
      open_output_file ops force info opened sparse >>= λ o. elim o [
        | none ↦ done none
        | some out ↦ write_super_block out aux_info.sb >>= λ out.
            write_data_block ops force info out
              (u64 (u32 (aux_info.first_data_block + 1) * info.block_size)) aux_info.bg_desc
            >>= λ out. for_each_data_block force info fuel q >>= λ calls.
                write_calls out calls >>= λ out.
                pad_output_file ops force info out info.len >>= λ out.
                close_output_file ops force info out >>= λ f. done (some f)
      ]
