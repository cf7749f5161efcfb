-- ===== src/Sparse/Output/Plain.antt =====
-- The output of an image that is not sparse.
use android_tools.Common.{
  ℕ, ◌+◌, ◌-◌, ◌^◌, ◌≤◌, ◌<◌, ◌≡◌, refl, ap, ◌∙◌, arith, Bool, true, false, List, [], ◌∷◌, ◌++◌,
  ltb, if◌then◌else◌, length, done,
}
use android_tools.Fs.{FsInfo, u64}
use android_tools.Sparse.Image.{Image, write_at, seek_set, sized, drop-all}
use android_tools.Sparse.Output.{Ops, OutputFile, write_plain, write_data_block, pad_output_file}
use android_tools.Sparse.Output.Stage.{extended-short}
use android_tools.Sparse.Output.Reliable.{IsReliable, file_write-ok, file_seek-ok}

plain_branch : {A : Type 0} {b : Bool} (x y : A) → b ≡ false → (if b then x else y) ≡ y
plain_branch x y e = ap (λ b. if b then x else y) e

module _ {F : Type 0} {ops : Ops F} (r : IsReliable ops) (force : Bool) (info : FsInfo) where
  write_plain-ok :
      (out : OutputFile F) (off : ℕ) (bytes : List ℕ)
      → length bytes < 2 ^ 31
      → write_plain ops force info out off bytes
        ≡ done (record out { fd = r.after (r.moved out.fd off) bytes })
  write_plain-ok out off bytes short =
      let test : ltb (length bytes) (2 ^ 31) ≡ true = ground arith in
      let sought = file_seek-ok ops r force info out off in
      let written = file_write-ok ops r force info (record out { fd = r.moved out.fd off }) bytes in
      rw sought (rw test (rw written refl))

  view-plain :
      (f : F) (off : ℕ) (bytes : List ℕ)
      → r.view (r.after (r.moved f off) bytes) ≡ write_at (seek_set (r.view f) off) bytes
  view-plain f off bytes =
      r.view-after (r.moved f off) bytes ∙ ap (λ im. write_at im bytes) (r.view-moved f off)

  -- With calls that succeed, on a file that is not sparse, `write_data_block` of fewer than `2 ^
  -- 31` bytes that end within the image writes them at their offset, and returns.
  pub write_data_block-plain :
      (out : OutputFile F) (off : ℕ) (bytes : List ℕ)
      → out.sparse ≡ false
      → info.len < 2 ^ 64
      → length bytes < 2 ^ 31
      → off + length bytes ≤ info.len
      → (out' : OutputFile F) × (write_data_block ops force info out off bytes ≡ done out')
        × (r.view out'.fd ≡ write_at (seek_set (r.view out.fd) off) bytes)
  unfolding write_data_block
  write_data_block-plain out off bytes plain small short inside =
      let same = extended-short (length bytes) short in
      let sum : u64 (off + length bytes) ≡ off + length bytes = omega arith in
      let fits : ltb info.len (off + length bytes) ≡ false = ground arith in
      let run = write_plain-ok out off bytes short in
      (
        record out { fd = r.after (r.moved out.fd off) bytes },
        rw (same, sum, fits) (plain_branch _ _ plain ∙ run),
        view-plain out.fd off bytes,
      )

  -- With calls that succeed, on a file that is not sparse and is not longer than the image,
  -- `pad_output_file` up to the length of the image returns, and the file is then as long as the
  -- image: its last byte is 0, whatever stood there, and the bytes before that are as they were,
  -- with zeros where there were none.
  pub pad_output_file-plain :
      (out : OutputFile F)
      → out.sparse ≡ false
      → 0 < info.len
      → info.len < 2 ^ 64
      → length (r.view out.fd).contents ≤ info.len
      → (out' : OutputFile F) × (pad_output_file ops force info out info.len ≡ done out')
        × ((r.view out'.fd).contents ≡ sized (info.len - 1) (r.view out.fd).contents ++ (0 ∷ []))
  unfolding pad_output_file
  pad_output_file-plain out plain some_bytes small short =
      let last : u64 (info.len + 2 ^ 64 - 1) ≡ info.len - 1 = omega arith in
      let fits : ltb info.len info.len ≡ false = ground arith in
      let run = write_plain-ok out (info.len - 1) (0 ∷ []) (omega arith) in
      let contents = (r.view out.fd).contents in
      let nothing_behind = drop-all (info.len - 1 + 1) contents (omega arith) in
      (
        record out { fd = r.after (r.moved out.fd (info.len - 1)) (0 ∷ []) },
        rw fits (rw last (plain_branch _ _ plain ∙ run)),
        ap (λ (im : Image). im.contents) (view-plain out.fd (info.len - 1) (0 ∷ []))
            ∙ ap (λ l. sized (info.len - 1) contents ++ (0 ∷ l)) nothing_behind,
      )
