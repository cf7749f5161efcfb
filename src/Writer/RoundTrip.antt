-- ===== src/Writer/RoundTrip.antt =====
-- The sparse image that `write_ext4_image` writes stands for the layout of its data, and `simg2img`
-- gives just that back.
use android_tools.Common.{
  ℕ, ◌+◌, ◌-◌, ◌*◌, ◌^◌, ◌≤◌, ◌≡◌, refl, ap, ◌∙◌, arith, Bool, true, false, List, [], ◌∷◌, ◌++◌,
  some, ltb, if◌then◌else◌, length, replicate, map, take, done,
}
use mathlib.Core.List.{append_assoc}
use native.Mathlib.Decide.{dec_lt}
use native.Mathlib.Nat.{mul-le-mul}
use android_tools.Fs.{FsInfo, u32, u64}
use android_tools.Queue.{Queue}
use android_tools.Queue.Chain.{Entry}
use android_tools.Queue.Order.{Holds}
use android_tools.Queue.Each.{Apart, for_each_data_block-Apart}
use android_tools.Sparse.Items.{Item, expand_all}
use android_tools.Sparse.Output.{Ops, OutputFile, write_data_block}
use android_tools.Sparse.Output.Reliable.{IsReliable}
use android_tools.Sparse.Output.Written.{IsSize}
use android_tools.Sparse.Output.RawChunk.{padded}
use android_tools.Sparse.Output.Stage.{
  IsLength, IsPlaced, blocks_for, placed, write_data_block-Stage, pad_output_file-Stage,
}
use android_tools.Sparse.Output.Session.{open_output_file-Stage, close_output_file-Stage}
use android_tools.Sparse.RoundTrip.{sparse_file, Fills, simg2img-sparse_file}
use android_tools.Sparse.Expand.{Stdio, simg2img}
use android_tools.Sparse.Expand.Copy.{IsReliableStdio}
use android_tools.Writer.{Contents, AuxData, first_block, write_super_block, write_ext4_image}
use android_tools.Writer.Layout.{Part, part_of, image_from, AreSupplied, write_calls-Laid}

-- The block of the superblock, and what is written there.
abbrev pub super_part : FsInfo → AuxData → Part
super_part info aux =
    if ltb 1024 info.block_size
    then (0, take info.block_size (first_block aux.sb))
    else (1, take 1024 aux.sb)

abbrev pub parts : FsInfo → Contents → AuxData → List Entry → List Part
parts info data_of aux es =
    super_part info aux ∷ (aux.first_data_block + 1, aux.bg_desc) ∷ map (part_of data_of) es

module _ {F : Type 0} {ops : Ops F} (r : IsReliable ops) (force : Bool) (info : FsInfo)
    (z : IsSize info.block_size) (data_of : Contents) (total : ℕ)
    (l : IsLength r force info z total) where
  abbrev size : ℕ
  size = info.block_size

  abbrev pub after_super : AuxData → ℕ
  after_super aux = (super_part info aux).0 + blocks_for size (super_part info aux).1

  write_super_block-eq :
      (out : OutputFile F) (aux : AuxData)
      → 1024 ≤ size
      → size ≤ 4096
      → write_super_block ops force info data_of out aux.sb
        ≡ write_data_block ops force info out
            ((super_part info aux).0 * size)
            (super_part info aux).1
  unfolding write_super_block
  write_super_block-eq out aux least most = elim (dec_lt 1024 size) [
    | yes lt ↦
        let large : ltb 1024 size ≡ true = ground arith in
        let fits : ltb 4096 size ≡ false = ground arith in
        rw (large, fits)
          (ap (λ (t : ℕ). write_data_block ops force info out t (take size (first_block aux.sb)))
            (omega arith))
    | no le ↦
        let small : ltb 1024 size ≡ false = ground arith in
        rw small
          (ap (λ (t : ℕ). write_data_block ops force info out t (take 1024 aux.sb)) (omega arith))
  ]

  -- What is to be written fits: all parts lie one behind the other, within the image.
  pub record Ready (aux : AuxData) (fuel : ℕ) (q : Queue) (es : List Entry) : Type 0 where
    pub least : 1024 ≤ size
    pub most : size ≤ 4096
    pub super : IsPlaced r force info z 0 total (super_part info aux).0 (super_part info aux).1
    pub descriptors :
        IsPlaced r force info z (after_super aux) total (aux.first_data_block + 1) aux.bg_desc
    pub holds : Holds q es
    pub apart : Apart size 0 es
    pub enough_fuel : length es ≤ fuel
    pub supplied :
        AreSupplied r force info z data_of total l
          (aux.first_data_block + 1 + blocks_for size aux.bg_desc)
          es

  -- The conditions are these. The calls for the output succeed, and its file is empty. The block
  -- size is 1024, 2048 or 4096, the image is a whole number of blocks, and their count fits 32
  -- bits. The superblock, the descriptors and the entries of the queue are none of them empty; in
  -- this order each begins behind the last block of the one before and ends within the image, and
  -- one from a file ends before the image does; each has its length, the 12 bytes of a chunk header
  -- and one block below `2 ^ 31` bytes, the sources give all bytes of the entries, and the fuel is
  -- enough for these. Then `write_ext4_image` returns, and the file that it closes is the sparse
  -- file of some chunks, with their count and their checksum in its header; the chunks are of whole
  -- blocks, are as long as the image, and stand for the layout of the data.
  pub write_ext4_image-Fills :
      (aux : AuxData) (fuel : ℕ) (q : Queue) (es : List Entry) (fd : F)
      → Ready aux fuel q es
      → r.view fd ≡ record { contents = []; pos = 0 }
      → (f : F) × (items : List Item) × (write_ext4_image ops force info data_of
            (some fd)
            true
            aux
            fuel
            q
          ≡ done (some f))
        × ((r.view f).contents ≡ sparse_file info items)
        × Fills info items
        × (expand_all size items ≡ image_from size total 0 (parts info data_of aux es))
  unfolding write_ext4_image
  write_ext4_image-Fills aux fuel q es fd v empty =
      let a = (super_part info aux).0 in
      let sb = (super_part info aux).1 in
      let b = aux.first_data_block + 1 in
      let (out0, open_run, s0) = open_output_file-Stage r force info z fd empty in
      let (out1, super_run, s1) =
        write_data_block-Stage r force info z out0 [] 0 total a sb s0 l v.super in
      let super_done = write_super_block-eq out0 aux v.least v.most ∙ super_run in
      let image1 = placed r force info z 0 a sb in
      let (out2, desc_run, s2) =
        write_data_block-Stage r force info z out1 image1 (after_super aux) total b aux.bg_desc s1 l
          v.descriptors in
      let image2 = image1 ++ placed r force info z (after_super aux) b aux.bg_desc in
      let offset : u64 (u32 (aux.first_data_block + 1) * size) ≡ b * size =
        let small : u32 b ≡ b = omega (arith, v.descriptors.inside, l.fits) in
        let most : b * size ≤ 2 ^ 32 * 4096 =
          mul-le-mul {n₂ = 2 ^ 32} {m₂ = 4096} (omega (arith, v.descriptors.inside, l.fits))
            (omega (arith, v.most)) in
        rw small (omega (arith, most)) in
      let desc_done =
        ap (λ (t : ℕ). write_data_block ops force info out1 t aux.bg_desc) offset ∙ desc_run in
      let queue_run =
        for_each_data_block-Apart force info fuel q es z.some_bytes (omega (arith, z.at_most))
          v.holds v.enough_fuel v.apart in
      let laid =
        write_calls-Laid r force info z data_of total l es out2 image2
          (b + blocks_for size aux.bg_desc) s2 v.supplied in
      let calls_run = laid.run in
      let (out3, pad_run, s3) =
        pad_output_file-Stage r force info z laid.out (image2 ++ laid.put) laid.end total laid.stage
          l laid.inside in
      let (f, items, close_run, contents, fills, expands) =
        close_output_file-Stage r force info z out3 _ total s3 l in
      let rest =
        image_from size total (b + blocks_for size aux.bg_desc) (map (part_of data_of) es) in
      let zeros : List ℕ = replicate ((a - 0) * size) 0 in
      let zeros' : List ℕ = replicate ((b - after_super aux) * size) 0 in
      let image : (image2 ++ laid.put) ++ replicate ((total - laid.end) * size) 0
          ≡ image_from size total 0 (parts info data_of aux es) =
        append_assoc image2 laid.put (replicate ((total - laid.end) * size) 0)
        ∙ ap (λ l. image2 ++ l) laid.whole
        ∙ append_assoc image1 (zeros' ++ padded size aux.bg_desc) rest
        ∙ append_assoc zeros (padded size sb) ((zeros' ++ padded size aux.bg_desc) ++ rest)
        ∙ ap (λ l. zeros ++ (padded size sb ++ l))
            (append_assoc zeros' (padded size aux.bg_desc) rest) in
      (
        f,
        items,
        rw open_run (
            rw super_done
              (rw desc_done (rw queue_run (rw calls_run (rw pad_run (rw close_run refl)))))),
        contents,
        fills,
        expands ∙ image,
      )

  -- The conditions are these. The calls of the system and of stdio succeed, and memory from
  -- `malloc` is zero. The block size is 1024, 2048 or 4096, the image is a whole number of blocks,
  -- and their count fits 32 bits. The output files are empty, and `simg2img` reads what was
  -- written. The superblock, the descriptors and the entries of the queue are none of them empty;
  -- in this order each begins behind the last block of the one before and ends within the image,
  -- and one from a file ends before the image does; each has its length, the 12 bytes of a chunk
  -- header and one block below `2 ^ 31` bytes, the sources give all bytes of the entries, and the
  -- fuel is enough for these. Then `write_ext4_image` writes a sparse file, and `simg2img` on that
  -- file ends with 0 and leaves the image: the superblock, the descriptors and the entries of the
  -- queue at their blocks, each filled up with zeros to whole blocks, and zeros in between and up
  -- to the end.
  pub write_ext4_image-simg2img :
      {I O : Type 0} {std : Stdio I O} (t : IsReliableStdio std) (fresh : ℕ → List ℕ)
      (as_input : F → I) (o : O) (aux : AuxData) (fuel : ℕ) (q : Queue) (es : List Entry) (fd : F)
      → Ready aux fuel q es
      → r.view fd ≡ record { contents = []; pos = 0 }
      → ((f : F) → t.rest (as_input f) ≡ (r.view f).contents)
      → t.view o ≡ record { contents = []; pos = 0 }
      → fresh size ≡ replicate size 0
      → (f : F) × (o' : O) × (write_ext4_image ops force info data_of (some fd) true aux fuel q
          ≡ done (some f))
        × (simg2img std fresh (as_input f) o ≡ done o')
        × ((t.view o').contents ≡ image_from size total 0 (parts info data_of aux es))
  write_ext4_image-simg2img {std = std} t fresh as_input o aux fuel q es fd v empty same_file
        empty_out clear =
      let (f, items, run, contents, fills, expands) =
        write_ext4_image-Fills aux fuel q es fd v empty in
      let (o', back, image) =
        simg2img-sparse_file t info items fresh (as_input f) o z fills clear
          (same_file f ∙ contents) empty_out in
      (f, o', run, back, image ∙ expands)
