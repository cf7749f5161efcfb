-- ===== src/Writer/Layout.antt =====
-- The calls for a queue whose entries follow one another put each at its place in the image.
use android_tools.Common.{
  ℕ, ◌+◌, ◌-◌, ◌*◌, ◌^◌, ◌≤◌, ◌<◌, ◌≡◌, refl, ap, ap₂, sym, ◌∙◌, arith, Bool, List, [], ◌∷◌, ◌++◌,
  Option, some, none, length, replicate, map, Run, done, ◌>>=◌,
}
use mathlib.Core.List.{append_assoc, append-nil}
use android_tools.Fs.{FsInfo}
use android_tools.Queue.{Source, memory, file, call}
use android_tools.Queue.Chain.{Entry}
use android_tools.Queue.Each.{call_of}
use android_tools.Sparse.Output.{Ops, OutputFile, write_data_file}
use android_tools.Sparse.Output.Reliable.{IsReliable}
use android_tools.Sparse.Output.Written.{IsSize}
use android_tools.Sparse.Output.RawChunk.{padded}
use android_tools.Sparse.Output.Stage.{
  Stage, IsLength, IsPlaced, blocks_for, placed, extended-short, write_data_block-Stage,
  write_data_file-Stage,
}
use android_tools.Writer.{Contents, write_call, write_calls}

-- the bytes of a source
abbrev pub bytes_of : Contents → Source → ℕ → List ℕ
bytes_of data_of (memory ptr) len = data_of.in_memory ptr len
bytes_of data_of (file name from) len = elim (data_of.in_file name from len) [
  | none ↦ []
  | some bytes ↦ bytes
]

-- What a source promises: all the bytes, fewer than `2 ^ 31` of a file; and a file has to end before
-- the image does.
abbrev pub IsSupplied : FsInfo → Contents → ℕ → Source → ℕ → Type 0
IsSupplied info data_of block (memory ptr) len = length (data_of.in_memory ptr len) ≡ len
IsSupplied info data_of block (file name from) len =
    (bytes : List ℕ) × (data_of.in_file name from len ≡ some bytes)
    × (length bytes ≡ len)
    × (len < 2 ^ 31)
    × (block * info.block_size + len < info.len)

-- The bytes that are to stand at the blocks, one part after another, in an image.
abbrev pub Part : Type 0
Part = ℕ × List ℕ

-- The image from block `start` to its end: the parts at their blocks, each filled up to whole
-- blocks, and zeros between and after them.
abbrev pub image_from : ℕ → ℕ → ℕ → List Part → List ℕ
image_from size total start [] = replicate ((total - start) * size) 0
image_from size total start ((a, bytes) ∷ parts) =
    replicate ((a - start) * size) 0
    ++ (padded size bytes ++ image_from size total (a + blocks_for size bytes) parts)

-- the part for an entry
abbrev pub part_of : Contents → Entry → Part
part_of data_of e = (e.0, bytes_of data_of e.2 e.1)

module _ {F : Type 0} {ops : Ops F} (r : IsReliable ops) (force : Bool) (info : FsInfo)
    (z : IsSize info.block_size) (data_of : Contents) (total : ℕ)
    (l : IsLength r force info z total) where
  abbrev size : ℕ
  size = info.block_size

  -- Each entry is supplied, and lies behind the last, within the image.
  abbrev pub AreSupplied : ℕ → List Entry → Type 0
  AreSupplied start [] = start ≤ total
  AreSupplied start (e ∷ es) =
      IsSupplied info data_of e.0 e.2 e.1
      × IsPlaced r force info z start total e.0 (bytes_of data_of e.2 e.1)
      × AreSupplied (e.0 + blocks_for size (bytes_of data_of e.2 e.1)) es

  write_call-Stage :
      (out : OutputFile F) (image : List ℕ) (count a len : ℕ) (source : Source)
      → Stage r force info z out image count
      → IsSupplied info data_of a source len
      → IsPlaced r force info z count total a (bytes_of data_of source len)
      → (out' : OutputFile F) × (write_call ops force info data_of out (call (a * size) source len)
          ≡ done out')
        × Stage r force info z out'
            (image ++ placed r force info z count a (bytes_of data_of source len))
            (a + blocks_for size (bytes_of data_of source len))
  unfolding write_call
  write_call-Stage out image count a len (memory ptr) s v p =
      write_data_block-Stage r force info z out image count total a (data_of.in_memory ptr len) s l
        p
  write_call-Stage out image count a len (file name from) s (bytes, e, same, short, before) p =
      let got : bytes_of data_of (file name from) len ≡ bytes = rw (e, bytes_of) refl in
      let back = sym got in
      let p' : IsPlaced r force info z count total a bytes = rw got at p in
      let (out', run, s') =
        write_data_file-Stage r force info z out image count total a bytes s l p'
          (omega (arith, same, before)) in
      (
        out',
        ap
              (λ (t : ℕ).
                write_data_file ops force info out (a * size) (data_of.in_file name from t) len)
              (extended-short len short)
            ∙ ap₂
                (λ (m : Option (List ℕ)) (n : ℕ). write_data_file ops force info out (a * size) m n)
                e (sym same)
            ∙ run,
        rw back at s',
      )

  -- What is left to do after some calls: to pad the image.
  pub record Laid (result : Run (OutputFile F)) (image rest : List ℕ) : Type 0 where
    pub out : OutputFile F
    pub run : result ≡ done out
    pub put : List ℕ
    pub end : ℕ
    pub inside : end ≤ total
    pub stage : Stage r force info z out (image ++ put) end
    pub whole : put ++ replicate ((total - end) * size) 0 ≡ rest

  pub write_calls-Laid :
      (es : List Entry) (out : OutputFile F) (image : List ℕ) (count : ℕ)
      → Stage r force info z out image count
      → AreSupplied count es
      → Laid
          (write_calls ops force info data_of out (map (call_of size) es))
          image
          (image_from size total count (map (part_of data_of) es))
  unfolding write_calls
  write_calls-Laid [] out image count s le =
      let same = append-nil image in
      record {
        out = out;
        run = refl;
        put = [];
        end = count;
        inside = le;
        stage = rw same s;
        whole = refl;
      }
  write_calls-Laid (e ∷ es) out image count s (v, p, more) =
      let bytes = bytes_of data_of e.2 e.1 in
      let gap = placed r force info z count e.0 bytes in
      let (out', run, s') = write_call-Stage out image count e.0 e.1 e.2 s v p in
      let next = write_calls-Laid es out' (image ++ gap) (e.0 + blocks_for size bytes) s' more in
      let all = append_assoc image gap next.put in
      record {
        out = next.out;
        run = rw (run, ◌>>=◌) next.run;
        put = gap ++ next.put;
        end = next.end;
        inside = next.inside;
        stage = rw all at next.stage;
        whole =
            append_assoc gap next.put (replicate ((total - next.end) * size) 0)
            ∙ ap (λ l. gap ++ l) next.whole
            ∙ append_assoc (replicate ((e.0 - count) * size) 0) (padded size bytes)
                (image_from size total (e.0 + blocks_for size bytes) (map (part_of data_of) es));
      }
