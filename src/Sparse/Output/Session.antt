-- ===== src/Sparse/Output/Session.antt =====
-- The start and the end of a sparse file: `open_output_file` and `close_output_file`.
use android_tools.Common.{
  ℕ, ◌≡◌, refl, ap, sym, ◌∙◌, arith, Bool, true, false, List, [], ◌++◌, some, ◌==◌, length, done,
  ◌*◌,
}
use mathlib.Core.List.{append-nil}
use android_tools.Fs.{FsInfo}
use android_tools.Sparse.{sparse_header_bytes}
use android_tools.Sparse.Image.{Image, write_at-front, write_at}
use android_tools.Sparse.Items.{Item, encode_all, expand_all}
use android_tools.Sparse.Output.{Ops, OutputFile, open_output_file, close_output_file, header_of}
use android_tools.Sparse.Output.Reliable.{
  IsReliable, file_write-ok, file_seek-ok, sparse_crc32-nil, write_at-end,
}
use android_tools.Sparse.Output.Written.{IsSize, Written}
use android_tools.Sparse.Output.Stage.{Stage, IsLength}
use android_tools.Sparse.Expand.Headers.{length-sparse_header_bytes}
use android_tools.Sparse.RoundTrip.{sparse_file, Fills}

module _ {F : Type 0} {ops : Ops F} (r : IsReliable ops) (force : Bool) (info : FsInfo)
    (z : IsSize info.block_size) where
  pub open_output_file-Stage :
      (fd : F)
      → r.view fd ≡ record { contents = []; pos = 0 }
      → (out : OutputFile F) × (open_output_file ops force info (some fd) true ≡ done (some out))
        × Stage r force info z out [] 0
  unfolding open_output_file
  open_output_file-Stage fd empty =
      let out : OutputFile F = record {
        fd = fd;
        sparse = true;
        cur_out_ptr = 0;
        chunk_cnt = 0;
        crc32 = 0;
      } in
      let head = sparse_header_bytes (header_of info 0 0) in
      let some_size : (info.block_size == 0) ≡ false = ground (arith, z.some_bytes) in
      let written = file_write-ok ops r force info out head in
      let view =
        r.view-after fd head
        ∙ ap (λ im. write_at im head) empty
        ∙ write_at-end (record { contents = []; pos = 0 }) head refl in
      let out' = record out { fd = r.after fd head } in
      let w : Written r info.block_size out' [] = record {
        head = head;
        head_len = length-sparse_header_bytes (header_of info 0 0);
        at_end = record {
          contents = ap (λ (im : Image). im.contents) view ∙ sym (append-nil head);
          place = ap (λ (im : Image). im.pos) view ∙ omega (arith, ap length (append-nil head));
        };
        ptr = refl;
        count = refl;
        crc = sym (sparse_crc32-nil 0);
        flag = refl;
        items_fit = tt;
      } in
      (
        out',
        rw (some_size, written) refl,
        record { items = []; written = w; expands = refl; counts = refl; few = omega arith },
      )

  pub close_output_file-Stage :
      (out : OutputFile F) (image : List ℕ) (total : ℕ)
      → Stage r force info z out image total
      → IsLength r force info z total
      → (f : F) × (items : List Item) × (close_output_file ops force info out ≡ done f)
        × ((r.view f).contents ≡ sparse_file info items)
        × Fills info items
        × (expand_all info.block_size items ≡ image)
  unfolding close_output_file
  close_output_file-Stage out image total s l =
      let w = s.written in
      let flag = w.flag in
      let head = sparse_header_bytes (header_of info out.chunk_cnt out.crc32) in
      let start = record out { fd = r.moved out.fd 0 } in
      let sought = file_seek-ok ops r force info out 0 in
      let written = file_write-ok ops r force info start head in
      let f = r.after (r.moved out.fd 0) head in
      let view =
        r.view-after (r.moved out.fd 0) head
        ∙ ap (λ im. write_at im head) (r.view-moved out.fd 0) in
      let contents =
        ap (λ (im : Image). im.contents) view
        ∙ write_at-front (r.view out.fd) w.head head (encode_all info.block_size s.items)
            w.at_end.contents
            (length-sparse_header_bytes (header_of info out.chunk_cnt out.crc32)
              ∙ sym w.head_len) in
      let file : head ++ encode_all info.block_size s.items ≡ sparse_file info s.items =
        rw (w.count, w.crc) refl in
      (
        f,
        s.items,
        rw (sought, written, flag) refl,
        contents ∙ file,
        record {
          items_fit = w.items_fit;
          all = ap (λ (t : ℕ). t * info.block_size) s.counts ∙ sym l.len;
          blocks_fit = omega (arith, s.counts, l.fits);
          count_fits = omega (arith, s.few, l.fits);
        },
        s.expands,
      )
