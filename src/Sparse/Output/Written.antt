-- ===== src/Sparse/Output/Written.antt =====
-- What the functions for sparse files add to a file: a chunk, or two.
use android_tools.Common.{
  ℕ, ◌+◌, ◌-◌, ◌*◌, ◌/◌, ◌%◌, ◌^◌, ◌≤◌, ◌<◌, ◌≡◌, refl, ap, sym, ◌∙◌, arith, Bool, true, false,
  List, [], ◌∷◌, ◌++◌, ◌==◌, not, length, replicate, length-replicate, length-append, done,
}
use mathlib.Core.List.{append-nil, append_assoc}
use native.Mathlib.Nat.{div-add-mod', mod-lt, mul-mod_left, mul-div_left}
use android_tools.Crc.{sparse_crc32}
use android_tools.Crc.Laws.{sparse_crc32-append}
use android_tools.Fs.{FsInfo, u32, u64}
use android_tools.Group.{ok}
use android_tools.Sparse.{chunk_header_bytes, sparse_header_len}
use android_tools.Sparse.Image.{Image}
use android_tools.Sparse.Items.{
  Item, skip, header, encode, expand, encode_all, expand_all, IsItem, AreItems, AreItems-append,
  encode_all-snoc, expand_all-snoc,
}
use android_tools.Sparse.Output.{Ops, OutputFile, emit_skip_chunk}
use android_tools.Sparse.Output.Reliable.{IsReliable, file_write-ok, write_at-end, crc_zeros_lem}

-- The block size is a power of two of at most 31 bits.
pub record IsSize (size : ℕ) : Type 0 where
  pub high : ℕ
  pub low : ℕ
  pub split : high + low ≡ 32
  pub power : size ≡ 2 ^ low
  pub some_bytes : 0 < size
  pub at_most : size < 2 ^ 31

pub length-snoc : (xs : List Item) (i : Item) → length (xs ++ (i ∷ [])) ≡ length xs + 1
length-snoc xs i = length-append xs (i ∷ [])

abbrev pub rounded : ℕ → ℕ → ℕ
rounded size len = (len + size - 1) / size * size

pub rounded-bounds :
    (size len : ℕ) → 0 < size → (len ≤ rounded size len) × (rounded size len < len + size)
rounded-bounds size len pos =
    let whole = div-add-mod' (len + size - 1) size in
    let small = mod-lt (len + size - 1) pos in
    (omega (arith, whole, small), omega (arith, whole, small))

module _ {F : Type 0} {ops : Ops F} (r : IsReliable ops) where
  -- The file ends where it stands, and has the bytes.
  pub record AtEnd (f : F) (bytes : List ℕ) : Type 0 where
    pub contents : (r.view f).contents ≡ bytes
    pub place : (r.view f).pos ≡ length bytes

  pub AtEnd-after :
      {f : F} {bytes : List ℕ} (more : List ℕ)
      → AtEnd f bytes
      → AtEnd (r.after f more) (bytes ++ more)
  AtEnd-after {f} {bytes} more a =
      let c = a.contents in
      let e : r.view (r.after f more)
          ≡ record { contents = bytes ++ more; pos = (r.view f).pos + length more } =
        r.view-after f more
        ∙ write_at-end (r.view f) more (a.place ∙ ap length (sym c))
        ∙ rw c refl in
      record {
        contents = ap (λ (im : Image). im.contents) e;
        place = ap (λ (im : Image). im.pos) e ∙ omega (arith, a.place, length-append bytes more);
      }

  -- A sparse file after a header, of whatever numbers, and the chunks.
  pub record Written (size : ℕ) (out : OutputFile F) (items : List Item) : Type 0 where
    pub head : List ℕ
    pub head_len : length head ≡ sparse_header_len
    pub at_end : AtEnd out.fd (head ++ encode_all size items)
    pub ptr : out.cur_out_ptr ≡ length (expand_all size items)
    pub count : out.chunk_cnt ≡ length items
    pub crc : out.crc32 ≡ sparse_crc32 0 (expand_all size items)
    pub flag : out.sparse ≡ true
    pub items_fit : AreItems size items

  -- The output file after one more chunk.
  abbrev pub grown : (size : ℕ) → OutputFile F → List Item → Item → F → OutputFile F
  grown size out items i f = record out {
    fd = f;
    cur_out_ptr = length (expand_all size items) + length (expand size i);
    chunk_cnt = length items + 1;
    crc32 = sparse_crc32 (sparse_crc32 0 (expand_all size items)) (expand size i);
  }

  pub Written-snoc :
      (size : ℕ) {out : OutputFile F} {items : List Item} (i : Item) (f : F)
      → (w : Written size out items) → IsItem size i
      → AtEnd f ((w.head ++ encode_all size items) ++ encode size i)
      → Written size (grown size out items i f) (items ++ (i ∷ []))
  Written-snoc size {out} {items} i f w v a =
      let more = expand_all-snoc size items i in
      record {
        head = w.head;
        head_len = w.head_len;
        at_end =
            rw
              (append_assoc w.head (encode_all size items) (encode size i)
                ∙ ap (λ l. w.head ++ l) (sym (encode_all-snoc size items i)))
              at a;
        ptr = sym (ap length more ∙ length-append (expand_all size items) (expand size i));
        count = sym (length-snoc items i);
        crc =
            sparse_crc32-append 0 (expand_all size items) (expand size i)
            ∙ ap (sparse_crc32 0) (sym more);
        flag = w.flag;
        items_fit = AreItems-append size items (i ∷ []) w.items_fit (v, tt);
      }

module _ {F : Type 0} {ops : Ops F} (r : IsReliable ops) (force : Bool) (info : FsInfo)
    (z : IsSize info.block_size) where
  abbrev size : ℕ
  size = info.block_size

  -- A skip of `n` blocks adds the chunk for it.
  pub emit_skip_chunk-Written :
      (out : OutputFile F) (items : List Item) (n : ℕ)
      → Written r size out items
      → n < 2 ^ 32
      → out.cur_out_ptr + n * size < 2 ^ 64
      → (out' : OutputFile F) × (emit_skip_chunk ops force info out (n * size) ≡ done (ok, out'))
        × Written r size out' (items ++ (skip n ∷ []))
        × (out'.cur_out_ptr ≡ out.cur_out_ptr + n * size)
  unfolding emit_skip_chunk
  emit_skip_chunk-Written out items n w small fits =
      let some_size : (size == 0) ≡ false = ground (arith, z.some_bytes) in
      let aligned : not (n * size % size == 0) ≡ false = rw (mul-mod_left n size) refl in
      let count : u32 (n * size / size) ≡ n = ap u32 (mul-div_left n z.some_bytes) ∙ omega arith in
      let quotient : n * size / size ≡ n = mul-div_left n z.some_bytes in
      let written =
        file_write-ok ops r force info out (chunk_header_bytes (header size (skip n))) in
      let sums : u64 (out.cur_out_ptr + n * size)
          ≡ length (expand_all size items) + length {A = ℕ} (replicate (n * size) 0) =
        omega (arith, w.ptr, length-replicate {A = ℕ} (n * size) 0) in
      let here = w.at_end in
      let place = append-nil (chunk_header_bytes (header size (skip n))) in
      let f = r.after out.fd (chunk_header_bytes (header size (skip n))) in
      (
        grown r size out items (skip n) f,
        rw (some_size, aligned, count, written)
            (rw
              (
                quotient,
                crc_zeros_lem ops force info z.some_bytes (2 + n) n out.crc32 (omega arith),
                sums,
                w.crc,
                w.count,
              )
              refl),
        Written-snoc r size (skip n) f w small
            (rw place (AtEnd-after r (chunk_header_bytes (header size (skip n))) here)),
        omega (arith, w.ptr, length-replicate {A = ℕ} (n * size) 0),
      )
