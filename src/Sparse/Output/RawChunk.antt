-- ===== src/Sparse/Output/RawChunk.antt =====
-- What `write_chunk_raw` adds to a sparse file: its bytes, filled up with zeros to whole blocks.
use android_tools.Common.{
  ℕ, zero, suc, ◌+◌, ◌-◌, ◌/◌, ◌%◌, ◌^◌, ◌≤◌, ◌<◌, ◌≡◌, refl, ap, sym, ◌∙◌, arith, Bool, true,
  false, leb, ◌&&◌, List, [], ◌∷◌, ◌++◌, ◌==◌, ltb, if◌then◌else◌, length, take, replicate,
  length-replicate, length-append, done, ◌>>=◌,
}
use mathlib.Core.List.{append-nil, append_assoc}
use native.Mathlib.Nat.{mul-mod_left}
use android_tools.Crc.{sparse_crc32}
use android_tools.Crc.Laws.{sparse_crc32-append}
use android_tools.Fs.{FsInfo, u32, u64}
use android_tools.Group.{ok}
use android_tools.Sparse.{chunk_type_raw, chunk_header_bytes, chunk_header_len}
use android_tools.Sparse.Image.{take-append, replicate-add}
use android_tools.Sparse.Items.{Item, raw, encode, encode_all, expand_all}
use android_tools.Sparse.Output.{Ops, OutputFile, file_write, raw_chunk, round_up, zero_buf}
use android_tools.Sparse.Output.Reliable.{IsReliable, file_write-ok, sparse_crc32-nil, round_up_lem}
use android_tools.Sparse.Output.Written.{
  IsSize, Written, Written-snoc, AtEnd, AtEnd-after, grown, rounded, rounded-bounds,
}

take-replicate : (n m : ℕ) → n ≤ m → take n (replicate m zero) ≡ replicate n 0
take-replicate n m h =
    let front : List ℕ = replicate n 0 in
    let rest : List ℕ = replicate (m - n) 0 in
    let whole : m ≡ n + (m - n) = omega arith in
    let count : n ≡ length front = sym (length-replicate {A = ℕ} n 0) in
    ap (λ (t : ℕ). take n (replicate t zero)) whole
    ∙ ap (take n) (replicate-add n (m - n))
    ∙ ap (λ (t : ℕ). take t (front ++ rest)) count
    ∙ take-append front rest

suc-some : (n : ℕ) → (suc n == 0) ≡ false
suc-some n = ground arith

-- The bytes, and zeros up to whole blocks.
abbrev pub padded : ℕ → List ℕ → List ℕ
padded size bytes = bytes ++ replicate (rounded size (length bytes) - length bytes) 0

pub length-padded :
    (size : ℕ) (bytes : List ℕ)
    → 0 < size
    → length (padded size bytes) ≡ rounded size (length bytes)
length-padded size bytes pos =
    let z = rounded size (length bytes) - length bytes in
    length-append bytes (replicate z 0)
    ∙ omega (arith, length-replicate {A = ℕ} z 0, rounded-bounds size (length bytes) pos)

module _ {F : Type 0} {ops : Ops F} (r : IsReliable ops) (force : Bool) (info : FsInfo)
    (z : IsSize info.block_size) where
  abbrev size : ℕ
  size = info.block_size

  abbrev filled : F → ℕ → F
  filled f n = if n == 0 then f else r.after f (replicate n 0)

  filled-write :
      (out : OutputFile F) (n : ℕ)
      → (if n == 0 then done (ok, out) else file_write ops force info out (replicate n 0))
        ≡ done (ok, record out { fd = filled out.fd n })
  filled-write out zero = refl
  filled-write out (suc n) =
      let e = suc-some n in rw e (file_write-ok ops r force info out (replicate (suc n) 0))

  AtEnd-filled :
      (f : F) (bytes : List ℕ) (n : ℕ)
      → AtEnd r f bytes
      → AtEnd r (filled f n) (bytes ++ replicate n 0)
  AtEnd-filled f bytes zero a = let e = append-nil bytes in rw e a
  AtEnd-filled f bytes (suc n) a =
      let e = suc-some n in rw e (AtEnd-after r (replicate (suc n) 0) a)

  crc-filled :
      (crc : ℕ) (n : ℕ)
      → (if n == 0 then crc else sparse_crc32 crc (replicate n 0))
        ≡ sparse_crc32 crc (replicate n 0)
  crc-filled crc zero = sym (sparse_crc32-nil crc)
  crc-filled crc (suc n) = let e = suc-some n in rw e refl

  pub raw_chunk-Written :
      (out : OutputFile F) (items : List Item) (bytes : List ℕ)
      → Written r size out items
      → chunk_header_len + length bytes + size < 2 ^ 31
      → out.cur_out_ptr + length bytes + size < 2 ^ 64
      → (out' : OutputFile F) × (raw_chunk ops force info out bytes ≡ done (ok, out'))
        × Written r size out' (items ++ (raw (padded size bytes) ∷ []))
        × (out'.cur_out_ptr ≡ out.cur_out_ptr + rounded size (length bytes))
  unfolding raw_chunk
  raw_chunk-Written out items bytes w small fits =
      let len = length bytes in
      let bounds = rounded-bounds size len z.some_bytes in
      let n = rounded size len - len in
      let up : round_up ops force info len ≡ rounded size len =
        round_up_lem ops force info z.some_bytes z.high z.low len z.split z.power (omega arith) in
      let zero_len : u32 (rounded size len + 2 ^ 32 - len) ≡ n = omega (arith, bounds) in
      let enough : ltb size n ≡ false = ground (arith, bounds) in
      let zeros : take n (zero_buf info) ≡ replicate n 0 =
        take-replicate n size (omega (arith, bounds)) in
      let signed : (ltb len (2 ^ 31) && leb (2 ^ 31) (rounded size len)) ≡ false =
        ground (arith, bounds) in
      let short : ltb len (2 ^ 31) ≡ true = ground arith in
      let total : length (padded size bytes) ≡ rounded size len =
        length-padded size bytes z.some_bytes in
      let head = chunk_header_bytes (record {
        chunk_type = chunk_type_raw;
        chunk_sz = rounded size len / size;
        total_sz = chunk_header_len + rounded size len;
      }) in
      let field : u32 (chunk_header_len + rounded size len) ≡ chunk_header_len + rounded size len =
        omega (arith, bounds) in
      let f1 = r.after out.fd head in
      let f2 = r.after f1 bytes in
      let write_head = file_write-ok ops r force info out head in
      let write_bytes = file_write-ok ops r force info (record out { fd = f1 }) bytes in
      let write_zeros = filled-write (record out { fd = f2 }) n in
      let crc =
        crc-filled (sparse_crc32 out.crc32 bytes) n
        ∙ sparse_crc32-append out.crc32 bytes (replicate n 0) in
      let sums : u64 (out.cur_out_ptr + rounded size len)
          ≡ length (expand_all size items) + length (padded size bytes) =
        omega (arith, bounds, total, w.ptr) in
      let base = w.head ++ encode_all size items in
      let zs : List ℕ = replicate n 0 in
      let parts : ((base ++ head) ++ bytes) ++ zs ≡ base ++ (head ++ (bytes ++ zs)) =
        append_assoc (base ++ head) bytes zs ∙ append_assoc base head (bytes ++ zs) in
      let there : AtEnd r (filled f2 n) (((base ++ head) ++ bytes) ++ zs) =
        AtEnd-filled f2 ((base ++ head) ++ bytes) n
          (AtEnd-after r bytes (AtEnd-after r head w.at_end)) in
      let at_end : AtEnd r (filled f2 n) (base ++ encode size (raw (padded size bytes))) =
        rw total (rw parts at there) in
      let whole : length (padded size bytes) % size ≡ 0 =
        ap (λ (t : ℕ). t % size) total ∙ mul-mod_left _ size in
      (
        grown r size out items (raw (padded size bytes)) (filled f2 n),
        rw (up, zero_len, enough, signed, field, write_head, short, write_bytes)
            (rw (up, zero_len, zeros, write_zeros, ◌>>=◌)
              (rw (up, zero_len, zeros, crc, sums, w.count, w.crc) refl)),
        Written-snoc r size (raw (padded size bytes)) (filled f2 n) w
            (whole, omega (arith, total, bounds)) at_end,
        omega (arith, total, w.ptr),
      )
