-- ===== src/Sparse/Output/Reliable.antt =====
-- Operations on files that succeed, as those of the operating system do while there is room: all
-- bytes are written, at the place where the file stands.
use android_tools.Common.{
  ℕ, zero, suc, ◌+◌, ◌-◌, ◌*◌, ◌/◌, ◌^◌, ◌<◌, ◌≡◌, refl, ap, sym, ◌∙◌, arith, Bool, false, List, [],
  ◌++◌, some, ◌==◌, ltb, if◌then◌else◌, length, take, replicate, length-replicate, done,
}
use native.Mathlib.Nat.{div-lt_iff_lt-mul}
use android_tools.Common.Bits.{bit_and_high, bit_and_ones, two_pow-add, two_pow_pos, bit_xor_cancel}
use android_tools.Crc.{sparse_crc32, crc_loop, all_ones}
use android_tools.Crc.Laws.{sparse_crc32-append}
use android_tools.Fs.{FsInfo, u32}
use android_tools.Group.{ok}
use android_tools.Sparse.Image.{Image, write_at, seek_set, write_at-behind, take-all, replicate-add}
use android_tools.Sparse.Output.{Ops, OutputFile, file_seek, file_write, crc_zeros, round_up}

pub record IsReliable {F : Type 0} (ops : Ops F) : Type 0 where
  pub view : F → Image
  pub after : F → List ℕ → F
  pub moved : F → ℕ → F
  pub write_all :
      (f : F) (bytes : List ℕ) → ops.write f bytes ≡ (some (length bytes), after f bytes)
  pub seek_all : (f : F) (off : ℕ) → ops.seek f off ≡ (some off, moved f off)
  pub view-after : (f : F) (bytes : List ℕ) → view (after f bytes) ≡ write_at (view f) bytes
  pub view-moved : (f : F) (off : ℕ) → view (moved f off) ≡ seek_set (view f) off

-- A file that is kept in memory.
abbrev pub memory_file : Ops Image
memory_file = record {
  seek = λ im off. (some off, seek_set im off);
  write = λ im bytes. (some (length bytes), write_at im bytes);
}

abbrev pub memory_file-IsReliable : IsReliable memory_file
memory_file-IsReliable = record {
  view = λ im. im;
  after = write_at;
  moved = seek_set;
  write_all = λ f bytes. refl;
  seek_all = λ f off. refl;
  view-after = λ f bytes. refl;
  view-moved = λ f off. refl;
}

module _ {F : Type 0} (ops : Ops F) (r : IsReliable ops) (force : Bool) (info : FsInfo) where
  pub file_write-ok :
      (out : OutputFile F) (bytes : List ℕ)
      → file_write ops force info out bytes ≡ done (ok, record out { fd = r.after out.fd bytes })
  unfolding file_write
  file_write-ok out bytes =
      let e = r.write_all out.fd bytes in
      let whole : ltb (length bytes) (length bytes) ≡ false = ground arith in
      rw (e, file_write) (rw whole refl)

  pub file_seek-ok :
      (out : OutputFile F) (off : ℕ)
      → file_seek ops force info out off ≡ done (ok, record out { fd = r.moved out.fd off })
  unfolding file_seek
  file_seek-ok out off = let e = r.seek_all out.fd off in rw (e, file_seek) refl

pred_mul : (a b : ℕ) → 0 < a → (a - 1) * b + b ≡ a * b
pred_mul zero b h = absurd (omega arith)
pred_mul (suc a) b h = let less : suc a - 1 ≡ a = omega arith in rw less (omega arith)

pub write_at-end :
    (im : Image) (bytes : List ℕ)
    → im.pos ≡ length im.contents
    → write_at im bytes ≡ record { contents = im.contents ++ bytes; pos = im.pos + length bytes }
write_at-end im bytes e =
    let no_gap : im.pos - length im.contents ≡ 0 = omega arith in
    write_at-behind im bytes (omega arith) ∙ rw no_gap refl

pub sparse_crc32-nil : (crc : ℕ) → sparse_crc32 crc [] ≡ crc
unfolding sparse_crc32 crc_loop
sparse_crc32-nil crc = bit_xor_cancel crc all_ones

module _ {F : Type 0} (ops : Ops F) (force : Bool) (info : FsInfo) (pos : 0 < info.block_size) where
  crc_zeros_step :
      (fuel n crc : ℕ)
      → crc_zeros ops force info (suc fuel) (suc n * info.block_size) crc
        ≡ crc_zeros ops force info fuel
            (n * info.block_size)
            (sparse_crc32 crc (replicate info.block_size 0))
  unfolding crc_zeros
  crc_zeros_step fuel n crc =
      let size = info.block_size in
      let more : (suc n * size == 0) ≡ false = ground arith in
      let chunk : (if ltb size (suc n * size) then size else suc n * size) ≡ size = ground arith in
      let rest : suc n * size - size ≡ n * size = omega arith in
      let whole : take size (replicate size 0) ≡ replicate size 0 =
        take-all size (replicate size 0) (omega (arith, length-replicate {A = ℕ} size 0)) in
      rw (more, crc_zeros) (rw (chunk, rest, whole) refl)

  -- A round for each block of zeros, and one that finds there is none left.
  pub crc_zeros_lem :
      (fuel n crc : ℕ)
      → n < fuel
      → crc_zeros ops force info fuel (n * info.block_size) crc
        ≡ done (sparse_crc32 crc (replicate (n * info.block_size) 0))
  crc_zeros_lem zero n crc h = absurd (omega arith)
  crc_zeros_lem (suc fuel) zero crc h =
      let none_left : 0 * info.block_size ≡ 0 = omega arith in
      rw none_left (unfold crc_zeros in ap done (sym (sparse_crc32-nil crc)))
  crc_zeros_lem (suc fuel) (suc n) crc h =
      let size = info.block_size in
      let sum : suc n * size ≡ size + n * size = omega arith in
      crc_zeros_step fuel n crc
      ∙ crc_zeros_lem fuel n (sparse_crc32 crc (replicate size 0)) (omega arith)
      ∙ ap done (
          sparse_crc32-append crc (replicate size 0) (replicate (n * size) 0)
          ∙ ap (sparse_crc32 crc)
              (sym (replicate-add size (n * size)) ∙ ap (λ (t : ℕ). replicate t 0) (sym sum)))

  -- The rounding of the source, for a block size that is a power of two.
  pub round_up_lem :
      (j k len : ℕ)
      → j + k ≡ 32
      → info.block_size ≡ 2 ^ k
      → len + info.block_size < 2 ^ 32
      → round_up ops force info len
        ≡ (len + info.block_size - 1) / info.block_size * info.block_size
  unfolding round_up
  round_up_lem j k len split power fits =
      let size = info.block_size in
      let mask : u32 (size + 2 ^ 32 - 1) ≡ size - 1 = omega arith in
      let sum : u32 (len + (size - 1)) ≡ len + size - 1 = omega arith in
      let both : 2 ^ 32 ≡ 2 ^ j * 2 ^ k = ap (λ (t : ℕ). 2 ^ t) (sym split) ∙ two_pow-add j k in
      let ones : 2 ^ 32 - 1 - (size - 1) ≡ (2 ^ j - 1) * 2 ^ k =
        omega (arith, pred_mul (2 ^ j) (2 ^ k) (two_pow_pos j)) in
      let small : (len + size - 1) / 2 ^ k < 2 ^ j =
        (div-lt_iff_lt-mul {k = 2 ^ k} (two_pow_pos k)).1 (omega arith) in
      rw (mask, sum, ones)
        (bit_and_high k (2 ^ j - 1) (len + size - 1)
          ∙ ap (λ (t : ℕ). t * 2 ^ k) (bit_and_ones j ((len + size - 1) / 2 ^ k) small)
          ∙ ap (λ (t : ℕ). (len + size - 1) / t * t) (sym power))
