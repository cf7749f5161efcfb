-- ===== src/Sparse/Output/Errors.antt =====
-- Errors while a chunk is written: whatever the system does, none is passed over without `force`.
use android_tools.Common.{
  ℕ, ◌+◌, ◌-◌, ◌*◌, ◌/◌, ◌%◌, ◌^◌, ◌<◌, ◌≡◌, refl, ap, sym, ◌∙◌, arith, Bool, true, false, not,
  ◌||◌, ◌&&◌, List, Option, none, some, ◌==◌, ltb, leb, if◌then◌else◌, length, take, Run, done,
  exited, ◌>>=◌,
}
use native.Mathlib.Nat.{div-add-mod'}
use android_tools.Fs.{FsInfo, u32}
use android_tools.Group.{Status, ok, failed}
use android_tools.Sparse.{chunk_header_len}
use android_tools.Sparse.Output.{
  Ops, OutputFile, on_ok, after_write, file_write, write_len, emit_skip_chunk, fill_gap, raw_chunk,
  zero_buf, round_up, write_chunk_raw, crc_zeros,
}
use android_tools.Sparse.Output.Reliable.{crc_zeros_lem, round_up_lem}
use android_tools.Sparse.Output.Written.{IsSize, rounded, rounded-bounds}

-- The result of a `write` of `len` bytes is an error, or fewer bytes.
abbrev pub is_short : Option ℕ → ℕ → Bool
is_short none len = true
is_short (some ret) len = ltb ret len

-- The same calls, with a mark once a `write` has failed or was short.
abbrev pub watched : {F : Type 0} → Ops F → Ops (F × Bool)
watched ops = record {
  seek = λ f off. ((ops.seek f.0 off).0, ((ops.seek f.0 off).1, f.1));
  write = λ f bytes. (
    (ops.write f.0 bytes).0,
    ((ops.write f.0 bytes).1, f.1 || is_short (ops.write f.0 bytes).0 (length bytes)),
  );
}

-- The run exits, or returns something with `P`.
pub data IsChecked {A : Type 0} (P : A → Type 0) : Run A → Type 0 where
  returned : (a : A) → P a → IsChecked P (done a)
  stopped : IsChecked P exited

bind-IsChecked :
    {A B : Type 0} {P : A → Type 0} {Q : B → Type 0} {m : Run A} (k : A → Run B)
    → IsChecked P m
    → ((a : A) → P a → IsChecked Q (k a))
    → IsChecked Q (m >>= k)
bind-IsChecked k (returned a p) next = next a p
bind-IsChecked k stopped next = stopped

test-IsChecked :
    {A : Type 0} {P : A → Type 0} (b : Bool) {x y : Run A}
    → (b ≡ true → IsChecked P x)
    → (b ≡ false → IsChecked P y)
    → IsChecked P (if b then x else y)
test-IsChecked true h k = h refl
test-IsChecked false h k = k refl

-- No `write` has failed.
abbrev pub Unmarked : {F : Type 0} → OutputFile (F × Bool) → Type 0
Unmarked out = out.fd.1 ≡ false

-- The status is 0, and no `write` has failed.
abbrev pub Succeeds : {F : Type 0} → Status × OutputFile (F × Bool) → Type 0
Succeeds s = (s.0 ≡ ok) × Unmarked s.1

module _ {F : Type 0} (ops : Ops F) (info : FsInfo) (z : IsSize info.block_size) where
  on_ok-IsChecked :
      {m : Run (Status × OutputFile (F × Bool))}
      (k : OutputFile (F × Bool) → Run (Status × OutputFile (F × Bool)))
      → IsChecked Succeeds m
      → ((out : OutputFile (F × Bool)) → Unmarked out → IsChecked Succeeds (k out))
      → IsChecked Succeeds (on_ok (watched ops) false info m k)
  on_ok-IsChecked k (returned (ok, out) (e, w)) next = next out w
  on_ok-IsChecked k (returned (failed, out) (e, w)) next = cc
  on_ok-IsChecked k stopped next = stopped

  after_write-IsChecked :
      (out : OutputFile (F × Bool)) (len : ℕ) (bad : Bool) (result : Option ℕ) (f : F)
      → bad ≡ false
      → IsChecked Succeeds
          (after_write (watched ops) false info out len (result, (f, bad || is_short result len)))
  after_write-IsChecked out len bad none f e = stopped
  after_write-IsChecked out len bad (some ret) f e =
      test-IsChecked (ltb ret len) (λ short. stopped)
        (λ whole. returned _ (refl, rw (e, whole) refl))

  file_write-IsChecked :
      (out : OutputFile (F × Bool)) (bytes : List ℕ)
      → Unmarked out
      → IsChecked Succeeds (file_write (watched ops) false info out bytes)
  unfolding file_write
  file_write-IsChecked out bytes e =
      after_write-IsChecked out (length bytes) out.fd.1 (ops.write out.fd.0 bytes).0
        (ops.write out.fd.0 bytes).1 e

  write_len-IsChecked :
      (out : OutputFile (F × Bool)) (bytes : List ℕ)
      → length bytes < 2 ^ 31
      → Unmarked out
      → IsChecked Succeeds (write_len (watched ops) false info out bytes)
  write_len-IsChecked out bytes short e =
      let test : ltb (length bytes) (2 ^ 31) ≡ true = ground arith in
      rw test (file_write-IsChecked out bytes e)

  write_zeros-IsChecked :
      (out : OutputFile (F × Bool)) (n : ℕ) (zeros : List ℕ)
      → Unmarked out
      → IsChecked Succeeds
          (if n == 0 then done (ok, out) else file_write (watched ops) false info out zeros)
  write_zeros-IsChecked out n zeros e =
      test-IsChecked (n == 0) (λ none_left. returned (ok, out) (refl, e))
        (λ some_left. file_write-IsChecked out zeros e)

  no_fault : (info.block_size == 0) ≡ false
  no_fault = ground (arith, z.some_bytes)

  emit_skip_chunk-IsChecked :
      (out : OutputFile (F × Bool)) (skip_len : ℕ)
      → Unmarked out
      → IsChecked Succeeds (emit_skip_chunk (watched ops) false info out skip_len)
  unfolding emit_skip_chunk
  emit_skip_chunk-IsChecked out skip_len e = rw no_fault (
      test-IsChecked (not (skip_len % info.block_size == 0)) (λ bad. stopped)
        λ whole.
          let n = skip_len / info.block_size in
          let multiple : n * info.block_size ≡ skip_len =
            ground (arith, div-add-mod' skip_len info.block_size) in
          on_ok-IsChecked _ (file_write-IsChecked out _ e) λ out w.
            let zeros =
              ap (λ (t : ℕ). crc_zeros (watched ops) false info (2 + n) t out.crc32) (sym multiple)
              ∙ crc_zeros_lem (watched ops) false info z.some_bytes (2 + n) n out.crc32
                  (omega arith) in
            rw (zeros, ◌>>=◌) (returned _ (refl, w)))

  fill_gap-IsChecked :
      (out : OutputFile (F × Bool)) (off : ℕ)
      → Unmarked out
      → IsChecked Unmarked (fill_gap (watched ops) false info out off)
  fill_gap-IsChecked out off e =
      test-IsChecked (ltb out.cur_out_ptr off)
        (λ gap.
          bind-IsChecked _ (emit_skip_chunk-IsChecked out (off - out.cur_out_ptr) e)
            λ s w. returned s.1 w.1)
        (λ none_left. returned out e)

  raw_chunk-IsChecked :
      (out : OutputFile (F × Bool)) (bytes : List ℕ)
      → chunk_header_len + length bytes + info.block_size < 2 ^ 31
      → Unmarked out
      → IsChecked Succeeds (raw_chunk (watched ops) false info out bytes)
  unfolding raw_chunk
  raw_chunk-IsChecked out bytes small e =
      let len = length bytes in
      let size = info.block_size in
      let bounds = rounded-bounds size len z.some_bytes in
      let up : round_up (watched ops) false info len ≡ rounded size len =
        round_up_lem (watched ops) false info z.some_bytes z.high z.low len z.split z.power
          (omega arith) in
      let zero_len : u32 (rounded size len + 2 ^ 32 - len) ≡ rounded size len - len =
        omega (arith, bounds) in
      let enough : ltb size (rounded size len - len) ≡ false = ground (arith, bounds) in
      let signed : (ltb len (2 ^ 31) && leb (2 ^ 31) (rounded size len)) ≡ false =
        ground (arith, bounds) in
      let n = u32 (round_up (watched ops) false info len + 2 ^ 32 - len) in
      let same : n ≡ rounded size len - len =
        ap (λ (t : ℕ). u32 (t + 2 ^ 32 - len)) up ∙ zero_len in
      let enough' : ltb size n ≡ false = ap (ltb size) same ∙ enough in
      let signed' : (ltb len (2 ^ 31) && leb (2 ^ 31) (round_up (watched ops) false info len))
          ≡ false =
        ap (λ (t : ℕ). ltb len (2 ^ 31) && leb (2 ^ 31) t) up ∙ signed in
      rw (enough', signed')
        (on_ok-IsChecked _ (file_write-IsChecked out _ e) λ out w.
          on_ok-IsChecked _ (write_len-IsChecked out bytes (omega arith) w) λ out w.
            on_ok-IsChecked _ (write_zeros-IsChecked out n (take n (zero_buf info)) w)
              λ out w. returned _ (refl, w))

  -- Without `force`, with a block size that is a power of two below `2 ^ 31`, and bytes whose
  -- count, the 12 bytes of a chunk header and one block stay below `2 ^ 31`: whatever the calls of
  -- the system return, `write_chunk_raw` exits or returns 0, with no write behind the end of a
  -- buffer and no loop that goes on for ever; and where it returns, none of the `write` calls that
  -- it made, for a gap, the header, the bytes or their filling, has failed or written fewer bytes
  -- than asked for.
  pub write_chunk_raw-IsChecked :
      (out : OutputFile (F × Bool)) (off : ℕ) (bytes : List ℕ)
      → chunk_header_len + length bytes + info.block_size < 2 ^ 31
      → Unmarked out
      → IsChecked Succeeds (write_chunk_raw (watched ops) false info out off bytes)
  unfolding write_chunk_raw
  write_chunk_raw-IsChecked out off bytes small e =
      test-IsChecked (ltb off out.cur_out_ptr) (λ before. stopped)
        λ behind. bind-IsChecked _ (fill_gap-IsChecked out off e) λ out w. rw no_fault (
          test-IsChecked (not (off % info.block_size == 0)) (λ bad. stopped)
            λ aligned.
              test-IsChecked (not (off == out.cur_out_ptr)) (λ bad. stopped)
                λ here. raw_chunk-IsChecked out bytes small w)
