-- ===== src/Sparse/Expand/Skip.antt =====
-- The skip of blocks: the output moves on, and the checksum takes in as many zeros, if `zerobuf` is
-- zeros and its size divides the longest seek.
use android_tools.Common.{
  ℕ, zero, suc, ◌+◌, ◌-◌, ◌*◌, ◌^◌, ◌≤◌, ◌<◌, ◌≡◌, refl, ap, sym, ◌∙◌, arith, false, List, ◌++◌,
  ◌==◌, ltb, if◌then◌else◌, take, replicate, length-replicate, Run, done,
}
use mathlib.Core.List.{append_assoc, append-nil}
use native.Mathlib.Decide.{dec_lt}
use native.Mathlib.Nat.{mul-le-mul}
use android_tools.Crc.{sparse_crc32}
use android_tools.Crc.Laws.{sparse_crc32-append}
use android_tools.Fs.{u64}
use android_tools.Sparse.Image.{Sees, Sees-skip, take-all, replicate-add}
use android_tools.Sparse.Output.Reliable.{sparse_crc32-nil}
use android_tools.Sparse.Expand.{Stdio, seek_over, crc_skipped}
use android_tools.Sparse.Expand.Copy.{IsReliableStdio}

module _ (size : ℕ) (pos : 0 < size) where
  crc_skipped_step :
      (fuel n chunk crc : ℕ)
      → size ≤ chunk
      → suc n * size < 2 ^ 64
      → crc_skipped (replicate size 0) size (suc fuel) (suc n * size) chunk crc
        ≡ crc_skipped
            (replicate size 0)
            size
            fuel
            (n * size)
            size
            (sparse_crc32 crc (replicate size 0))
  unfolding crc_skipped
  crc_skipped_step fuel n chunk crc le fits =
      let more : (suc n * size == 0) ≡ false = ground arith in
      let block : (if ltb size chunk then size else chunk) ≡ size = ground arith in
      let rest : u64 (suc n * size + 2 ^ 64 - size) ≡ n * size = omega arith in
      let whole : take size (replicate size 0) ≡ replicate size 0 =
        take-all size (replicate size 0) (omega (arith, length-replicate {A = ℕ} size 0)) in
      rw (more, crc_skipped) (rw (block, rest, whole) refl)

  pub crc_skipped_lem :
      (fuel n chunk crc : ℕ)
      → n < fuel
      → size ≤ chunk
      → n * size < 2 ^ 64
      → crc_skipped (replicate size 0) size fuel (n * size) chunk crc
        ≡ done (sparse_crc32 crc (replicate (n * size) 0))
  crc_skipped_lem zero n chunk crc h le fits = absurd (omega arith)
  crc_skipped_lem (suc fuel) zero chunk crc h le fits =
      let none_left : 0 * size ≡ 0 = omega arith in
      rw none_left (unfold crc_skipped in ap done (sym (sparse_crc32-nil crc)))
  crc_skipped_lem (suc fuel) (suc n) chunk crc h le fits =
      let sum : suc n * size ≡ size + n * size = omega arith in
      crc_skipped_step fuel n chunk crc le fits
      ∙ crc_skipped_lem fuel n size (sparse_crc32 crc (replicate size 0)) (omega arith)
          (omega arith) (omega arith)
      ∙ ap done (
          sparse_crc32-append crc (replicate size 0) (replicate (n * size) 0)
          ∙ ap (sparse_crc32 crc)
              (sym (replicate-add size (n * size)) ∙ ap (λ (t : ℕ). replicate t 0) (sym sum)))

module _ {I O : Type 0} {std : Stdio I O} (r : IsReliableStdio std) (size longest t : ℕ)
    (pos : 0 < size) (is_longest : longest ≡ 2 ^ 31) (divides : longest ≡ t * size) where
  -- What the seeks leave behind: the place, and their last step.
  pub record Sought (result : Run (O × ℕ)) (len : ℕ) (image : List ℕ) : Type 0 where
    pub output : O
    pub step : ℕ
    pub run : result ≡ done (output, step)
    pub sees : Sees (r.view output) (image ++ replicate len 0)
    pub enough : size ≤ step

  Sees-skip_out :
      (o : O) (image : List ℕ) (n : ℕ)
      → Sees (r.view o) image
      → Sees (r.view (std.skip_out o n)) (image ++ replicate n 0)
  Sees-skip_out o image n s = let v = r.view-skip_out o n in rw v (Sees-skip (r.view o) n s)

  Sees-joined :
      (o : O) (image : List ℕ) (k m n : ℕ)
      → n ≡ k + m
      → Sees (r.view o) ((image ++ replicate k 0) ++ replicate m 0)
      → Sees (r.view o) (image ++ replicate n 0)
  Sees-joined o image k m n e s =
      let all : (image ++ replicate k 0) ++ replicate m zero ≡ image ++ replicate n 0 =
        append_assoc image (replicate k 0) (replicate m 0)
        ∙ ap (λ l. image ++ l) (sym (replicate-add k m) ∙ ap (λ (u : ℕ). replicate u 0) (sym e)) in
      rw all at s

  some_times : 0 < t
  some_times = elim (dec_lt 0 t) [
    | yes lt ↦ lt
    | no le ↦ absurd (
        let zero_times : t * size ≤ 0 * size = mul-le-mul (omega arith) (omega arith) in
        omega (arith, zero_times, divides))
  ]

  at_most_longest : size ≤ longest
  at_most_longest =
      let bound : 1 * size ≤ t * size = mul-le-mul some_times (omega arith) in
      omega (arith, bound, divides)

  -- The blocks that are left after a longest seek.
  after_longest : (n : ℕ) → longest < n * size → (t < n) × (n * size ≡ longest + (n - t) * size)
  after_longest n h =
      let more : t < n = elim (dec_lt t n) [
        | yes lt ↦ lt
        | no le ↦ absurd (
            let bound : n * size ≤ t * size = mul-le-mul (omega arith) (omega arith) in
            omega (arith, bound, divides))
      ] in
      (
        more,
        ap (λ (u : ℕ). u * size) {x = n} {y = t + (n - t)} (omega arith) ∙ omega (arith, divides),
      )

  seek_step :
      (fuel len chunk last : ℕ) (o : O)
      → 0 < len
      → (if ltb (2 ^ 31) len then 2 ^ 31 else len) ≡ chunk
      → seek_over std (suc fuel) o len last
        ≡ seek_over std fuel (std.skip_out o chunk) (len - chunk) chunk
  unfolding seek_over
  seek_step fuel len chunk last o some_left e =
      let more : (len == 0) ≡ false = ground arith in rw (more, seek_over) (rw e refl)

  further :
      (fuel len chunk left last : ℕ) (o : O) (image : List ℕ)
      → 0 < len
      → (if ltb (2 ^ 31) len then 2 ^ 31 else len) ≡ chunk
      → len ≡ chunk + left
      → Sought
          (seek_over std fuel (std.skip_out o chunk) left chunk)
          left
          (image ++ replicate chunk 0)
      → Sought (seek_over std (suc fuel) o len last) len image
  further fuel len chunk left last o image some_left e split next =
      let rest : len - chunk ≡ left = omega arith in
      record {
        output = next.output;
        step = next.step;
        run =
            seek_step fuel len chunk last o some_left e
            ∙ ap (λ (u : ℕ). seek_over std fuel (std.skip_out o chunk) u chunk) rest
            ∙ next.run;
        sees = Sees-joined next.output image chunk left len split next.sees;
        enough = next.enough;
      }

  pub seek_over-Sought :
      (fuel n last : ℕ) (o : O) (image : List ℕ)
      → n * size + 2 ^ 31 ≤ fuel * 2 ^ 31
      → size ≤ last + n * size
      → Sees (r.view o) image
      → Sought (seek_over std fuel o (n * size) last) (n * size) image
  unfolding seek_over
  seek_over-Sought zero n last o image few le s = absurd (omega arith)
  seek_over-Sought (suc fuel) zero last o image few le s =
      let none_left : 0 * size ≡ 0 = omega arith in
      rw none_left (record {
        output = o;
        step = last;
        run = refl;
        sees = let same = append-nil image in rw same s;
        enough = omega arith;
      })
  seek_over-Sought (suc fuel) (suc n) last o image few le s = elim (dec_lt longest (suc n * size)) [
    | yes lt ↦
        let (fewer, split) = after_longest (suc n) lt in
        let left : suc n * size - longest ≡ (suc n - t) * size = omega (arith, split) in
        let next =
          seek_over-Sought fuel (suc n - t) longest (std.skip_out o longest)
            (image ++ replicate longest 0) (omega (arith, split)) (omega (arith, at_most_longest))
            (Sees-skip_out o image longest s) in
        further fuel (suc n * size) longest ((suc n - t) * size) last o image (omega arith)
          (ground (arith, is_longest)) split next
    | no ge ↦
        let len = suc n * size in
        let next =
          seek_over-Sought fuel 0 len (std.skip_out o len) (image ++ replicate len 0) (omega arith)
            (omega arith) (Sees-skip_out o image len s) in
        further fuel len len (0 * size) last o image (omega arith) (ground (arith, is_longest))
          (omega arith) next
  ]
