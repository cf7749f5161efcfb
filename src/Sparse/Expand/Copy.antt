-- ===== src/Sparse/Expand/Copy.antt =====
-- Calls of stdio that succeed, and the copying of the data of a chunk.
use android_tools.Common.{
  ℕ, zero, suc, ◌+◌, ◌-◌, ◌*◌, ◌≤◌, ◌<◌, ◌≡◌, refl, ap, sym, ◌∙◌, arith, false, List, [], ◌∷◌, ◌++◌,
  none, some, ◌==◌, ltb, if◌then◌else◌, length, take, drop, length-take, length-drop,
  take-append-drop, length-append, Run, done, min,
}
use mathlib.Core.List.{append_assoc, append-nil}
use android_tools.Crc.{sparse_crc32}
use android_tools.Crc.Laws.{sparse_crc32-append}
use android_tools.Sparse.Image.{
  Image, Sees, Sees-write, write_at, seek_cur, truncate, take-append, drop-append,
}
use android_tools.Sparse.Output.Reliable.{sparse_crc32-nil}
use android_tools.Sparse.Expand.{Stdio, copy_raw, copy_buf_size}

-- A read gives the bytes that come next while there are so many, and the other calls succeed, with
-- their effect on the output as on a file.
pub record IsReliableStdio {I O : Type 0} (std : Stdio I O) : Type 0 where
  pub rest : I → List ℕ
  pub advanced : I → ℕ → I
  pub read_all :
      (i : I) (n : ℕ) → n ≤ length (rest i) → std.read i n ≡ some (take n (rest i), advanced i n)
  pub rest-advanced : (i : I) (n : ℕ) → rest (advanced i n) ≡ drop n (rest i)
  pub view : O → Image
  pub written : O → List ℕ → O
  pub write_all : (o : O) (bytes : List ℕ) → std.write o bytes ≡ some (written o bytes)
  pub view-written : (o : O) (bytes : List ℕ) → view (written o bytes) ≡ write_at (view o) bytes
  pub view-skip_out : (o : O) (n : ℕ) → view (std.skip_out o n) ≡ seek_cur (view o) n
  pub cut : O → ℕ → O
  pub truncate_all : (o : O) (n : ℕ) → std.truncate o n ≡ some (cut o n)
  pub view-cut : (o : O) (n : ℕ) → view (cut o n) ≡ truncate (view o) n

-- The input and the output in memory.
abbrev pub memory_stdio : Stdio (List ℕ) Image
memory_stdio = record {
  read = λ i n. if ltb (length i) n then none else some (take n i, drop n i);
  skip_in = λ i n. drop n i;
  write = λ o bytes. some (write_at o bytes);
  skip_out = seek_cur;
  truncate = λ o n. some (truncate o n);
}

abbrev pub memory_stdio-IsReliableStdio : IsReliableStdio memory_stdio
memory_stdio-IsReliableStdio = record {
  rest = λ i. i;
  advanced = λ i n. drop n i;
  read_all = λ i n h. (let enough : ltb (length i) n ≡ false = ground arith in rw enough refl);
  rest-advanced = λ i n. refl;
  view = λ o. o;
  written = write_at;
  write_all = λ o bytes. refl;
  view-written = λ o bytes. refl;
  view-skip_out = λ o n. refl;
  cut = truncate;
  truncate_all = λ o n. refl;
  view-cut = λ o n. refl;
}

-- what a round copies, and what is left
abbrev front : List ℕ → List ℕ
front bytes = take (min copy_buf_size (length bytes)) bytes

abbrev back : List ℕ → List ℕ
back bytes = drop (min copy_buf_size (length bytes)) bytes

round_lem :
    (fuel : ℕ) (bytes : List ℕ)
    → 0 < length bytes
    → length bytes + copy_buf_size ≤ suc fuel * copy_buf_size
    → ((if ltb copy_buf_size (length bytes) then copy_buf_size else length bytes)
        ≡ length (front bytes))
      × (length bytes - length (front bytes) ≡ length (back bytes))
      × (length (back bytes) + copy_buf_size ≤ fuel * copy_buf_size)
      × ((length bytes == 0) ≡ false)
round_lem fuel bytes some_bytes few =
    let a : length (front bytes) ≡ min (min copy_buf_size (length bytes)) (length bytes) =
      length-take (min copy_buf_size (length bytes)) bytes in
    let b : length (back bytes) ≡ length bytes - min copy_buf_size (length bytes) =
      length-drop (min copy_buf_size (length bytes)) bytes in
    (ground (arith, a), omega (arith, a, b), omega (arith, b), ground arith)

module _ {I O : Type 0} {std : Stdio I O} (r : IsReliableStdio std) where
  pub read-append :
      (i : I) (bytes more : List ℕ)
      → r.rest i ≡ bytes ++ more
      → (std.read i (length bytes) ≡ some (bytes, r.advanced i (length bytes)))
        × (r.rest (r.advanced i (length bytes)) ≡ more)
  read-append i bytes more e =
      let enough : length bytes ≤ length (r.rest i) =
        omega (arith, ap length e, length-append bytes more) in
      let front = ap (take (length bytes)) e ∙ take-append bytes more in
      (
        r.read_all i (length bytes) enough ∙ ap (λ l. some (l, r.advanced i (length bytes))) front,
        r.rest-advanced i (length bytes) ∙ ap (drop (length bytes)) e ∙ drop-append bytes more,
      )

  -- What a loop leaves that has copied `bytes` of the input.
  pub record Copied (result : Run (I × O × ℕ)) (crc : ℕ) (bytes more image : List ℕ) : Type 0 where
    pub input : I
    pub output : O
    pub run : result ≡ done (input, output, sparse_crc32 crc bytes)
    pub remains : r.rest input ≡ more
    pub sees : Sees (r.view output) (image ++ bytes)

  pub copy_raw-Copied :
      (fuel : ℕ) (i : I) (o : O) (crc : ℕ) (bytes more image : List ℕ)
      → length bytes + copy_buf_size ≤ fuel * copy_buf_size
      → r.rest i ≡ bytes ++ more
      → Sees (r.view o) image
      → Copied (copy_raw std fuel i o (length bytes) crc) crc bytes more image
  unfolding copy_raw
  copy_raw-Copied zero i o crc bytes more image few e s = absurd (omega arith)
  copy_raw-Copied (suc fuel) i o crc [] more image few e s = record {
    input = i;
    output = o;
    run = ap (λ (t : ℕ). done (i, o, t)) (sym (sparse_crc32-nil crc));
    remains = e;
    sees = let same = append-nil image in rw same s;
  }
  copy_raw-Copied (suc fuel) i o crc (b ∷ bs) more image few e s =
      let bytes = b ∷ bs in
      let piece = front bytes in
      let left = back bytes in
      let parts : piece ++ left ≡ bytes =
        take-append-drop (min copy_buf_size (length bytes)) bytes in
      let (count, rest_len, fewer, some_left) = round_lem fuel bytes (omega arith) few in
      let (read, remains) =
        read-append i piece (left ++ more)
          (e ∙ ap (λ l. l ++ more) (sym parts) ∙ append_assoc piece left more) in
      let o' = r.written o piece in
      let i' = r.advanced i (length piece) in
      let seen : Sees (r.view o') (image ++ piece) =
        let v = r.view-written o piece in rw v (Sees-write (r.view o) piece s) in
      let write = r.write_all o piece in
      let next =
        copy_raw-Copied fuel i' o' (sparse_crc32 crc piece) left more (image ++ piece) fewer remains
          seen in
      record {
        input = next.input;
        output = next.output;
        run =
            rw (some_left, copy_raw, count, read)
              (rw (write, count, rest_len)
                (next.run
                  ∙ ap (λ (t : ℕ). done (next.input, next.output, t))
                      (sparse_crc32-append crc piece left ∙ ap (sparse_crc32 crc) parts)));
        remains = next.remains;
        sees =
            let all = append_assoc image piece left ∙ ap (λ l. image ++ l) parts in
            rw all at next.sees;
      }
