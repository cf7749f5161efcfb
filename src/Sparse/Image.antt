-- ===== src/Sparse/Image.antt =====
-- A file as its bytes and the place of the next write, as POSIX has it: a write behind the end
-- fills the gap with zeros.
use android_tools.Common.{
  ℕ, zero, suc, ◌+◌, ◌-◌, ◌≤◌, ◌≡◌, refl, ap, sym, ◌∙◌, arith, List, [], ◌∷◌, ◌++◌, length, take,
  drop, replicate, length-append, length-replicate,
}
use mathlib.Core.List.{append_assoc, append-nil}

pub record Image : Type 0 where
  pub contents : List ℕ
  pub pos : ℕ

-- the bytes up to length `n`, with zeros where there were none
abbrev pub sized : ℕ → List ℕ → List ℕ
sized n bytes = take n bytes ++ replicate (n - length bytes) 0

abbrev pub write_at : Image → List ℕ → Image
write_at im bytes = record {
  contents = sized im.pos im.contents ++ (bytes ++ drop (im.pos + length bytes) im.contents);
  pos = im.pos + length bytes;
}

abbrev pub seek_set : Image → ℕ → Image
seek_set im off = record im { pos = off }

abbrev pub seek_cur : Image → ℕ → Image
seek_cur im n = record im { pos = im.pos + n }

abbrev pub truncate : Image → ℕ → Image
truncate im n = record im { contents = sized n im.contents }

pub replicate-add : (n m : ℕ) → replicate (n + m) 0 ≡ replicate n 0 ++ replicate m zero
replicate-add zero m = ap (λ (t : ℕ). replicate t 0) (omega arith)
replicate-add (suc n) m =
    ap (λ (t : ℕ). replicate t 0) {x = suc n + m} {y = suc (n + m)} (omega arith)
    ∙ ap (λ xs. 0 ∷ xs) (replicate-add n m)

pub take-all : (n : ℕ) (xs : List ℕ) → length xs ≤ n → take n xs ≡ xs
take-all zero [] h = refl
take-all (suc n) [] h = refl
take-all zero (x ∷ xs) h = absurd (omega arith)
take-all (suc n) (x ∷ xs) h = ap (λ l. x ∷ l) (take-all n xs (omega arith))

pub drop-all : (n : ℕ) (xs : List ℕ) → length xs ≤ n → drop n xs ≡ []
drop-all zero [] h = refl
drop-all (suc n) [] h = refl
drop-all zero (x ∷ xs) h = absurd (omega arith)
drop-all (suc n) (x ∷ xs) h = drop-all n xs (omega arith)

pub take-append : (xs ys : List ℕ) → take (length xs) (xs ++ ys) ≡ xs
take-append [] ys = refl
take-append (x ∷ xs) ys = ap (λ l. x ∷ l) (take-append xs ys)

pub drop-append : (xs ys : List ℕ) → drop (length xs) (xs ++ ys) ≡ ys
drop-append [] ys = refl
drop-append (x ∷ xs) ys = drop-append xs ys

-- At or behind the end.
pub write_at-behind :
    (im : Image) (bytes : List ℕ)
    → length im.contents ≤ im.pos
    → write_at im bytes ≡ record {
      contents = im.contents ++ (replicate (im.pos - length im.contents) 0 ++ bytes);
      pos = im.pos + length bytes;
    }
write_at-behind im bytes h =
    let front = take-all im.pos im.contents h in
    let none_left = drop-all (im.pos + length bytes) im.contents (omega arith) in
    rw (front, none_left, append-nil bytes)
      (ap (λ l. record { contents = l; pos = im.pos + length bytes })
        (append_assoc im.contents (replicate (im.pos - length im.contents) 0) bytes))

-- The file is where a writer left it that has put out `bytes`, of which zeros at the end may be
-- missing so far.
pub record Sees (im : Image) (bytes : List ℕ) : Type 0 where
  pub here : im.pos ≡ length bytes
  pub begun : length im.contents ≤ im.pos
  pub filled : im.contents ++ replicate (im.pos - length im.contents) 0 ≡ bytes

pub Sees-write :
    (im : Image) {bytes : List ℕ} (more : List ℕ)
    → Sees im bytes
    → Sees (write_at im more) (bytes ++ more)
Sees-write im {bytes} more s =
    let gap : List ℕ = replicate (im.pos - length im.contents) 0 in
    let whole : im.contents ++ (gap ++ more) ≡ bytes ++ more =
      sym (append_assoc im.contents gap more) ∙ ap (λ l. l ++ more) s.filled in
    let size : length (bytes ++ more) ≡ im.pos + length more =
      length-append bytes more ∙ omega (arith, s.here) in
    rw (write_at-behind im more s.begun) (record {
      here = sym size;
      begun = omega (arith, ap length whole, size);
      filled =
          let full : im.pos + length more - length (im.contents ++ (gap ++ more)) ≡ 0 =
            omega (arith, ap length whole, size) in
          rw full (append-nil (im.contents ++ (gap ++ more)) ∙ whole);
    })

pub Sees-skip :
    (im : Image) {bytes : List ℕ} (n : ℕ)
    → Sees im bytes
    → Sees (seek_cur im n) (bytes ++ replicate n 0)
Sees-skip im {bytes} n s =
    let sum : im.pos + n - length im.contents ≡ (im.pos - length im.contents) + n =
      omega (arith, s.begun) in
    record {
      here =
          omega (arith, s.here, length-append bytes (replicate n 0), length-replicate {A = ℕ} n 0);
      begun = omega (arith, s.begun);
      filled =
          rw (sum, replicate-add (im.pos - length im.contents) n)
            (sym (
                append_assoc im.contents (replicate (im.pos - length im.contents) 0)
                  (replicate n 0))
              ∙ ap (λ l. l ++ replicate n 0) s.filled);
    }

-- `ftruncate` to the length that was put out.
pub truncate-Sees :
    (im : Image) {bytes : List ℕ} → Sees im bytes → (truncate im (length bytes)).contents ≡ bytes
truncate-Sees im {bytes} s =
    let back = sym s.here in rw back (rw (take-all im.pos im.contents s.begun) s.filled)

-- The first bytes written over, by as many others.
pub write_at-front :
    (im : Image) (old new rest : List ℕ)
    → im.contents ≡ old ++ rest
    → length new ≡ length old
    → (write_at (seek_set im 0) new).contents ≡ new ++ rest
write_at-front im old new rest e same =
    let count : 0 + length new ≡ length old = omega (arith, same) in
    let no_gap : 0 - length (old ++ rest) ≡ 0 = omega arith in
    rw (e, count, no_gap) (ap (λ l. new ++ l) (drop-append old rest))
