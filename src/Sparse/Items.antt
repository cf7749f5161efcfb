-- ===== src/Sparse/Items.antt =====
-- The chunks of a sparse image: how each is written, and what it stands for.
use android_tools.Common.{
  ℕ, ◌+◌, ◌*◌, ◌/◌, ◌%◌, ◌^◌, ◌<◌, ◌≡◌, refl, ap, sym, ◌∙◌, arith, List, [], ◌∷◌, ◌++◌, length,
  replicate, length-replicate, length-append,
}
use mathlib.Core.List.{append_assoc, append-nil}
use native.Mathlib.Nat.{div-add-mod'}
use android_tools.Sparse.{
  ChunkHeader, chunk_type_raw, chunk_type_dont_care, chunk_header_len, chunk_header_bytes,
}

pub data Item : Type 0 where
  skip : ℕ → Item
  raw : List ℕ → Item

module _ (size : ℕ) where
  abbrev pub header : Item → ChunkHeader
  header (skip n) = record {
    chunk_type = chunk_type_dont_care;
    chunk_sz = n;
    total_sz = chunk_header_len;
  }
  header (raw bytes) = record {
    chunk_type = chunk_type_raw;
    chunk_sz = length bytes / size;
    total_sz = chunk_header_len + length bytes;
  }

  abbrev pub payload : Item → List ℕ
  payload (skip n) = []
  payload (raw bytes) = bytes

  -- the bytes of the chunk in the sparse file
  abbrev pub encode : Item → List ℕ
  encode item = chunk_header_bytes (header item) ++ payload item

  -- the bytes of the image that it stands for
  abbrev pub expand : Item → List ℕ
  expand (skip n) = replicate (n * size) 0
  expand (raw bytes) = bytes

  abbrev pub encode_all : List Item → List ℕ
  encode_all [] = []
  encode_all (i ∷ items) = encode i ++ encode_all items

  abbrev pub expand_all : List Item → List ℕ
  expand_all [] = []
  expand_all (i ∷ items) = expand i ++ expand_all items

  abbrev pub blocks : List Item → ℕ
  blocks [] = 0
  blocks (i ∷ items) = (header i).chunk_sz + blocks items

  -- A chunk of whole blocks, whose numbers fit their fields.
  abbrev pub IsItem : Item → Type 0
  IsItem (skip n) = n < 2 ^ 32
  IsItem (raw bytes) = (length bytes % size ≡ 0) × (chunk_header_len + length bytes < 2 ^ 32)

  abbrev pub AreItems : List Item → Type 0
  AreItems [] = Unit {0}
  AreItems (i ∷ items) = IsItem i × AreItems items

  pub encode_all-append :
      (xs ys : List Item) → encode_all (xs ++ ys) ≡ encode_all xs ++ encode_all ys
  encode_all-append [] ys = refl
  encode_all-append (i ∷ xs) ys =
      ap (λ l. encode i ++ l) (encode_all-append xs ys)
      ∙ sym (append_assoc (encode i) (encode_all xs) (encode_all ys))

  pub expand_all-append :
      (xs ys : List Item) → expand_all (xs ++ ys) ≡ expand_all xs ++ expand_all ys
  expand_all-append [] ys = refl
  expand_all-append (i ∷ xs) ys =
      ap (λ l. expand i ++ l) (expand_all-append xs ys)
      ∙ sym (append_assoc (expand i) (expand_all xs) (expand_all ys))

  pub AreItems-append :
      (xs : List Item) (ys : List Item) → AreItems xs → AreItems ys → AreItems (xs ++ ys)
  AreItems-append [] ys a b = b
  AreItems-append (i ∷ xs) ys a b = (a.0, AreItems-append xs ys a.1 b)

  pub encode_all-snoc :
      (xs : List Item) (i : Item) → encode_all (xs ++ (i ∷ [])) ≡ encode_all xs ++ encode i
  encode_all-snoc xs i =
      encode_all-append xs (i ∷ []) ∙ ap (λ l. encode_all xs ++ l) (append-nil (encode i))

  pub expand_all-snoc :
      (xs : List Item) (i : Item) → expand_all (xs ++ (i ∷ [])) ≡ expand_all xs ++ expand i
  expand_all-snoc xs i =
      expand_all-append xs (i ∷ []) ∙ ap (λ l. expand_all xs ++ l) (append-nil (expand i))

  expand-whole : (i : Item) → IsItem i → length (expand i) ≡ (header i).chunk_sz * size
  expand-whole (skip n) v = length-replicate {A = ℕ} (n * size) 0
  expand-whole (raw bytes) v = omega (arith, div-add-mod' (length bytes) size, v)

  pub expand_all-whole :
      (items : List Item) → AreItems items → length (expand_all items) ≡ blocks items * size
  expand_all-whole [] v = omega arith
  expand_all-whole (i ∷ items) v = omega (
    arith,
    length-append (expand i) (expand_all items),
    expand-whole i v.0,
    expand_all-whole items v.1,
  )

  pub blocks-append : (xs ys : List Item) → blocks (xs ++ ys) ≡ blocks xs + blocks ys
  blocks-append [] ys = omega arith
  blocks-append (i ∷ xs) ys = omega (arith, blocks-append xs ys)
