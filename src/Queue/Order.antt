-- ===== src/Queue/Order.antt =====
-- The queue of img-db/ext4_utils/backed_block.c as the sequence of its entries.
use android_tools.Common.{
  ℕ, suc, ◌≤◌, length, ◌≡◌, ◌⊎◌, inl, inr, refl, ap, ap₂, arith, List, [], ◌∷◌, none, some, ltb,
  Bool-cases, if◌then◌else◌, map,
}
use android_tools.Queue.{Heap, Queue}
use android_tools.Queue.Chain.{
  Chain, Agree, Entry, held, entry_of, block_of, place_in, Sorted, From, In,
}

-- The insertion of an entry after the first: before the first that is not below it.
abbrev pub insert_after : Entry → List Entry → List Entry
insert_after e [] = e ∷ []
insert_after e (y ∷ ys) = if ltb y.0 e.0 then y ∷ insert_after e ys else e ∷ y ∷ ys

-- The insertion of an entry: before the first only if it is below that.
abbrev pub insert_entry : Entry → List Entry → List Entry
insert_entry e [] = e ∷ []
insert_entry e (x ∷ xs) = if ltb e.0 x.0 then e ∷ x ∷ xs else x ∷ insert_after e xs

length-insert_after : (e : Entry) (es : List Entry) → length (insert_after e es) ≡ suc (length es)
length-insert_after e [] = refl
length-insert_after e (x ∷ xs) = elim (Bool-cases (ltb x.0 e.0)) [
  | inl lt ↦ rw lt (ap suc (length-insert_after e xs))
  | inr ge ↦ rw ge refl
]

pub length-insert_entry :
    (e : Entry) (es : List Entry) → length (insert_entry e es) ≡ suc (length es)
length-insert_entry e [] = refl
length-insert_entry e (x ∷ xs) = elim (Bool-cases (ltb e.0 x.0)) [
  | inl lt ↦ rw lt refl
  | inr ge ↦ rw ge (ap suc (length-insert_after e xs))
]

-- the same on addresses
abbrev pub place : Heap → ℕ → ℕ → List ℕ → List ℕ
place h b new [] = new ∷ []
place h b new (a ∷ xs) = if ltb b (block_of h a) then new ∷ a ∷ xs else a ∷ place_in h b new xs

-- The queue `q` runs through the addresses, in order of the blocks, and its second pointer is NULL
-- or one of them.
pub record IsQueue (q : Queue) (xs : List ℕ) : Type 0 where
  pub chain : Chain q.heap q.data_blocks xs
  pub sorted : Sorted q.heap xs
  pub last : (q.last_used ≡ none) ⊎ ((l : ℕ) × (q.last_used ≡ some l) × In l xs)

-- the queue as its entries
pub record Holds (q : Queue) (es : List Entry) : Type 0 where
  pub addresses : List ℕ
  pub valid : IsQueue q addresses
  pub view : map (entry_of q.heap) addresses ≡ es

module _ (h : Heap) (b new : ℕ) (same_block : block_of h new ≡ b) where
  From-place : (v : ℕ) (xs : List ℕ) → v ≤ b → From h v xs → From h v (place_in h b new xs)
  From-place v [] le f = (omega arith, tt)
  From-place v (y ∷ ys) le f = elim (Bool-cases (ltb (block_of h y) b)) [
    | inl lt ↦ rw lt (f.0, From-place v ys le f.1)
    | inr ge ↦ rw ge (omega arith, f)
  ]

  From-le : (v w : ℕ) (xs : List ℕ) → v ≤ w → From h w xs → From h v xs
  From-le v w [] le f = tt
  From-le v w (y ∷ ys) le f = (omega arith, From-le v w ys le f.1)

  Sorted-place_in : (xs : List ℕ) → Sorted h xs → Sorted h (place_in h b new xs)
  Sorted-place_in [] s = (tt, tt)
  Sorted-place_in (y ∷ ys) s = elim (Bool-cases (ltb (block_of h y) b)) [
    | inl lt ↦ rw lt (From-place (block_of h y) ys (ground arith) s.0, Sorted-place_in ys s.1)
    | inr ge ↦
        let le : block_of h new ≤ block_of h y = ground arith in
        rw ge ((le, From-le (block_of h new) (block_of h y) ys le s.0), s)
  ]

  pub Sorted-place : (xs : List ℕ) → Sorted h xs → Sorted h (place h b new xs)
  Sorted-place [] s = (tt, tt)
  Sorted-place (a ∷ xs) s = elim (Bool-cases (ltb b (block_of h a))) [
    | inl lt ↦
        let le : block_of h new ≤ block_of h a = ground arith in
        rw lt ((le, From-le (block_of h new) (block_of h a) xs le s.0), s)
    | inr ge ↦ rw ge (From-place (block_of h a) xs (ground arith) s.0, Sorted-place_in xs s.1)
  ]

-- the nodes of the list hold the same on both heaps
abbrev pub Same : Heap → Heap → List ℕ → Type 0
Same h h' [] = Unit {0}
Same h h' (x ∷ xs) = (entry_of h' x ≡ entry_of h x) × Same h h' xs

-- Order and view depend on what the nodes hold alone.
module _ (h h' : Heap) where
  pub Same-all : (xs : List ℕ) → ((x : ℕ) → entry_of h' x ≡ entry_of h x) → Same h h' xs
  Same-all [] same = tt
  Same-all (x ∷ xs) same = (same x, Same-all xs same)

  pub Same-Agree : (xs : List ℕ) → Agree h h' xs → Same h h' xs
  Same-Agree [] agree = tt
  Same-Agree (x ∷ xs) agree = (ap held agree.0, Same-Agree xs agree.1)

  From-Same : (v : ℕ) (xs : List ℕ) → Same h h' xs → From h v xs → From h' v xs
  From-Same v [] same f = tt
  From-Same v (y ∷ ys) same f =
      let e : block_of h' y ≡ block_of h y = ap (λ (e : Entry). e.0) same.0 in
      (omega (arith, f.0), From-Same v ys same.1 f.1)

  pub Sorted-Same : (xs : List ℕ) → Same h h' xs → Sorted h xs → Sorted h' xs
  Sorted-Same [] same s = tt
  Sorted-Same (y ∷ ys) same s =
      let e : block_of h' y ≡ block_of h y = ap (λ (e : Entry). e.0) same.0 in
      (rw e (From-Same (block_of h y) ys same.1 s.0), Sorted-Same ys same.1 s.1)

  pub view-Same : (xs : List ℕ) → Same h h' xs → map (entry_of h') xs ≡ map (entry_of h) xs
  view-Same [] same = refl
  view-Same (y ∷ ys) same = ap₂ ◌∷◌ same.0 (view-Same ys same.1)
