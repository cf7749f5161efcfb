-- ===== src/Queue/Chain.antt =====
-- A linked list on the heap, as the list of its addresses.
use android_tools.Common.{
  ℕ, zero, suc, ◌≤◌, ◌<◌, ◌≡◌, ◌≢◌, ◌⊎◌, inl, inr, refl, ap, sym, ◌∙◌, arith, List, [], ◌∷◌, Option,
  none, some, ltb, get_elem?, get_elem?-set_ne, set, length, if◌then◌else◌,
}
use android_tools.Queue.{Source, memory, DataBlock, Heap}

-- `a` is none of the addresses
abbrev pub NotIn : ℕ → List ℕ → Type 0
NotIn a [] = Unit {0}
NotIn a (x ∷ xs) = (a ≢ x) × NotIn a xs

-- From `p` on, the list on the heap runs through the addresses and ends; none comes twice.
abbrev pub Chain : Heap → Option ℕ → List ℕ → Type 0
Chain h p [] = p ≡ none
Chain h p (a ∷ xs) =
    (p ≡ some a) × (d : DataBlock) × (get_elem? h a ≡ some d) × NotIn a xs × Chain h d.next xs

-- what a node holds besides its link
abbrev pub Entry : Type 0
Entry = ℕ × ℕ × Source

abbrev pub held : Option DataBlock → Entry
held none = (0, 0, memory 0)
held (some d) = (d.block, d.len, d.source)

abbrev pub entry_of : Heap → ℕ → Entry
entry_of h a = held (get_elem? h a)

abbrev pub block_of : Heap → ℕ → ℕ
block_of h a = (entry_of h a).0

-- the heaps agree at the addresses
abbrev pub Agree : Heap → Heap → List ℕ → Type 0
Agree h h' [] = Unit {0}
Agree h h' (a ∷ xs) = (get_elem? h' a ≡ get_elem? h a) × Agree h h' xs

-- A heap that agrees at the addresses of a list holds the same list.
pub Chain-Agree :
    (h h' : Heap) (p : Option ℕ) (xs : List ℕ) → Agree h h' xs → Chain h p xs → Chain h' p xs
Chain-Agree h h' p [] agree c = c
Chain-Agree h h' p (a ∷ xs) agree (e, d, at, out, c) =
    (e, d, agree.0 ∙ at, out, Chain-Agree h h' d.next xs agree.1 c)

pub Agree-set :
    (h h' : Heap) (y : ℕ) (v : DataBlock) (xs : List ℕ)
    → NotIn y xs
    → Agree h h' xs
    → Agree h (set h' y v) xs
Agree-set h h' y v [] out agree = tt
Agree-set h h' y v (a ∷ xs) out agree =
    (get_elem?-set_ne h' v out.0 ∙ agree.0, Agree-set h h' y v xs out.1 agree.1)

pub Agree-refl : (h : Heap) (xs : List ℕ) → Agree h h xs
Agree-refl h [] = tt
Agree-refl h (a ∷ xs) = (refl, Agree-refl h xs)

-- Where `new` is put: before the first address whose block is not below `b`.
abbrev pub place_in : Heap → ℕ → ℕ → List ℕ → List ℕ
place_in h b new [] = new ∷ []
place_in h b new (y ∷ ys) = if ltb (block_of h y) b then y ∷ place_in h b new ys else new ∷ y ∷ ys

-- A heap after an insertion into a list: nodes hold what they held, and those outside of the list
-- and `new` are as before.
pub record Keeps (new : ℕ) (xs : List ℕ) (h h' : Heap) : Type 0 where
  pub same : (x : ℕ) → entry_of h' x ≡ entry_of h x
  pub outside : (x : ℕ) → x ≢ new → NotIn x xs → get_elem? h' x ≡ get_elem? h x

-- A node that is set again with another link holds what it held.
pub entry_of-set :
    (h : Heap) (a : ℕ) (d e : DataBlock) (x : ℕ)
    → get_elem? h a ≡ some d
    → held (some e) ≡ held (some d)
    → entry_of (set h a e) x ≡ entry_of h x
entry_of-set [] a d e x at same = cc
entry_of-set (n ∷ h) zero d e zero at same = same ∙ ap held (sym at)
entry_of-set (n ∷ h) zero d e (suc x) at same = refl
entry_of-set (n ∷ h) (suc a) d e zero at same = refl
entry_of-set (n ∷ h) (suc a) d e (suc x) at same = entry_of-set h a d e x at same

pub in_heap : (h : Heap) (a : ℕ) {d : DataBlock} → get_elem? h a ≡ some d → a < length h
in_heap [] a at = cc
in_heap (n ∷ h) zero at = omega arith
in_heap (n ∷ h) (suc a) at = omega (arith, in_heap h a at)

abbrev pub In : ℕ → List ℕ → Type 0
In a [] = ⊥
In a (x ∷ xs) = (a ≡ x) ⊎ In a xs

-- No block in the list is below `b`.
abbrev pub From : Heap → ℕ → List ℕ → Type 0
From h b [] = Unit {0}
From h b (x ∷ xs) = (b ≤ block_of h x) × From h b xs

-- The nodes are in the order of their blocks.
abbrev pub Sorted : Heap → List ℕ → Type 0
Sorted h [] = Unit {0}
Sorted h (x ∷ xs) = From h (block_of h x) xs × Sorted h xs

From-In : (h : Heap) (b l : ℕ) (xs : List ℕ) → From h b xs → In l xs → b ≤ block_of h l
From-In h b l [] f i = absurd i
From-In h b l (x ∷ xs) f (inl e) = rw e f.0
From-In h b l (x ∷ xs) f (inr i) = From-In h b l xs f.1 i

pub In-Sorted :
    (h : Heap) (l y : ℕ) (ys : List ℕ)
    → Sorted h (y ∷ ys)
    → In l (y ∷ ys)
    → block_of h y ≤ block_of h l
In-Sorted h l y ys s (inl e) = rw e (omega arith)
In-Sorted h l y ys s (inr i) = From-In h (block_of h y) l ys s.0 i
